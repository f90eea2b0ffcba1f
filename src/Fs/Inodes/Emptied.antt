-- ===== src/Fs/Inodes/Emptied.antt =====
-- `itrunc` of a file without an indirect block: kernel/fs.c of "triple file system".
use operation_system_project.Prelude.{
  ℕ, ◌+◌, ◌%◌, ◌≡◌, ◌≢◌, ◌≤◌, ◌<◌, ◌⊎◌, inl, inr, refl, sym, subst, ap, ◌∙◌, false, ◌==◌,
  if◌then◌else◌, Returns, Returns-of_eq, arith,
}
use operation_system_project.Fs.{Fs, pure, ◌>>◌, and_then, ndirect, nindirect}
use operation_system_project.Fs.Blocks.{get_addr, set_addr}
use operation_system_project.Fs.Mirror.{addr}
use operation_system_project.Fs.Bitmap.Free.{IsSynced, IsSynced-put}
use operation_system_project.Fs.Bitmap.{Superblock, bitmap_block, block_bit, bits_per_block, bfree}
use operation_system_project.Fs.Bitmap.Alloc.{super, in_use, IsSized, update_other}
use operation_system_project.Fs.Inodes.{inode_block, disk_part, store_dinode, iupdate}
use operation_system_project.Fs.Inodes.Encoding.{IsFitting}
use operation_system_project.Fs.Inodes.Updating.{
  inode_of, put_dinode, store_dinode-put, put_dinode-IsStored,
}
use operation_system_project.Fs.Inodes.Freeing.{
  free_direct, free_entries, set_size, free_indirect, itrunc,
}
use operation_system_project.Fs.Inodes.Truncating.{IsOwned, IsCleared}
use operation_system_project.Fs.Inodes.Releasing.{Returns-and_then, free_direct-Cleared}

-- The file is empty, and so is its inode in the inode blocks; the bits of its blocks are clear and
-- those of the other blocks below the size are as they were. All this is so in the buffers, and
-- every block of the disk is as its buffer.
pub record IsTruncated (sb : Superblock) (s s' : Fs) : Type 0 where
  pub size : s'.inode.logical_size ≡ 0
  pub empty : (j : ℕ) → j < ndirect + 1 → addr s'.inode j ≡ 0
  pub stored : inode_of s' s.inode.inum ≡ disk_part s'.inode
  pub synced : IsSynced s'
  pub freed_bits :
      (j : ℕ) → j < ndirect → addr s.inode j ≢ 0 → in_use sb.ninodes s' (addr s.inode j) ≡ false
  pub kept_bits :
      (c : ℕ)
      → c < sb.size
      → ((j : ℕ) → j < ndirect → addr s.inode j ≢ c)
      → in_use sb.ninodes s' c ≡ in_use sb.ninodes s c

abbrev sized_zero : Fs → Fs
sized_zero t = record t { inode = record (t.inode) { logical_size = 0 } }

free_indirect-store_dinode :
    (t : Fs)
    → addr t.inode ndirect ≡ 0
    → free_indirect t ≡ store_dinode t.inode.inum (disk_part (sized_zero t).inode) (sized_zero t)
unfolding free_indirect get_addr iupdate
free_indirect-store_dinode t z =
    ap
      (λ ind.
        ((if ind == 0
              then pure tt
              else (free_entries nindirect ind 0 >> (bfree ind >> set_addr ndirect 0)))
            >> (set_size 0 >> iupdate))
          t)
      z

itrunc-free_direct : (s : Fs) → itrunc s ≡ and_then (free_direct ndirect 0 s) (λ u. free_indirect)
unfolding itrunc
itrunc-free_direct s = refl

behind_inodes : (i c n : ℕ) → i < n → bitmap_block c n ≢ inode_block i
behind_inodes i c n h e = omega (arith, h, e)

upto : (j : ℕ) → j < ndirect + 1 → (j < ndirect) ⊎ (j ≡ ndirect)
upto j h = ground arith

module _ (sb : Superblock) (s t : Fs) (c : IsCleared sb s t 0 ndirect)
    (fits : IsFitting (disk_part s.inode)) (agree : IsSynced s) where
  same_inum : t.inode.inum ≡ s.inode.inum
  same_inum = ap (λ ip. ip.inum) c.fields

  still_IsFitting : IsFitting (disk_part (sized_zero t).inode)
  still_IsFitting = record {
    kind = subst (λ ip. ip.kind < 65536) (sym c.fields) fits.kind;
    major = subst (λ ip. ip.major < 65536) (sym c.fields) fits.major;
    minor = subst (λ ip. ip.minor < 65536) (sym c.fields) fits.minor;
    nlink = subst (λ ip. ip.nlink < 65536) (sym c.fields) fits.nlink;
    logical_size = omega arith;
    addrs = c.fit fits.addrs;
    slots = c.slots ∙ fits.slots;
  }

  module _ (direct : addr s.inode ndirect ≡ 0) (known : s.inode.inum < sb.ninodes) where
    emptied : Fs
    emptied = put_dinode t.inode.inum (disk_part (sized_zero t).inode) (sized_zero t)

    in_use-emptied : (k : ℕ) → in_use sb.ninodes emptied k ≡ in_use sb.ninodes t k
    unfolding emptied
    in_use-emptied k =
        ap (λ d. block_bit d (k % bits_per_block))
          (update_other t.cached (inode_block t.inode.inum) _ (bitmap_block k sb.ninodes) (
            behind_inodes t.inode.inum k sb.ninodes
              (subst (λ i. i < sb.ninodes) (sym same_inum) known)))

    empty_slots : (j : ℕ) → j < ndirect + 1 → addr t.inode j ≡ 0
    empty_slots j h = elim (upto j h) [
      | inl l ↦ c.cleared j (omega arith) l
      | inr e ↦ ap (addr t.inode) e ∙ (c.kept ndirect (inr (omega arith)) ∙ direct)
    ]

    Truncated-emptied : IsTruncated sb s emptied
    unfolding emptied
    Truncated-emptied = record {
      size = refl;
      empty = empty_slots;
      stored =
          ap (inode_of emptied) (sym same_inum)
          ∙ (put_dinode-IsStored t.inode.inum (disk_part (sized_zero t).inode) (sized_zero t)
              still_IsFitting c.ready.sized).stored;
      synced = IsSynced-put (sized_zero t) (inode_block t.inode.inum) _ (c.synced agree);
      freed_bits = λ j l nz. in_use-emptied (addr s.inode j) ∙ c.freed_bits j (omega arith) l nz;
      kept_bits = λ k small off. in_use-emptied k ∙ c.kept_bits k small (λ j h l. off j l);
    }

    free_indirect-Truncated : Returns (λ r. IsTruncated sb s r.1) (free_indirect t)
    unfolding emptied
    free_indirect-Truncated =
        Returns-of_eq
          (free_indirect-store_dinode t (empty_slots ndirect (omega arith))
            ∙ store_dinode-put t.inode.inum (disk_part (sized_zero t).inode) (sized_zero t))
          Truncated-emptied

-- `itrunc` of a file without an indirect block, whose direct addresses are data blocks in use, each
-- noted once, whose fields fit and whose number is below the number of inodes, with blocks of the
-- block size in the buffers and every block of the disk as its buffer, returns. The file has the size 0 and no blocks, in memory and on the
-- disk, the bits of its blocks are clear, and those of the other blocks below the size are as
-- they were, in the buffers and, since each block of the disk is again as its buffer, there too.
pub itrunc-Truncated :
    (s : Fs)
    → IsSized s
    → IsOwned (super s) s 0 ndirect
    → addr s.inode ndirect ≡ 0
    → IsFitting (disk_part s.inode)
    → s.inode.inum < (super s).ninodes
    → IsSynced s
    → Returns (λ r. IsTruncated (super s) s r.1) (itrunc s)
itrunc-Truncated s sized o direct fits known agree =
    subst (λ r. Returns (λ q. IsTruncated (super s) s q.1) r) (sym (itrunc-free_direct s))
      (Returns-and_then (λ u. free_indirect)
        (free_direct-Cleared (super s) ndirect 0 ndirect s (record { sized = sized; same = refl }) o
          refl (subst (λ k. ndirect ≤ k) (sym fits.slots) (omega arith)))
        (λ u t c. free_indirect-Truncated (super s) s t c fits agree direct known))
