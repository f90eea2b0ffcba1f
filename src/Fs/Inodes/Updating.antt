-- ===== src/Fs/Inodes/Updating.antt =====
-- What `iupdate` writes and `ilock` reads: kernel/fs.c of "triple file system".
use native.Mathlib.Decide.{ℕ_discrete}
use operation_system_project.Prelude.{
  ℕ, ◌%◌, ◌≡◌, ◌≢◌, ◌<◌, refl, sym, subst, ap, ◌∙◌, true, false, ltb, ◌==◌, ok, Returns,
  Returns-of_eq, arith,
}
use operation_system_project.Fs.{Inode, Fs, bread, change, bwrite, ◌>>◌, pure}
use operation_system_project.Fs.Mirror.{put, eq_self, after}
use operation_system_project.Fs.Bitmap.Alloc.{IsSized, update_self, update_other}
use operation_system_project.Fs.Inodes.{
  Dinode, inode_block, read_dinode, write_dinode, disk_part, load_part, store_dinode, iupdate,
  load_inode, ilock,
}
use operation_system_project.Fs.Inodes.Encoding.{
  IsFitting, read_dinode-write_dinode_self, read_dinode-write_dinode_ne,
}

-- Inode `j` as its block has it.
abbrev pub inode_of : Fs → ℕ → Dinode
inode_of s j = read_dinode j (s.cached (inode_block j))

-- Inode `i` is `e`, in its buffer and on the disk; every other inode and every block without
-- inode `i` is as it was.
pub record IsStored (s s' : Fs) (i : ℕ) (e : Dinode) : Type 0 where
  pub stored : inode_of s' i ≡ e
  pub others : (j : ℕ) → j ≢ i → inode_of s' j ≡ inode_of s j
  pub blocks : (k : ℕ) → k ≢ inode_block i → s'.cached k ≡ s.cached k
  pub written : s'.disk (inode_block i) ≡ s'.cached (inode_block i)
  pub inode : s'.inode ≡ s.inode

abbrev pub put_dinode : ℕ → Dinode → Fs → Fs
put_dinode i e s = put s (inode_block i) (write_dinode i e (s.cached (inode_block i)))

pub store_dinode-put :
    (i : ℕ) (e : Dinode) (s : Fs) → store_dinode i e s ≡ ok (tt, put_dinode i e s)
unfolding store_dinode change bwrite
store_dinode-put i e s = rw (eq_self (inode_block i))

same_inode : (i j : ℕ) → inode_block j ≡ inode_block i → i % 8 ≡ j % 8 → j ≡ i
same_inode i j e e' = omega (arith, e, e')

module _ (i : ℕ) (e : Dinode) (s : Fs) (h : IsFitting e) (sized : IsSized s) where
  put_dinode-others : (j : ℕ) → j ≢ i → inode_of (put_dinode i e s) j ≡ inode_of s j
  put_dinode-others j ne = elim (ℕ_discrete (inode_block j) (inode_block i)) [
    | yes q ↦
        rw (q, eq_self (inode_block i))
          (read_dinode-write_dinode_ne i j e (s.cached (inode_block i)) h (sized (inode_block i))
            (λ q'. ne (same_inode i j q q')))
    | no apart ↦ ap (read_dinode j) (update_other s.cached (inode_block i) _ (inode_block j) apart)
  ]

  pub put_dinode-IsStored : IsStored s (put_dinode i e s) i e
  put_dinode-IsStored = record {
    stored =
        ap (read_dinode i) (update_self s.cached (inode_block i) _)
        ∙ read_dinode-write_dinode_self i e (s.cached (inode_block i)) h (sized (inode_block i));
    others = put_dinode-others;
    blocks = update_other s.cached (inode_block i) _;
    written = update_self s.disk (inode_block i) _ ∙ sym (update_self s.cached (inode_block i) _);
    inode = refl;
  }

-- `iupdate` of an inode whose fields fit, with blocks of the block size in the buffers, puts the
-- inode in its place, in the buffer and on the disk, and changes no other inode and no other block.
pub iupdate-IsStored :
    (s : Fs)
    → IsFitting (disk_part s.inode)
    → IsSized s
    → Returns (λ r. IsStored s r.1 s.inode.inum (disk_part s.inode)) (iupdate s)
unfolding iupdate
iupdate-IsStored s h sized =
    Returns-of_eq (store_dinode-put s.inode.inum (disk_part s.inode) s)
      (put_dinode-IsStored s.inode.inum (disk_part s.inode) s h sized)

-- A copy of an inode with a reference, neither busy nor valid.
pub record IsFresh (ip : Inode) (i : ℕ) : Type 0 where
  pub number : ip.inum ≡ i
  pub held : 0 < ip.ref
  pub idle : ip.busy ≡ false
  pub unread : ip.valid ≡ false

-- The copy with what the disk has, locked.
abbrev pub locked_copy : Inode → Dinode → Inode
locked_copy ip e = record (load_part ip e) { busy = true; valid = true }

load_inode-loaded :
    (s : Fs)
    → 0 < (inode_of s s.inode.inum).kind
    → load_inode s
      ≡ ok (
        tt,
        record s { inode = record (load_part s.inode (inode_of s s.inode.inum)) { valid = true } },
      )
unfolding load_inode bread
load_inode-loaded s h = rw (positive (inode_of s s.inode.inum).kind h)
  where
    positive : (k : ℕ) → 0 < k → (k == 0) ≡ false
    positive k h = ground arith

-- The state in which `ilock` reads the inode.
abbrev busy_state : Fs → Fs
busy_state s = record s { inode = record (s.inode) { busy = true } }

ilock-load_inode :
    (s : Fs) → IsFresh s.inode s.inode.inum → ilock s ≡ (load_inode >> pure true) (busy_state s)
unfolding ilock
ilock-load_inode s h = rw (has_ref s.inode.ref h.held, h.idle, h.unread) refl
  where
    has_ref : (r : ℕ) → 0 < r → ltb r 1 ≡ false
    has_ref r h = ground arith

ilock-read :
    (s : Fs)
    → IsFresh s.inode s.inode.inum
    → 0 < (inode_of s s.inode.inum).kind
    → ilock s ≡ ok (true, record s { inode = locked_copy s.inode (inode_of s s.inode.inum) })
ilock-read s h pos =
    ilock-load_inode s h ∙ after (λ u. pure true) (load_inode-loaded (busy_state s) pos) refl

-- What `iupdate` writes of an inode in use whose fields fit, with blocks of the block size in the
-- buffers, `ilock` reads into any copy of that inode that is neither locked nor valid and has a
-- reference: it returns with the copy locked, and all fields of the disk are those written.
pub ilock-iupdate :
    (s : Fs) (ip : Inode)
    → IsFitting (disk_part s.inode)
    → 0 < s.inode.kind
    → IsSized s
    → IsFresh ip s.inode.inum
    → Returns
        (λ r.
          ilock (record (r.1) { inode = ip })
          ≡ ok (true, record (r.1) { inode = locked_copy ip (disk_part s.inode) }))
        (iupdate s)
unfolding iupdate
ilock-iupdate s ip h pos sized fresh =
    Returns-of_eq (store_dinode-put s.inode.inum (disk_part s.inode) s) (
      ilock-read t fresh' (subst (λ e. 0 < e.kind) (sym back) pos)
      ∙ ap (λ e. ok (true, record t { inode = locked_copy ip e })) back)
  where
    t : Fs
    t = record (put_dinode s.inode.inum (disk_part s.inode) s) { inode = ip }

    back : inode_of t ip.inum ≡ disk_part s.inode
    back =
        ap (inode_of t) fresh.number
        ∙ (put_dinode-IsStored s.inode.inum (disk_part s.inode) s h sized).stored

    fresh' : IsFresh ip ip.inum
    fresh' = record { number = refl; held = fresh.held; idle = fresh.idle; unread = fresh.unread }
