-- ===== src/Fs/Inodes/Freeing.antt =====
-- Inodes given up: `itrunc`, `iput` and `iunlockput`, and `stati`: kernel/fs.c of "triple file system".
use operation_system_project.Prelude.{
  ℕ, zero, suc, ◌+◌, ◌-◌, ◌*◌, ◌%◌, ◌^◌, true, false, ◌&&◌, ◌==◌, if◌then◌else◌, panic,
}
use operation_system_project.Fs.{Inode, M, pure, ◌>>=◌, ◌>>◌, ndirect, nindirect, t_mirrored, bread}
use operation_system_project.Fs.Blocks.{word_at, get_addr, set_addr}
use operation_system_project.Fs.Bitmap.{bfree}
use operation_system_project.Fs.Inodes.{set_inode, iupdate, iunlock}

-- `if(a) bfree(ip->dev, a)`
unfoldable pub free_block : ℕ → M (Unit {0})
unfolding bfree
free_block a = if a == 0 then pure tt else bfree a

-- The body of the loop over the direct blocks, and the loop.
unfoldable pub free_slot : ℕ → M (Unit {0})
unfolding get_addr set_addr bfree
free_slot i = do a ← get_addr i; if a == 0 then pure tt else (do bfree a; set_addr i 0)

unfoldable pub free_direct : (fuel i : ℕ) → M (Unit {0})
unfolding free_slot
free_direct zero i = pure tt
free_direct (suc fuel) i = do free_slot i; free_direct fuel (i + 1)

unfoldable pub free_entries : (fuel ind j : ℕ) → M (Unit {0})
unfolding bread word_at free_block
free_entries zero ind j = pure tt
free_entries (suc fuel) ind j = do
  d ← bread ind
  free_block (word_at d j)
  free_entries fuel ind (j + 1)

abbrev pub set_size : ℕ → M (Unit {0})
set_size n s = set_inode (record (s.inode) { logical_size = n }) s

-- The part of `itrunc` past the loop over the direct blocks.
unfoldable pub free_indirect : M (Unit {0})
unfolding get_addr set_addr free_entries bfree iupdate
free_indirect = do
  ind ← get_addr ndirect
  if ind == 0 then pure tt else (do free_entries nindirect ind 0; bfree ind; set_addr ndirect 0)
  set_size 0
  iupdate

unfoldable pub itrunc : M (Unit {0})
unfolding free_direct free_indirect
itrunc = do free_direct ndirect 0; free_indirect

abbrev drop_ref : M (Unit {0})
drop_ref s = set_inode (record (s.inode) { ref = s.inode.ref - 1 }) s

-- `iput` past its test: the inode is freed on the disk. The wakeup is left out.
unfoldable pub free_inode : M (Unit {0})
unfolding itrunc iupdate
free_inode = do
  λ s. set_inode (record (s.inode) { busy = true }) s
  itrunc
  λ s. set_inode (record (s.inode) { kind = 0 }) s
  iupdate
  λ s. set_inode (record (s.inode) { busy = false; valid = false }) s

unfoldable pub iput : M (Unit {0})
unfolding free_inode
iput s =
    if s.inode.ref == 1 && (s.inode.valid && s.inode.nlink == 0)
    then (if s.inode.busy then panic else (free_inode >> drop_ref) s)
    else drop_ref s

unfoldable pub iunlockput : M (Unit {0})
unfolding iunlock iput
iunlockput = do iunlock; iput

-- `struct stat`, as `stati` fills it in.
pub record FileStat : Type 0 where
  pub dev : ℕ
  pub ino : ℕ
  pub kind : ℕ
  pub nlink : ℕ
  pub logical_size : ℕ
  pub physical_size : ℕ

unfoldable pub stati : Inode → FileStat
stati ip = record {
  dev = ip.dev;
  ino = ip.inum;
  kind = ip.kind;
  nlink = ip.nlink;
  logical_size = ip.logical_size;
  physical_size = if ip.kind == t_mirrored then ip.logical_size * 3 % 2 ^ 32 else ip.logical_size;
}
