-- ===== src/Fs/Inodes/Cache.antt =====
-- The cache of inodes: `iget` and `idup`, kernel/fs.c of "triple file system".
use operation_system_project.Prelude.{
  ℕ, ◌+◌, Bool, false, ◌&&◌, Option, none, some, List, [], ◌∷◌, get_or, modify, ltb, ◌==◌,
  if◌then◌else◌, Result, ok, panic,
}
use operation_system_project.Fs.{Inode}

-- An entry of `icache.inode` that was never used; entries out of range read as such.
abbrev pub blank_inode : Inode
blank_inode = record {
  dev = 0;
  inum = 0;
  ref = 0;
  busy = false;
  valid = false;
  kind = 0;
  major = 0;
  minor = 0;
  nlink = 0;
  logical_size = 0;
  addrs = [];
}

abbrev pub slot : List Inode → ℕ → Inode
slot t i = get_or t i blank_inode

-- What the loop of `iget` comes to: the entry of the inode, or the first empty one.
pub data Scan : Type 0 where
  cached : ℕ → Scan
  vacant : Option ℕ → Scan

unfoldable pub is_copy : Inode → (dev inum : ℕ) → Bool
is_copy ip dev inum = ltb 0 ip.ref && (ip.dev == dev && ip.inum == inum)

unfoldable pub note_empty : Option ℕ → ℕ → Inode → Option ℕ
note_empty none i ip = if ip.ref == 0 then some i else none
note_empty (some j) i ip = some j

unfoldable pub scan_inodes : List Inode → (i : ℕ) → Option ℕ → (dev inum : ℕ) → Scan
unfolding is_copy note_empty
scan_inodes [] i empty dev inum = vacant empty
scan_inodes (ip ∷ t) i empty dev inum =
    let rest = scan_inodes t (i + 1) (note_empty empty i ip) dev inum in
    if is_copy ip dev inum then cached i else rest

abbrev pub count_ref : Inode → Inode
count_ref ip = record ip { ref = ip.ref + 1 }

abbrev pub fresh_copy : (dev inum : ℕ) → Inode → Inode
fresh_copy dev inum ip = record ip { dev = dev; inum = inum; ref = 1; busy = false; valid = false }

-- `iget` past its loop, and `iget`: the entry and the cache.
unfoldable pub iget_found : List Inode → (dev inum : ℕ) → Scan → Result (ℕ × List Inode)
iget_found t dev inum (cached i) = ok (i, modify t i count_ref)
iget_found t dev inum (vacant none) = panic
iget_found t dev inum (vacant (some i)) = ok (i, modify t i (fresh_copy dev inum))

unfoldable pub iget : List Inode → (dev inum : ℕ) → Result (ℕ × List Inode)
unfolding scan_inodes iget_found
iget t dev inum = iget_found t dev inum (scan_inodes t 0 none dev inum)

unfoldable pub idup : List Inode → ℕ → List Inode
idup t i = modify t i count_ref
