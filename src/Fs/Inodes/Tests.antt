-- ===== src/Fs/Inodes/Tests.antt =====
-- An inode written and read back on a disk of zeros.
use operation_system_project.Prelude.{
  Bool, length, ℕ, sym, ◌∙◌, ◌++◌, ◌==◌, if◌then◌else◌, zero, suc, ◌≡◌, ◌<◌, refl, List, [], ◌∷◌,
  replicate, true, false, ok, arith, Returns,
}
use operation_system_project.Fs.{Inode, Fs}
use operation_system_project.Fs.Bitmap.{zero_block}
use operation_system_project.Fs.Bitmap.Alloc.{IsSized}
use operation_system_project.Fs.Inodes.{disk_part, iupdate, ilock}
use operation_system_project.Fs.Inodes.Encoding.{IsFitting}
use operation_system_project.Fs.Inodes.Allocating.{zeros-All}
use operation_system_project.Fs.Inodes.Cache.{iget, slot, blank_inode}
use operation_system_project.Fs.Inodes.Distinct.{IsDistinct, Gotten, iget-Gotten}
use operation_system_project.Fs.Inodes.Updating.{
  IsStored, IsFresh, locked_copy, iupdate-IsStored, ilock-iupdate,
}

abbrev used_inode : Inode
used_inode = record {
  dev = 1;
  inum = 11;
  ref = 1;
  busy = true;
  valid = true;
  kind = 2;
  major = 0;
  minor = 0;
  nlink = 1;
  logical_size = 70000;
  addrs = 300 ∷ 301 ∷ replicate 11 0;
}

abbrev other_copy : Inode
other_copy = record {
  dev = 1;
  inum = 11;
  ref = 1;
  busy = false;
  valid = false;
  kind = 0;
  major = 0;
  minor = 0;
  nlink = 0;
  logical_size = 0;
  addrs = [];
}

abbrev zero_disk : Fs
zero_disk = record { inode = used_inode; cached = λ b. zero_block; disk = λ b. zero_block }

used_inode-IsFitting : IsFitting (disk_part used_inode)
used_inode-IsFitting = record {
  kind = omega arith;
  major = omega arith;
  minor = omega arith;
  nlink = omega arith;
  logical_size = omega arith;
  addrs = (omega arith, (omega arith, zeros-All 11));
  slots = refl;
}

other_copy-IsFresh : IsFresh other_copy 11
other_copy-IsFresh = record { number = refl; held = omega arith; idle = refl; unread = refl }

iupdate-IsStored_example :
    Returns (λ r. IsStored zero_disk r.1 11 (disk_part used_inode)) (iupdate zero_disk)
iupdate-IsStored_example = iupdate-IsStored zero_disk used_inode-IsFitting (λ b. refl)

ilock-iupdate_example :
    Returns
      (λ r.
        ilock (record (r.1) { inode = other_copy })
        ≡ ok (true, record (r.1) { inode = locked_copy other_copy (disk_part used_inode) }))
      (iupdate zero_disk)
ilock-iupdate_example =
    ilock-iupdate zero_disk other_copy used_inode-IsFitting (omega arith) (λ b. refl)
      other_copy-IsFresh

-- The block of the superblock has the number of the inodes, 8.
abbrev eight_inodes : Fs
eight_inodes = record {
  inode = used_inode;
  cached = λ b. if b == 1 then replicate 8 0 ++ (8 ∷ replicate 503 0) else zero_block;
  disk = λ b. zero_block;
}

eight_inodes-IsSized : IsSized eight_inodes
eight_inodes-IsSized b = by_test (b == 1)
  where
    by_test :
        (t : Bool)
        → length {A = ℕ} (if t then replicate 8 0 ++ (8 ∷ replicate 503 0) else zero_block) ≡ 512
    by_test true = refl
    by_test false = refl

-- A cache with a copy of inode 11 and an empty entry.
abbrev two_entries : List Inode
two_entries = used_inode ∷ blank_inode ∷ []

two_entries-used : (i : ℕ) → 0 < (slot two_entries i).ref → i ≡ 0
two_entries-used zero h = refl
two_entries-used (suc zero) h = elim h [ ]
two_entries-used (suc (suc i)) h = elim h [ ]

two_entries-IsDistinct : IsDistinct two_entries
two_entries-IsDistinct i j ne hi hj e e' = ne (two_entries-used i hi ∙ sym (two_entries-used j hj))

iget-Gotten_example : Gotten 1 5 two_entries (iget two_entries 1 5)
iget-Gotten_example = iget-Gotten 1 5 two_entries two_entries-IsDistinct
