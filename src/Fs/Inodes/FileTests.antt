-- ===== src/Fs/Inodes/FileTests.antt =====
-- `itrunc` on a file of two blocks.
use operation_system_project.Prelude.{
  get_or, ◌≢◌, Bool, length, ℕ, ◌++◌, ◌==◌, if◌then◌else◌, zero, suc, ◌≡◌, refl, List, ◌∷◌,
  replicate, true, false, arith, Returns,
}
use operation_system_project.Fs.{Inode, Fs}
use operation_system_project.Fs.Mirror.{addr}
use operation_system_project.Fs.Inodes.Freeing.{itrunc}
use operation_system_project.Fs.Inodes.Truncating.{IsOwned}
use operation_system_project.Fs.Inodes.Emptied.{IsTruncated, itrunc-Truncated}
use operation_system_project.Fs.Bitmap.Free.{IsData}
use operation_system_project.Fs.Bitmap.{Superblock, block_bit, bit, zero_block}
use operation_system_project.Fs.Bitmap.Alloc.{IsSized, in_use}
use operation_system_project.Fs.Inodes.{disk_part}
use operation_system_project.Fs.Inodes.Encoding.{IsFitting}
use operation_system_project.Fs.Inodes.Allocating.{zeros-All}
use operation_system_project.Fs.Blocks.{word_at}
use operation_system_project.Fs.Bitmap.{parse_super}

-- A disk of twenty blocks with a file in blocks 5 and 6, and the blocks up to 6 in use.
abbrev two_blocks : Inode
two_blocks = record {
  dev = 1;
  inum = 3;
  ref = 1;
  busy = true;
  valid = true;
  kind = 2;
  major = 0;
  minor = 0;
  nlink = 0;
  logical_size = 900;
  addrs = 5 ∷ 6 ∷ replicate 11 0;
}

abbrev disk_block : (is_super is_bitmap : Bool) → List ℕ
disk_block is_super is_bitmap =
    if is_super
    then 20 ∷ (replicate 7 0 ++ (8 ∷ replicate 503 0))
    else (if is_bitmap then 127 ∷ replicate 511 0 else zero_block)

abbrev file_disk : Fs
file_disk = record {
  inode = two_blocks;
  cached = λ b. disk_block (b == 1) (b == 4);
  disk = λ b. disk_block (b == 1) (b == 4);
}

file_disk-IsSized : IsSized file_disk
file_disk-IsSized b = by_tests (b == 1) (b == 4)
  where
    by_tests : (t u : Bool) → length (disk_block t u) ≡ 512
    by_tests true u = refl
    by_tests false true = refl
    by_tests false false = refl

no_more : (n j : ℕ) → get_or {A = ℕ} (replicate n 0) j 0 ≡ 0
no_more zero j = refl
no_more (suc n) zero = refl
no_more (suc n) (suc j) = no_more n j

abbrev file_super : Superblock
file_super = record { size = 20; nblocks = 0; ninodes = 8 }

two_blocks-owned : (j : ℕ) → addr two_blocks j ≢ 0 → IsData file_super (addr two_blocks j)
two_blocks-owned zero nz = (omega arith, omega arith)
two_blocks-owned (suc zero) nz = (omega arith, omega arith)
two_blocks-owned (suc (suc j)) nz = absurd (nz (no_more 11 j))

two_blocks-used : (j : ℕ) → addr two_blocks j ≢ 0 → in_use 8 file_disk (addr two_blocks j) ≡ true
unfolding block_bit bit
two_blocks-used zero nz = refl
two_blocks-used (suc zero) nz = refl
two_blocks-used (suc (suc j)) nz = absurd (nz (no_more 11 j))

two_blocks-apart : (j k : ℕ) → j ≢ k → addr two_blocks j ≢ 0 → addr two_blocks k ≢ addr two_blocks j
two_blocks-apart zero zero ne nz e = ne refl
two_blocks-apart zero (suc zero) ne nz e = omega (arith, e)
two_blocks-apart zero (suc (suc k)) ne nz e = omega (arith, e, no_more 11 k)
two_blocks-apart (suc zero) zero ne nz e = omega (arith, e)
two_blocks-apart (suc zero) (suc zero) ne nz e = ne refl
two_blocks-apart (suc zero) (suc (suc k)) ne nz e = omega (arith, e, no_more 11 k)
two_blocks-apart (suc (suc j)) k ne nz e = nz (no_more 11 j)

file_disk-IsOwned : IsOwned file_super file_disk 0 12
file_disk-IsOwned = record {
  owned = λ j h l nz. two_blocks-owned j nz;
  used = λ j h l nz. two_blocks-used j nz;
  apart = λ j k h l h' l' ne nz. two_blocks-apart j k ne nz;
}

two_blocks-IsFitting : IsFitting (disk_part two_blocks)
two_blocks-IsFitting = record {
  kind = omega arith;
  major = omega arith;
  minor = omega arith;
  nlink = omega arith;
  logical_size = omega arith;
  addrs = (omega arith, (omega arith, zeros-All 11));
  slots = refl;
}

itrunc-Truncated_example : Returns (λ r. IsTruncated file_super file_disk r.1) (itrunc file_disk)
unfolding parse_super word_at
itrunc-Truncated_example =
    itrunc-Truncated file_disk file_disk-IsSized file_disk-IsOwned refl two_blocks-IsFitting
      (omega arith) (λ b. refl)
