-- ===== src/Fs/Bitmap/Tests.antt =====
-- A disk of twenty blocks, the first five of which are in use.
use operation_system_project.Prelude.{
  ℕ, ◌≡◌, ◌<◌, refl, List, [], ◌∷◌, ◌++◌, replicate, length, ◌==◌, if◌then◌else◌, Bool, true, false,
  ok, arith, Returns,
}
use operation_system_project.Fs.{Block, Fs}
use operation_system_project.Fs.Blocks.{word_at, bmap}
use operation_system_project.Fs.Bitmap.Mapping.{Mapped, bmap-Mapped}
use operation_system_project.Fs.Bitmap.{
  zero_block, parse_super, bit, block_bit, find_clear, write_mark, take_clear, search_block, readsb,
  balloc_from, balloc, bfree,
}
use operation_system_project.Fs.Bitmap.Alloc.{super, in_use, IsSized, Allocated, put_mark}
use operation_system_project.Fs.Bitmap.Search.{balloc-Allocated}
use operation_system_project.Fs.Bitmap.Free.{bfree-balloc}

abbrev padded : List ℕ → (n : ℕ) → Block
padded bytes n = bytes ++ replicate n 0

-- Twenty blocks, fifteen of them for data, and eight inodes.
abbrev super_block : Block
super_block = padded (20 ∷ 0 ∷ 0 ∷ 0 ∷ 15 ∷ 0 ∷ 0 ∷ 0 ∷ 8 ∷ 0 ∷ 0 ∷ 0 ∷ []) 500

abbrev small_disk_block : ℕ → Block
small_disk_block b =
    if b == 1 then super_block else (if b == 4 then padded (31 ∷ []) 511 else zero_block)

abbrev small_disk : Fs
small_disk = record {
  inode = record {
    dev = 1;
    inum = 3;
    ref = 1;
    busy = true;
    valid = true;
    kind = 2;
    major = 0;
    minor = 0;
    nlink = 1;
    logical_size = 0;
    addrs = replicate 13 0;
  };
  cached = small_disk_block;
  disk = small_disk_block;
}

small_disk-IsSized : IsSized small_disk
small_disk-IsSized b = by_tests (b == 1) (b == 4)
  where
    by_tests :
        (t u : Bool)
        → length {A = ℕ}
            (if t then super_block else (if u then padded (31 ∷ []) 511 else zero_block))
          ≡ 512
    by_tests true u = refl
    by_tests false true = refl
    by_tests false false = refl

small_disk-super : super small_disk ≡ record { size = 20; nblocks = 15; ninodes = 8 }
unfolding parse_super word_at
small_disk-super = refl

balloc-small_disk : balloc small_disk ≡ ok (5, put_mark 8 1 5 small_disk)
unfolding balloc readsb parse_super word_at balloc_from search_block find_clear block_bit bit
    take_clear write_mark
balloc-small_disk = refl

balloc-Allocated_example : Allocated 8 20 small_disk (balloc small_disk)
unfolding parse_super word_at
balloc-Allocated_example = balloc-Allocated small_disk small_disk-IsSized

bfree-balloc_example :
    Returns
      (λ r. (c : ℕ) → c < 20 → in_use 8 r.1 c ≡ in_use 8 small_disk c)
      (bfree 5 (put_mark 8 1 5 small_disk))
unfolding parse_super word_at
bfree-balloc_example =
    bfree-balloc small_disk (put_mark 8 1 5 small_disk) 5 small_disk-IsSized balloc-small_disk
      (omega arith, omega arith)

bmap-Mapped_example : Mapped 8 20 small_disk 2 (bmap balloc 2 small_disk)
unfolding parse_super word_at block_bit bit
bmap-Mapped_example =
    bmap-Mapped small_disk 2 small_disk-IsSized (omega arith) (omega arith) refl refl
