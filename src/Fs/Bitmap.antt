-- ===== src/Fs/Bitmap.antt =====
-- The bitmap of blocks in use: `readsb`, `bzero`, `balloc` and `bfree`, kernel/fs.c of "triple file
-- system", with the layout of include/fs.h. Numbers of blocks stay below 2 ^ 31.
pub mod Bits
pub mod Alloc
pub mod Search
pub mod Free
pub mod Mapping
mod Tests
use operation_system_project.Prelude.{
  ℕ, zero, suc, ◌+◌, ◌*◌, ◌/◌, ◌%◌, Bool, Option, none, some, get_or, set, replicate, ltb, ◌==◌,
  if◌then◌else◌,
}
use operation_system_project.Fs.{
  Block, Fs, M, pure, ◌>>=◌, ◌>>◌, fault, block_size, bread, change, bwrite,
}
use operation_system_project.Fs.Blocks.{word_at}

pub record Superblock : Type 0 where
  pub size : ℕ
  pub nblocks : ℕ
  pub ninodes : ℕ

-- IPB and BPB of fs.h: inodes in a block, and bits in a block.
abbrev pub inodes_per_block : ℕ
inodes_per_block = 8

abbrev pub bits_per_block : ℕ
bits_per_block = 4096

-- BBLOCK: the block with the bit of block `b`.
abbrev pub bitmap_block : (b ninodes : ℕ) → ℕ
bitmap_block b ninodes = b / bits_per_block + ninodes / inodes_per_block + 3

-- Whether `x & (1 << k)` is not 0.
unfoldable pub bit : ℕ → ℕ → Bool
bit x zero = x % 2 == 1
bit x (suc k) = bit (x / 2) k

-- `x | (1 << k)` for `v` 1, and `x & ~(1 << k)` for `v` 0.
unfoldable pub set_bit : (v x k : ℕ) → ℕ
set_bit v x zero = x / 2 * 2 + v
set_bit v x (suc k) = x % 2 + 2 * set_bit v (x / 2) k

-- Bit `bi` of the bitmap in a block: `data[bi/8] & m`, and the write to it.
unfoldable pub block_bit : Block → ℕ → Bool
unfolding bit
block_bit d bi = bit (get_or d (bi / 8) 0) (bi % 8)

unfoldable pub mark : (v bi : ℕ) → Block → Block
unfolding set_bit
mark v bi d = set d (bi / 8) (set_bit v (get_or d (bi / 8) 0) (bi % 8))

unfoldable pub parse_super : Block → Superblock
unfolding word_at
parse_super d = record { size = word_at d 0; nblocks = word_at d 1; ninodes = word_at d 2 }

unfoldable pub readsb : M Superblock
unfolding bread parse_super
readsb = do d ← bread 1; pure (parse_super d)

abbrev pub zero_block : Block
zero_block = replicate block_size 0

unfoldable pub bzero : ℕ → M (Unit {0})
unfolding change bwrite
bzero b = do change b (λ d. zero_block); bwrite b

-- The loop over the bits of a block.
unfoldable pub find_clear : (fuel bi : ℕ) → Block → Option ℕ
unfolding block_bit
find_clear zero bi d = none
find_clear (suc fuel) bi d =
    let rest = find_clear fuel (bi + 1) d in if block_bit d bi then rest else some bi

-- The change of a bit, up to its `bwrite`.
unfoldable pub write_mark : (v bi a : ℕ) → M (Unit {0})
unfolding change mark bwrite
write_mark v bi a = do change a (mark v bi); bwrite a

-- A block is taken by the bit found, or the loop goes on.
unfoldable pub take_clear : M ℕ → ℕ → Superblock → Option ℕ → M ℕ
unfolding write_mark
take_clear more b sb none = more
take_clear more b sb (some bi) = write_mark 1 bi (bitmap_block b sb.ninodes) >> pure (b + bi)

-- The body of the loop over the blocks of the bitmap, and the loop.
unfoldable pub search_block : M ℕ → ℕ → Superblock → M ℕ
unfolding bread find_clear take_clear
search_block more b sb =
    bread (bitmap_block b sb.ninodes) >>= λ d. take_clear more b sb (find_clear bits_per_block 0 d)

unfoldable pub balloc_from : (fuel b : ℕ) → Superblock → M ℕ
unfolding search_block
balloc_from zero b sb = fault
balloc_from (suc fuel) b sb =
    let more = balloc_from fuel (b + bits_per_block) sb in
    if ltb b sb.size then search_block more b sb else fault

-- A round passes at least one block, so `size` rounds are enough.
unfoldable pub balloc : M ℕ
unfolding readsb balloc_from
balloc = do sb ← readsb; balloc_from sb.size 0 sb

-- The part of `bfree` past the superblock.
unfoldable pub release_bit : ℕ → Superblock → M (Unit {0})
unfolding bread write_mark block_bit
release_bit b sb = bread (bitmap_block b sb.ninodes) >>= λ d.
    if block_bit d (b % bits_per_block)
    then write_mark 0 (b % bits_per_block) (bitmap_block b sb.ninodes)
    else fault

unfoldable pub bfree : ℕ → M (Unit {0})
unfolding bzero readsb release_bit
bfree b = do bzero b; sb ← readsb; release_bit b sb
