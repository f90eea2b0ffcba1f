-- ===== src/Fs/Bitmap/Alloc.antt =====
-- The free block that `balloc` finds and marks, kernel/fs.c of "triple file system".
use native.Mathlib.Decide.{ℕ_discrete}
use operation_system_project.Prelude.{
  ℕ, ◌/◌, ◌%◌, ◌≡◌, ◌≢◌, ◌<◌, refl, sym, ap, ◌∙◌, Bool, true, false, ◌==◌, length, length-set,
  Result, ok, panic, arith,
}
use operation_system_project.Fs.{Block, Fs, update, block_size, change, bwrite}
use operation_system_project.Fs.Mirror.{put, eq_self}
use operation_system_project.Fs.Bitmap.{
  Superblock, bits_per_block, bitmap_block, block_bit, mark, parse_super, write_mark,
}
use operation_system_project.Fs.Bitmap.Bits.{block_bit-mark_self, block_bit-mark_ne}

abbrev pub super : Fs → Superblock
super s = parse_super (s.cached 1)

-- The bit of block `b`, in a bitmap behind `n` inodes.
abbrev pub in_use : ℕ → Fs → ℕ → Bool
in_use n s b = block_bit (s.cached (bitmap_block b n)) (b % bits_per_block)

abbrev pub IsSized : Fs → Type 0
IsSized s = (b : ℕ) → length (s.cached b) ≡ block_size

-- The bit of `a` is `v` and the blocks on the bitmap that hold it are written; all other bits and
-- blocks are as they were.
pub record IsMarked (n : ℕ) (s s' : Fs) (a : ℕ) (v : Bool) : Type 0 where
  pub marked : in_use n s' a ≡ v
  pub others : (c : ℕ) → c ≢ a → in_use n s' c ≡ in_use n s c
  pub blocks : (k : ℕ) → k ≢ bitmap_block a n → s'.cached k ≡ s.cached k
  pub written : s'.disk (bitmap_block a n) ≡ s'.cached (bitmap_block a n)
  pub disk : (k : ℕ) → k ≢ bitmap_block a n → s'.disk k ≡ s.disk k
  pub lengths : (k : ℕ) → length (s'.cached k) ≡ length (s.cached k)
  pub inode : s'.inode ≡ s.inode

-- What `balloc` may come to.
pub data Allocated (n size : ℕ) (s : Fs) : Result (ℕ × Fs) → Type 0 where
  no_block : ((c : ℕ) → c < size → in_use n s c ≡ true) → Allocated n size s panic
  allocated :
      (a : ℕ) {s' : Fs}
      → in_use n s a ≡ false
      → ((c : ℕ) → c < a → in_use n s c ≡ true)
      → IsMarked n s s' a true
      → Allocated n size s (ok (a, s'))

pub write_mark-put :
    (v bi a : ℕ) (s : Fs) → write_mark v bi a s ≡ ok (tt, put s a (mark v bi (s.cached a)))
unfolding write_mark change bwrite
write_mark-put v bi a s = rw (eq_self a)

pub update_self : (f : ℕ → Block) (a : ℕ) (d : Block) → update f a d a ≡ d
update_self f a d = rw (eq_self a)

pub update_other : (f : ℕ → Block) (a : ℕ) (d : Block) (k : ℕ) → k ≢ a → update f a d k ≡ f k
update_other f a d k ne = ground arith

in_byte : (a : ℕ) (d : Block) → length d ≡ block_size → a % bits_per_block / 8 < length d
in_byte a d e = omega (arith, e)

same_bit :
    (a c n : ℕ)
    → bitmap_block c n ≡ bitmap_block a n
    → a % bits_per_block ≡ c % bits_per_block
    → c ≡ a
same_bit a c n e e' = omega (arith, e, e')

-- The state after the bit of `a` is written.
abbrev pub put_mark : ℕ → ℕ → ℕ → Fs → Fs
put_mark n v a s =
    put s (bitmap_block a n) (mark v (a % bits_per_block) (s.cached (bitmap_block a n)))

length-mark : (v i : ℕ) (d : Block) → length (mark v i d) ≡ length d
unfolding mark
length-mark v i d = length-set d (i / 8) _

module _ (n v a : ℕ) (s : Fs) (sized : IsSized s) (h : v < 2) where
  put_mark-others : (c : ℕ) → c ≢ a → in_use n (put_mark n v a s) c ≡ in_use n s c
  put_mark-others c ne = elim (ℕ_discrete (bitmap_block c n) (bitmap_block a n)) [
    | yes e ↦
        rw (e, eq_self (bitmap_block a n))
          (block_bit-mark_ne v (a % bits_per_block) (c % bits_per_block)
            (s.cached (bitmap_block a n)) h
            (in_byte a (s.cached (bitmap_block a n)) (sized (bitmap_block a n)))
            (λ e'. ne (same_bit a c n e e')))
    | no apart ↦
        ap (λ d. block_bit d (c % bits_per_block))
          (update_other s.cached (bitmap_block a n) _ (bitmap_block c n) apart)
  ]

  put_mark-length : (k : ℕ) → length ((put_mark n v a s).cached k) ≡ length (s.cached k)
  put_mark-length k = elim (ℕ_discrete k (bitmap_block a n)) [
    | yes e ↦
        rw (e, eq_self (bitmap_block a n))
          (length-mark v (a % bits_per_block) (s.cached (bitmap_block a n)))
    | no ne ↦ ap (length {A = ℕ}) (update_other s.cached (bitmap_block a n) _ k ne)
  ]

  pub put_mark-IsMarked : IsMarked n s (put_mark n v a s) a (v == 1)
  put_mark-IsMarked = record {
    marked =
        ap (λ d. block_bit d (a % bits_per_block)) (update_self s.cached (bitmap_block a n) _)
        ∙ block_bit-mark_self v (a % bits_per_block) (s.cached (bitmap_block a n)) h
            (in_byte a (s.cached (bitmap_block a n)) (sized (bitmap_block a n)));
    others = put_mark-others;
    blocks = update_other s.cached (bitmap_block a n) _;
    written =
        update_self s.disk (bitmap_block a n) _ ∙ sym (update_self s.cached (bitmap_block a n) _);
    disk = update_other s.disk (bitmap_block a n) _;
    lengths = put_mark-length;
    inode = refl;
  }
