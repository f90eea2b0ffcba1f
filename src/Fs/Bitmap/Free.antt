-- ===== src/Fs/Bitmap/Free.antt =====
-- `bfree`, and `bfree` after `balloc`: kernel/fs.c of "triple file system".
use native.Mathlib.Decide.{ℕ_discrete}
use operation_system_project.Prelude.{
  ℕ, Returns, returns, inl, inr, ◌%◌, ◌≡◌, ◌≢◌, ◌<◌, refl, sym, subst, ap, ◌∙◌, true, false,
  Bool-cases, if◌then◌else◌, length, length-replicate, Result, ok, panic, arith,
}
use operation_system_project.Fs.{Block, Fs, ◌>>=◌, block_size, bread, change, bwrite, fault}
use operation_system_project.Fs.Mirror.{put, eq_self, after}
use operation_system_project.Fs.Bitmap.{
  Superblock, balloc, bits_per_block, bitmap_block, block_bit, zero_block, readsb, parse_super,
  bzero, write_mark, release_bit, bfree,
}
use operation_system_project.Fs.Bitmap.Search.{balloc-Allocated}
use operation_system_project.Fs.Bitmap.Alloc.{
  Allocated, allocated, super, in_use, IsSized, IsMarked, update_other, update_self, write_mark-put,
  put_mark, put_mark-IsMarked,
}

-- Every buffer holds what is on the disk.
abbrev pub IsSynced : Fs → Type 0
IsSynced s = (c : ℕ) → s.disk c ≡ s.cached c

pub IsSynced-put : (s : Fs) (b : ℕ) (d : Block) → IsSynced s → IsSynced (put s b d)
IsSynced-put s b d h c = elim (ℕ_discrete c b) [
  | yes e ↦ rw (e, eq_self b)
  | no ne ↦ update_other s.disk b d c ne ∙ (h c ∙ sym (update_other s.cached b d c ne))
]

-- Block `b` is zero and its bit is clear, in the buffers and on the disk. The bits of the other
-- blocks are as they were, but for those that `b` itself holds, and so are all other blocks.
pub record IsFreed (n : ℕ) (s s' : Fs) (b : ℕ) : Type 0 where
  pub unused : in_use n s' b ≡ false
  pub zeroed : s'.cached b ≡ zero_block
  pub others : (c : ℕ) → c ≢ b → bitmap_block c n ≢ b → in_use n s' c ≡ in_use n s c
  pub blocks : (k : ℕ) → k ≢ b → k ≢ bitmap_block b n → s'.cached k ≡ s.cached k
  pub written : s'.disk (bitmap_block b n) ≡ s'.cached (bitmap_block b n)
  pub sized : IsSized s'
  pub inode : s'.inode ≡ s.inode
  pub synced : IsSynced s → IsSynced s'

-- What `bfree` comes to.
pub data Freed (n : ℕ) (s : Fs) (b : ℕ) : Result (Unit {0} × Fs) → Type 0 where
  not_in_use : in_use n s b ≡ false → Freed n s b panic
  freed : {s' : Fs} → in_use n s b ≡ true → IsFreed n s s' b → Freed n s b (ok (tt, s'))

-- The state after `bzero`.
abbrev put_zero : ℕ → Fs → Fs
put_zero b s = put s b zero_block

bzero-put : (b : ℕ) (s : Fs) → bzero b s ≡ ok (tt, put_zero b s)
unfolding bzero change bwrite
bzero-put b s = rw (eq_self b)

bfree-release_bit : (b : ℕ) (s : Fs) → b ≢ 1 → bfree b s ≡ release_bit b (super s) (put_zero b s)
unfolding bfree readsb bread
bfree-release_bit b s ne =
    after (λ u. readsb >>= λ sb. release_bit b sb) (bzero-put b s)
      (ap (λ d. release_bit b (parse_super d) (put_zero b s))
        (update_other s.cached b zero_block 1 (λ e. ne (sym e))))

put_zero-IsSized : (b : ℕ) (s : Fs) → IsSized s → IsSized (put_zero b s)
put_zero-IsSized b s sized c = elim (ℕ_discrete c b) [
  | yes e ↦ rw (e, eq_self b) (length-replicate {A = ℕ} block_size 0)
  | no ne ↦ ap (length {A = ℕ}) (update_other s.cached b zero_block c ne) ∙ sized c
]

in_use-put_zero :
    (n b : ℕ) (s : Fs) (c : ℕ) → bitmap_block c n ≢ b → in_use n (put_zero b s) c ≡ in_use n s c
in_use-put_zero n b s c ne =
    ap (λ d. block_bit d (c % bits_per_block))
      (update_other s.cached b zero_block (bitmap_block c n) ne)

module _ (n b : ℕ) (s : Fs) (sized : IsSized s) (apart : bitmap_block b n ≢ b) where
  put_mark-IsFreed : IsFreed n s (put_mark n 0 b (put_zero b s)) b
  put_mark-IsFreed =
      let t = put_zero b s in
      let m = put_mark-IsMarked n 0 b t (put_zero-IsSized b s sized) (omega arith) in
      record {
        unused = m.marked;
        zeroed = m.blocks b (λ e. apart (sym e)) ∙ update_self s.cached b zero_block;
        others = λ c ne off. m.others c ne ∙ in_use-put_zero n b s c off;
        blocks = λ k ne off. m.blocks k off ∙ update_other s.cached b zero_block k ne;
        written = m.written;
        sized = λ k. m.lengths k ∙ put_zero-IsSized b s sized k;
        inode = m.inode;
        synced = λ h. IsSynced-put t (bitmap_block b n) _ (IsSynced-put s b zero_block h);
      }

release_bit-set :
    (b : ℕ) (sb : Superblock) (s : Fs)
    → in_use sb.ninodes s b ≡ true
    → release_bit b sb s ≡ ok (tt, put_mark sb.ninodes 0 b s)
unfolding release_bit bread
release_bit-set b sb s e =
    ap (λ t. (if t then write_mark 0 (b % bits_per_block) (bitmap_block b sb.ninodes) else fault) s)
      e
    ∙ write_mark-put 0 (b % bits_per_block) (bitmap_block b sb.ninodes) s

release_bit-clear :
    (b : ℕ) (sb : Superblock) (s : Fs) → in_use sb.ninodes s b ≡ false → release_bit b sb s ≡ panic
unfolding release_bit bread
release_bit-clear b sb s e =
    ap (λ t. (if t then write_mark 0 (b % bits_per_block) (bitmap_block b sb.ninodes) else fault) s)
      e

release_bit-Freed :
    (sb : Superblock) (s : Fs) (b : ℕ)
    → IsSized s
    → bitmap_block b sb.ninodes ≢ b
    → Freed sb.ninodes s b (release_bit b sb (put_zero b s))
release_bit-Freed sb s b sized apart = elim (Bool-cases (in_use sb.ninodes s b)) [
  | inl e ↦
      subst (λ r. Freed sb.ninodes s b r)
        (sym (release_bit-set b sb (put_zero b s) (in_use-put_zero sb.ninodes b s b apart ∙ e)))
        (freed e (put_mark-IsFreed sb.ninodes b s sized apart))
  | inr e ↦
      subst (λ r. Freed sb.ninodes s b r)
        (sym (release_bit-clear b sb (put_zero b s) (in_use-put_zero sb.ninodes b s b apart ∙ e)))
        (not_in_use e)
]

-- `bfree` of a block that is neither the superblock nor the block of the bitmap with its own bit,
-- with blocks of the block size in the buffers, panics if the bit of the block is clear. If it is
-- set, the block is zeroed and its bit is cleared, in the buffer and on the disk; the bits of the
-- blocks whose part of the bitmap is elsewhere and the other blocks stay as they were.
pub bfree-Freed :
    (s : Fs) (b : ℕ)
    → IsSized s
    → b ≢ 1
    → bitmap_block b (super s).ninodes ≢ b
    → Freed (super s).ninodes s b (bfree b s)
bfree-Freed s b sized ne apart =
    subst (λ r. Freed (super s).ninodes s b r) (sym (bfree-release_bit b s ne))
      (release_bit-Freed (super s) s b sized apart)

-- The blocks behind the bitmap are those that files use.
abbrev pub IsData : Superblock → ℕ → Type 0
IsData sb a = (bitmap_block sb.size sb.ninodes < a) × (a < sb.size)

pub data_apart :
    (sb : Superblock) (a c : ℕ) → IsData sb a → c < sb.size → bitmap_block c sb.ninodes ≢ a
data_apart sb a c h small e = omega (arith, h.0, small, e)

pub not_super : (sb : Superblock) (a : ℕ) → IsData sb a → a ≢ 1
not_super sb a h e = omega (arith, h.0, e)

pub super_apart : (sb : Superblock) (a : ℕ) → 1 ≢ bitmap_block a sb.ninodes
super_apart sb a e = omega (arith, e)

module _ (sb : Superblock) (s s' : Fs) (a : ℕ) (data_block : IsData sb a) where
  -- The bits below the size are those of `s`.
  abbrev AsBefore : Unit {0} × Fs → Type 0
  AsBefore r = (c : ℕ) → c < sb.size → in_use sb.ninodes r.1 c ≡ in_use sb.ninodes s c

  Freed-AsBefore :
      {r : Result (Unit {0} × Fs)}
      → in_use sb.ninodes s a ≡ false
      → IsMarked sb.ninodes s s' a true
      → Freed sb.ninodes s' a r
      → Returns AsBefore r
  Freed-AsBefore e m (not_in_use e') = cc
  Freed-AsBefore e m (freed {s' = s''} e' f) = returns {a = (tt, s'')} bits
    where
      bits : AsBefore (tt, s'')
      bits c h = elim (ℕ_discrete c a) [
        | yes q ↦
            ap (in_use sb.ninodes s'') q ∙ (f.unused ∙ (sym e ∙ ap (in_use sb.ninodes s) (sym q)))
        | no ne ↦ f.others c ne (data_apart sb a c data_block h) ∙ m.others c ne
      ]

  bfree-AsBefore :
      IsSized s
      → super s ≡ sb
      → Allocated sb.ninodes sb.size s (ok (a, s'))
      → Returns AsBefore (bfree a s')
  bfree-AsBefore sized e (allocated a unused before m) = Freed-AsBefore unused m (
      subst (λ q. Freed q.ninodes s' a (bfree a s')) same
        (bfree-Freed s' a (λ k. m.lengths k ∙ sized k) (not_super sb a data_block)
          (subst (λ q. bitmap_block a q.ninodes ≢ a) (sym same)
            (data_apart sb a a data_block data_block.1))))
    where
      same : super s' ≡ sb
      same = ap parse_super (m.blocks 1 (super_apart sb a)) ∙ e

-- `bfree` of the data block that `balloc` has just returned returns, and then the bits of all
-- blocks below the size are what they were before `balloc`.
pub bfree-balloc :
    (s s' : Fs) (a : ℕ)
    → IsSized s
    → balloc s ≡ ok (a, s')
    → IsData (super s) a
    → Returns
        (λ r.
          (c : ℕ)
          → c < (super s).size
          → in_use (super s).ninodes r.1 c ≡ in_use (super s).ninodes s c)
        (bfree a s')
bfree-balloc s s' a sized e h =
    bfree-AsBefore (super s) s s' a h sized refl
      (subst (λ r. Allocated (super s).ninodes (super s).size s r) e (balloc-Allocated s sized))
