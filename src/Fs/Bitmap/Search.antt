-- ===== src/Fs/Bitmap/Search.antt =====
-- The search of `balloc` for a clear bit, kernel/fs.c of "triple file system".
use native.Mathlib.Decide.{ℕ_discrete}
use operation_system_project.Prelude.{
  ℕ, zero, suc, inl, inr, ◌+◌, ◌-◌, ◌%◌, ◌≡◌, ◌≤◌, ◌<◌, refl, sym, subst, ap, ◌∙◌, true, false,
  Bool-cases, Option, none, some, ltb, ltb→lt, if◌then◌else◌, ok, panic, arith,
}
use operation_system_project.Fs.{Block, Fs, M, pure, fault, bread}
use operation_system_project.Fs.Mirror.{after}
use operation_system_project.Fs.Bitmap.{
  Superblock, bits_per_block, bitmap_block, block_bit, readsb, find_clear, take_clear, search_block,
  balloc_from, balloc,
}
use operation_system_project.Fs.Bitmap.Alloc.{
  super, in_use, IsSized, Allocated, no_block, allocated, write_mark-put, put_mark,
  put_mark-IsMarked,
}

-- What the loop over the bits of a block may come to.
data Found (d : Block) (bi bound : ℕ) : Option ℕ → Type 0 where
  all_set : ((i : ℕ) → bi ≤ i → i < bound → block_bit d i ≡ true) → Found d bi bound none
  clear :
      (i : ℕ)
      → i < bound
      → block_bit d i ≡ false
      → ((j : ℕ) → bi ≤ j → j < i → block_bit d j ≡ true)
      → Found d bi bound (some i)

step_bits :
    (d : Block) (bi : ℕ) {bound : ℕ}
    → block_bit d bi ≡ true
    → (i : ℕ) → ((j : ℕ) → bi + 1 ≤ j → j < bound → block_bit d j ≡ true)
    → bi ≤ i
    → i < bound
    → block_bit d i ≡ true
step_bits d bi here i rest low high = elim (ℕ_discrete bi i) [
  | yes e ↦ ap (block_bit d) (sym e) ∙ here
  | no ne ↦ rest i (omega (arith, ne)) high
]

Found-step :
    {d : Block} {bi bound : ℕ} {r : Option ℕ}
    → block_bit d bi ≡ true
    → Found d (bi + 1) bound r
    → Found d bi bound r
Found-step here (all_set h) = all_set (λ i low high. step_bits _ _ here i h low high)
Found-step here (clear i inside e h) =
    clear i inside e (λ j low high. step_bits _ _ here j h low high)

find_clear-Found :
    (fuel bi bound : ℕ) (d : Block) → bound ≡ bi + fuel → Found d bi bound (find_clear fuel bi d)
unfolding find_clear
find_clear-Found zero bi bound d e = all_set (λ i low high. absurd (omega (arith, low, high, e)))
find_clear-Found (suc fuel) bi bound d e = elim (Bool-cases (block_bit d bi)) [
  | inl h ↦ rw h (Found-step h (find_clear-Found fuel (bi + 1) bound d (omega (arith, e))))
  | inr h ↦ rw h (clear bi (omega (arith, e)) h (λ j low high. absurd (omega (arith, low, high))))
]

round_block :
    (b i n : ℕ)
    → b % bits_per_block ≡ 0
    → i < bits_per_block
    → bitmap_block (b + i) n ≡ bitmap_block b n
round_block b i n whole h = omega (arith, whole, h)

round_bit : (b i : ℕ) → b % bits_per_block ≡ 0 → i < bits_per_block → (b + i) % bits_per_block ≡ i
round_bit b i whole h = omega (arith, whole, h)

in_use-round :
    (n : ℕ) (s : Fs) (b i : ℕ)
    → b % bits_per_block ≡ 0
    → i < bits_per_block
    → in_use n s (b + i) ≡ block_bit (s.cached (bitmap_block b n)) i
in_use-round n s b i whole h = rw (round_block b i n whole h, round_bit b i whole h)

module _ (sb : Superblock) (s : Fs) (sized : IsSized s) (b : ℕ) where
  -- With the blocks before `b` and the first `k` bits of its bitmap block, those before `b + k`.
  in_use_up_to :
      (k : ℕ)
      → b % bits_per_block ≡ 0
      → k ≤ bits_per_block
      → ((c : ℕ) → c < b → in_use sb.ninodes s c ≡ true)
      → ((i : ℕ) → 0 ≤ i → i < k → block_bit (s.cached (bitmap_block b sb.ninodes)) i ≡ true)
      → (c : ℕ) → c < b + k
      → in_use sb.ninodes s c ≡ true
  in_use_up_to k whole small before bits c h = elim (Bool-cases (ltb c b)) [
    | inl e ↦ before c (ltb→lt c b e)
    | inr e ↦ rw (split c b e) (
        in_use-round sb.ninodes s b (c - b) whole (bound c b k h small e)
        ∙ bits (c - b) (omega arith) (inside c b k h e))
  ]
    where
      split : (c b : ℕ) → ltb c b ≡ false → c ≡ b + (c - b)
      split c b e = ground arith

      bound :
          (c b k : ℕ) → c < b + k → k ≤ bits_per_block → ltb c b ≡ false → c - b < bits_per_block
      bound c b k h h' e = ground arith

      inside : (c b k : ℕ) → c < b + k → ltb c b ≡ false → c - b < k
      inside c b k h e = ground arith

  take_clear-none : (more : M ℕ) → take_clear more b sb none s ≡ more s
  unfolding take_clear
  take_clear-none more = refl

  take_clear-some :
      (more : M ℕ) (i : ℕ)
      → b % bits_per_block ≡ 0
      → i < bits_per_block
      → take_clear more b sb (some i) s ≡ ok (b + i, put_mark sb.ninodes 1 (b + i) s)
  unfolding take_clear
  take_clear-some more i whole h =
      after (λ u. pure (b + i)) (write_mark-put 1 i (bitmap_block b sb.ninodes) s)
        (rw (round_block b i sb.ninodes whole h, round_bit b i whole h) refl)

  take_clear-Allocated :
      (more : M ℕ) {r : Option ℕ}
      → b % bits_per_block ≡ 0
      → ((c : ℕ) → c < b → in_use sb.ninodes s c ≡ true)
      → Found (s.cached (bitmap_block b sb.ninodes)) 0 bits_per_block r
      → (((c : ℕ) → c < b + bits_per_block → in_use sb.ninodes s c ≡ true)
          → Allocated sb.ninodes sb.size s (more s))
      → Allocated sb.ninodes sb.size s (take_clear more b sb r s)
  take_clear-Allocated more whole before (all_set bits) next =
      subst (λ r. Allocated sb.ninodes sb.size s r) (sym (take_clear-none more))
        (next (in_use_up_to bits_per_block whole (omega arith) before bits))
  take_clear-Allocated more whole before (clear i h e bits) next =
      subst (λ r. Allocated sb.ninodes sb.size s r) (sym (take_clear-some more i whole h))
        (allocated (b + i) (in_use-round sb.ninodes s b i whole h ∙ e)
          (in_use_up_to i whole (omega (arith, h)) before bits)
          (put_mark-IsMarked sb.ninodes 1 (b + i) s sized (omega arith)))

  search_block-Allocated :
      (more : M ℕ)
      → b % bits_per_block ≡ 0
      → ((c : ℕ) → c < b → in_use sb.ninodes s c ≡ true)
      → (((c : ℕ) → c < b + bits_per_block → in_use sb.ninodes s c ≡ true)
          → Allocated sb.ninodes sb.size s (more s))
      → Allocated sb.ninodes sb.size s (search_block more b sb s)
  unfolding search_block bread
  search_block-Allocated more whole before =
      take_clear-Allocated more whole before (
        find_clear-Found bits_per_block 0 bits_per_block (s.cached (bitmap_block b sb.ninodes))
          refl)

balloc_from-next :
    (sb : Superblock) (s : Fs) (fuel b : ℕ)
    → ltb b sb.size ≡ true
    → balloc_from (suc fuel) b sb s ≡ search_block (balloc_from fuel (b + bits_per_block) sb) b sb s
unfolding balloc_from
balloc_from-next sb s fuel b e =
    ap (λ t. (if t then search_block (balloc_from fuel (b + bits_per_block) sb) b sb else fault) s)
      e

balloc_from-end :
    (sb : Superblock) (s : Fs) (fuel b : ℕ)
    → ltb b sb.size ≡ false
    → balloc_from fuel b sb s ≡ panic
unfolding balloc_from
balloc_from-end sb s zero b e = refl
balloc_from-end sb s (suc fuel) b e =
    ap (λ t. (if t then search_block (balloc_from fuel (b + bits_per_block) sb) b sb else fault) s)
      e

balloc_from-Allocated :
    (sb : Superblock) (s : Fs)
    → IsSized s
    → (fuel b : ℕ) → b % bits_per_block ≡ 0
    → ((c : ℕ) → c < b → in_use sb.ninodes s c ≡ true)
    → sb.size ≤ b + fuel
    → Allocated sb.ninodes sb.size s (balloc_from fuel b sb s)
balloc_from-Allocated sb s sized zero b whole before enough =
    subst (λ r. Allocated sb.ninodes sb.size s r)
      (sym (balloc_from-end sb s zero b (past b sb.size enough)))
      (no_block (λ c h. before c (omega (arith, h, enough))))
  where
    past : (b size : ℕ) → size ≤ b + 0 → ltb b size ≡ false
    past b size h = ground arith
balloc_from-Allocated sb s sized (suc fuel) b whole before enough =
    elim (Bool-cases (ltb b sb.size)) [
      | inl e ↦
          subst (λ r. Allocated sb.ninodes sb.size s r) (sym (balloc_from-next sb s fuel b e))
            (search_block-Allocated sb s sized b (balloc_from fuel (b + bits_per_block) sb) whole
              before
              (λ before'.
                balloc_from-Allocated sb s sized fuel (b + bits_per_block) (next_whole b whole)
                  before' (omega (arith, enough))))
      | inr e ↦
          subst (λ r. Allocated sb.ninodes sb.size s r) (sym (balloc_from-end sb s (suc fuel) b e))
            (no_block (λ c h. before c (below c b sb.size h e)))
    ]
  where
    next_whole : (b : ℕ) → b % bits_per_block ≡ 0 → (b + bits_per_block) % bits_per_block ≡ 0
    next_whole b h = omega (arith, h)

    below : (c b size : ℕ) → c < size → ltb b size ≡ false → c < b
    below c b size h e = ground arith

-- `balloc`, with blocks of the block size in the buffers, returns the first block whose bit is
-- clear and sets that bit in the buffer and on the disk, and changes nothing else; if it panics,
-- the bits of all blocks below the size are set. The block may lie past the size, in the last
-- block of the bitmap.
pub balloc-Allocated :
    (s : Fs) → IsSized s → Allocated (super s).ninodes (super s).size s (balloc s)
unfolding balloc readsb bread
balloc-Allocated s sized =
    balloc_from-Allocated (super s) s sized (super s).size 0 refl (λ c h. absurd (omega (arith, h)))
      (omega arith)
