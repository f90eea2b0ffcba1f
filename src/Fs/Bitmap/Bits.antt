-- ===== src/Fs/Bitmap/Bits.antt =====
-- Bits of a byte and of a block after a write: kernel/fs.c of "triple file system".
use native.Mathlib.Decide.{ℕ_discrete}
use operation_system_project.Prelude.{
  ℕ, zero, suc, ◌+◌, ◌*◌, ◌/◌, ◌%◌, ◌≡◌, ◌≢◌, ◌<◌, refl, sym, ap, ◌∙◌, ◌==◌, get_or,
  get_or-set_self, get_or-set_ne, set, length, arith,
}
use operation_system_project.Fs.{Block}
use operation_system_project.Fs.Bitmap.{bit, set_bit, block_bit, mark}

low_kept : (x r : ℕ) → (x % 2 + 2 * r) % 2 ≡ x % 2
low_kept x r = omega arith

high_kept : (x r : ℕ) → (x % 2 + 2 * r) / 2 ≡ r
high_kept x r = omega arith

low_written : (x v : ℕ) → v < 2 → (x / 2 * 2 + v) % 2 ≡ v
low_written x v h = omega arith

rest_kept : (x v : ℕ) → v < 2 → (x / 2 * 2 + v) / 2 ≡ x / 2
rest_kept x v h = omega arith

bit-set_bit_self : (v x k : ℕ) → v < 2 → bit (set_bit v x k) k ≡ (v == 1)
unfolding bit set_bit
bit-set_bit_self v x zero h = rw (low_written x v h)
bit-set_bit_self v x (suc k) h =
    rw (high_kept x (set_bit v (x / 2) k)) (bit-set_bit_self v (x / 2) k h)

bit-set_bit_ne : (v x k j : ℕ) → v < 2 → k ≢ j → bit (set_bit v x k) j ≡ bit x j
unfolding bit set_bit
bit-set_bit_ne v x zero zero h ne = absurd (ne refl)
bit-set_bit_ne v x zero (suc j) h ne = rw (rest_kept x v h)
bit-set_bit_ne v x (suc k) zero h ne = rw (low_kept x (set_bit v (x / 2) k))
bit-set_bit_ne v x (suc k) (suc j) h ne =
    rw (high_kept x (set_bit v (x / 2) k)) (bit-set_bit_ne v (x / 2) k j h (λ e. ne (ap suc e)))

pub block_bit-mark_self :
    (v i : ℕ) (d : Block) → v < 2 → i / 8 < length d → block_bit (mark v i d) i ≡ (v == 1)
unfolding block_bit mark
block_bit-mark_self v i d h inside =
    rw (get_or-set_self d (i / 8) (set_bit v (get_or d (i / 8) 0) (i % 8)) 0 inside)
      (bit-set_bit_self v (get_or d (i / 8) 0) (i % 8) h)

same_byte : (i j : ℕ) → i / 8 ≡ j / 8 → i % 8 ≡ j % 8 → i ≡ j
same_byte i j e e' = omega arith

pub block_bit-mark_ne :
    (v i j : ℕ) (d : Block)
    → v < 2
    → i / 8 < length d
    → i ≢ j
    → block_bit (mark v i d) j ≡ block_bit d j
unfolding block_bit mark
block_bit-mark_ne v i j d h inside ne = elim (ℕ_discrete (i / 8) (j / 8)) [
  | yes e ↦
      ap (λ k. bit (get_or (set d (i / 8) (set_bit v (get_or d (i / 8) 0) (i % 8))) k 0) (j % 8))
        (sym e)
      ∙ (ap (λ x. bit x (j % 8))
            (get_or-set_self d (i / 8) (set_bit v (get_or d (i / 8) 0) (i % 8)) 0 inside)
          ∙ (bit-set_bit_ne v (get_or d (i / 8) 0) (i % 8) (j % 8) h (λ e'. ne (same_byte i j e e'))
              ∙ ap (λ k. bit (get_or d k 0) (j % 8)) e))
  | no apart ↦
      ap (λ x. bit x (j % 8))
        (get_or-set_ne d (i / 8) (j / 8) (set_bit v (get_or d (i / 8) 0) (i % 8)) 0 apart)
]
