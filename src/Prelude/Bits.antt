-- ===== src/Prelude/Bits.antt =====
-- `bit_or` at variables: with one, and of two words whose bits do not meet.
use Prim.Native.Nat.{
  ℕ, zero, suc, ◌+◌, ◌*◌, ◌/◌, ◌%◌, ◌≤◌, ◌<◌, max, bit_or, digits, bit_or-bitwise,
}
use mathlib.Core.Path.{◌≡◌, refl, sym, ap, ◌∙◌}
use native.Mathlib.Omega.{arith}

abbrev or_digits : ℕ → ℕ → ℕ → ℕ
or_digits n a b = digits (λ b. b) max n a b

or_digits_fuel : (n m a b : ℕ) → a ≤ n → a ≤ m → or_digits n a b ≡ or_digits m a b
or_digits_fuel zero zero a b p q = refl
or_digits_fuel zero (suc m) zero b p q = refl
or_digits_fuel zero (suc m) (suc a) b p q = absurd (omega arith)
or_digits_fuel (suc n) zero zero b p q = refl
or_digits_fuel (suc n) zero (suc a) b p q = absurd (omega arith)
or_digits_fuel (suc n) (suc m) zero b p q = refl
or_digits_fuel (suc n) (suc m) (suc a) b p q =
    omega (arith, or_digits_fuel n m (suc a / 2) (b / 2) (omega arith) (omega arith))

zero-bit_or : (b : ℕ) → bit_or 0 b ≡ b
zero-bit_or b = bit_or-bitwise 0 b

pub bit_or_step : (a b : ℕ) → bit_or a b ≡ bit_or (a / 2) (b / 2) * 2 + max (a % 2) (b % 2)
bit_or_step zero b = omega (arith, zero-bit_or b, zero-bit_or (b / 2))
bit_or_step (suc a) b = omega (
  arith,
  bit_or-bitwise (suc a) b,
  bit_or-bitwise (suc a / 2) (b / 2),
  or_digits_fuel a (suc a / 2) (suc a / 2) (b / 2) (omega arith) (omega arith),
)

bit_or-zero_fuel : (n a : ℕ) → a ≤ n → bit_or a 0 ≡ a
bit_or-zero_fuel n zero h = refl
bit_or-zero_fuel zero (suc a) h = absurd (omega arith)
bit_or-zero_fuel (suc n) (suc a) h =
    omega (arith, bit_or_step (suc a) 0, bit_or-zero_fuel n (suc a / 2) (omega arith))

pub bit_or-zero : (a : ℕ) → bit_or a 0 ≡ a
bit_or-zero a = bit_or-zero_fuel a a (omega arith)

pub bit_or-one : (a : ℕ) → bit_or a 1 ≡ a / 2 * 2 + 1
bit_or-one a = omega (arith, bit_or_step a 1, bit_or-zero (a / 2))

abbrev pow2 : ℕ → ℕ
pow2 zero = 1
pow2 (suc n) = 2 * pow2 n

double_out : (q p : ℕ) → q * (2 * p) ≡ 2 * (q * p)
double_out q p = grind arith

or_add_step : (k b : ℕ) → bit_or k (b / 2) ≡ k + b / 2 → bit_or (2 * k) b ≡ 2 * k + b
or_add_step k b e =
    bit_or_step (2 * k) b
    ∙ (ap (λ j. bit_or j (b / 2) * 2 + max (2 * k % 2) (b % 2)) (half k)
        ∙ rest k (bit_or k (b / 2)) e)
  where
    half : (k : ℕ) → 2 * k / 2 ≡ k
    half k = omega arith

    rest : (k x : ℕ) → x ≡ k + b / 2 → x * 2 + max (2 * k % 2) (b % 2) ≡ 2 * k + b
    rest k x e = omega (arith, e)

or_add : (n q b : ℕ) → b < pow2 n → bit_or (q * pow2 n) b ≡ q * pow2 n + b
or_add zero q zero h = omega (arith, bit_or-zero (q * 1))
or_add zero q (suc b) h = absurd (omega arith)
or_add (suc n) q b h =
    rw (double_out q (pow2 n)) (or_add_step (q * pow2 n) b (or_add n q (b / 2) (omega arith)))

-- An address of a page and flags in its lowest twelve bits.
pub bit_or-page : (a b : ℕ) → a % 4096 ≡ 0 → b < 4096 → bit_or a b ≡ a + b
bit_or-page a b e h =
    ap (λ x. bit_or x b) (whole a e)
    ∙ (or_add 12 (a / 4096) b h ∙ ap (λ x. x + b) (sym (whole a e)))
  where
    whole : (a : ℕ) → a % 4096 ≡ 0 → a ≡ a / 4096 * 4096
    whole a e = omega (arith, e)
