-- ===== src/Ulib/Numerals.antt =====
-- The numerals that `printint` writes, and `atoi` on them: user/printf.c and user/ulib.c of "triple file
-- system".
use operation_system_project.Prelude.{
  ℕ, zero, suc, ◌+◌, ◌-◌, ◌*◌, ◌/◌, ◌%◌, ◌^◌, ◌≡◌, ◌<◌, inl, inr, refl, sym, ap, ◌∙◌, Bool, true,
  false, ◌&&◌, List, [], ◌∷◌, ◌++◌, leb, ◌==◌, if◌then◌else◌, Bool-cases, arith,
}
use operation_system_project.Ulib.{is_digit, atoi_from, atoi}
use operation_system_project.Ulib.Printf.{digit, digits_from, printint}

pow_suc : (n : ℕ) → 2 ^ suc n ≡ 2 * 2 ^ n
pow_suc n = omega arith

-- The first byte is no digit.
abbrev pub StopsNumeral : List ℕ → Type 0
StopsNumeral [] = Unit
StopsNumeral (c ∷ cs) = is_digit c ≡ false

decimal_digit : (x : ℕ) → is_digit (digit (x % 10)) ≡ true
decimal_digit x = ground arith

decimal_step : (x : ℕ) → x < 2 ^ 32 → (x / 10 * 10 + digit (x % 10) - 48) % 2 ^ 32 ≡ x
decimal_step x h = ground arith

first_step : (x : ℕ) → x / 10 ≡ 0 → (0 * 10 + digit (x % 10) - 48) % 2 ^ 32 ≡ x
first_step x h = ground arith

atoi_from-digit :
    (c n : ℕ) (cs : List ℕ)
    → is_digit c ≡ true
    → atoi_from (c ∷ cs) n ≡ atoi_from cs ((n * 10 + c - 48) % 2 ^ 32)
unfolding atoi_from
atoi_from-digit c n cs h = ap (λ t. if t then atoi_from cs ((n * 10 + c - 48) % 2 ^ 32) else n) h

pub digits_from-last :
    (fuel base x : ℕ) (buf : List ℕ)
    → (x / base == 0) ≡ true
    → digits_from (suc fuel) base x buf ≡ digit (x % base) ∷ buf
unfolding digits_from
digits_from-last fuel base x buf h =
    ap
      (λ t.
        if t
        then digit (x % base) ∷ buf
        else digits_from fuel base (x / base) (digit (x % base) ∷ buf))
      h

pub digits_from-more :
    (fuel base x : ℕ) (buf : List ℕ)
    → (x / base == 0) ≡ false
    → digits_from (suc fuel) base x buf ≡ digits_from fuel base (x / base) (digit (x % base) ∷ buf)
unfolding digits_from
digits_from-more fuel base x buf h =
    ap
      (λ t.
        if t
        then digit (x % base) ∷ buf
        else digits_from fuel base (x / base) (digit (x % base) ∷ buf))
      h

pub is_zero : (n : ℕ) → (n == 0) ≡ true → n ≡ 0
is_zero n h = ground arith

pub shrinks : (x n : ℕ) → x < 2 ^ suc n → x / 10 < 2 ^ n
shrinks x n h = omega (arith, h, pow_suc n)

-- After the digits of `x`, the loop of `atoi` has read `x`.
atoi_from-digits_from :
    (fuel x : ℕ) (buf : List ℕ)
    → x < 2 ^ fuel
    → x < 2 ^ 32
    → atoi_from (digits_from fuel 10 x buf) 0 ≡ atoi_from buf x
unfolding digits_from
atoi_from-digits_from zero x buf h h' = ap (atoi_from buf) (omega (arith, h))
atoi_from-digits_from (suc fuel) x buf h h' = elim (Bool-cases (x / 10 == 0)) [
  | inl e ↦
      ap (λ s. atoi_from s 0) (digits_from-last fuel 10 x buf e)
      ∙ (atoi_from-digit _ 0 buf (decimal_digit x)
          ∙ ap (atoi_from buf) (first_step x (is_zero (x / 10) e)))
  | inr e ↦
      ap (λ s. atoi_from s 0) (digits_from-more fuel 10 x buf e)
      ∙ (atoi_from-digits_from fuel (x / 10) (digit (x % 10) ∷ buf) (shrinks x fuel h)
            (omega (arith, h'))
          ∙ (atoi_from-digit _ (x / 10) buf (decimal_digit x)
              ∙ ap (atoi_from buf) (decimal_step x h')))
]

digits_from-append :
    (fuel base x : ℕ) (buf t : List ℕ)
    → digits_from fuel base x buf ++ t ≡ digits_from fuel base x (buf ++ t)
unfolding digits_from
digits_from-append zero base x buf t = refl
digits_from-append (suc fuel) base x buf t = elim (Bool-cases (x / base == 0)) [
  | inl e ↦
      ap (λ s. s ++ t) (digits_from-last fuel base x buf e)
      ∙ sym (digits_from-last fuel base x (buf ++ t) e)
  | inr e ↦
      ap (λ s. s ++ t) (digits_from-more fuel base x buf e)
      ∙ (digits_from-append fuel base (x / base) (digit (x % base) ∷ buf) t
          ∙ sym (digits_from-more fuel base x (buf ++ t) e))
]

atoi_from-stops : (t : List ℕ) (n : ℕ) → StopsNumeral t → atoi_from t n ≡ n
unfolding atoi_from
atoi_from-stops [] n h = refl
atoi_from-stops (c ∷ cs) n h =
    ap (λ t. if t then atoi_from cs ((n * 10 + c - 48) % 2 ^ 32) else n) h

not_negative : (x : ℕ) (sgn : Bool) → x < 2 ^ 31 → (sgn && leb (2 ^ 31) x) ≡ false
not_negative x true h = ground arith
not_negative x false h = refl

printint-plain :
    (x base : ℕ) (sgn : Bool) → x < 2 ^ 31 → printint x base sgn ≡ digits_from 32 base x []
unfolding printint
printint-plain x base sgn h =
    ap (λ t. if t then 45 ∷ digits_from 32 base (2 ^ 32 - x) [] else digits_from 32 base x [])
      (not_negative x sgn h)

-- `atoi` reads back every `int` that is not negative and that `printint` writes in base 10, whatever
-- follows it that is not a digit.
pub atoi-printint :
    (x : ℕ) (sgn : Bool) (t : List ℕ)
    → x < 2 ^ 31
    → StopsNumeral t
    → atoi (printint x 10 sgn ++ t) ≡ x
unfolding atoi
atoi-printint x sgn t h stops =
    ap (λ s. atoi_from (s ++ t) 0) (printint-plain x 10 sgn h)
    ∙ (ap (λ s. atoi_from s 0) (digits_from-append 32 10 x [] t)
        ∙ (atoi_from-digits_from 32 x t (omega (arith, h)) (omega (arith, h))
            ∙ atoi_from-stops t x stops))
