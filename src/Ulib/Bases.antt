-- ===== src/Ulib/Bases.antt =====
-- The numerals of `printint` in the bases that `printf` uses: user/printf.c of "triple file system".
use native.Mathlib.Omega.{pow_step}
use operation_system_project.Prelude.{
  ℕ, zero, suc, ◌+◌, ◌-◌, ◌*◌, ◌/◌, ◌%◌, ◌^◌, ◌≡◌, ◌≤◌, ◌<◌, ◌⊎◌, inl, inr, refl, sym, subst, ap,
  ◌∙◌, Bool, true, false, ◌&&◌, List, [], ◌∷◌, length, All, ltb, leb, ◌==◌, if◌then◌else◌,
  Bool-cases, arith,
}
use operation_system_project.Ulib.Printf.{digit, digits_from, printint}
use operation_system_project.Ulib.Numerals.{digits_from-last, digits_from-more, is_zero, shrinks}

abbrev digit_value : ℕ → ℕ
digit_value c = if ltb c 58 then c - 48 else c - 55

abbrev value_from : (base : ℕ) → List ℕ → (n : ℕ) → ℕ
value_from base [] n = n
value_from base (c ∷ cs) n = value_from base cs (n * base + digit_value c)

-- A numeral of `x` with at most ten digits.
pub record IsNumeral (base x : ℕ) (s : List ℕ) : Type 0 where
  pub digits : All (λ c. (d : ℕ) × ((d < base) × (c ≡ digit d))) s
  pub value : value_from base s 0 ≡ x
  pub some_digit : 0 < length s
  pub few : length s ≤ 10

-- The bases that `printf` calls `printint` with.
abbrev pub IsBase : ℕ → Type 0
IsBase base = (base ≡ 10) ⊎ (base ≡ 16)

digit_value-digit : (d : ℕ) → d < 16 → digit_value (digit d) ≡ d
digit_value-digit d h = ground arith

-- What the two bases share.
record Shares (base : ℕ) : Type 0 where
  small : (x : ℕ) → x % base < base
  below : base ≤ 16
  parts : (x : ℕ) → x / base * base + x % base ≡ x
  shorter : (x : ℕ) → x / base ≤ x / 10
  last : (x : ℕ) → x / base ≡ 0 → x % base ≡ x

IsBase-Shares : (base : ℕ) → IsBase base → Shares base
IsBase-Shares base (inl e) = subst Shares (sym e) (record {
  small = λ x. omega arith;
  below = omega arith;
  parts = λ x. omega arith;
  shorter = λ x. omega arith;
  last = λ x h. omega (arith, h);
})
IsBase-Shares base (inr e) = subst Shares (sym e) (record {
  small = λ x. omega arith;
  below = omega arith;
  parts = λ x. omega arith;
  shorter = λ x. omega arith;
  last = λ x h. omega (arith, h);
})

one_digit : (q x : ℕ) → x < 10 ^ suc 0 → q ≤ x / 10 → (q == 0) ≡ false → ⊥
one_digit q x h h' e = ground arith

tenth : (q x n : ℕ) → x < 10 ^ suc (suc n) → q ≤ x / 10 → q < 10 ^ suc n
tenth q x n h h' = omega (arith, h, h', pow_step 10 (suc n))

module _ {base : ℕ} (b : Shares base) where
  value_from-digit :
      (x n : ℕ) (s : List ℕ)
      → value_from base (digit (x % base) ∷ s) n ≡ value_from base s (n * base + x % base)
  value_from-digit x n s =
      ap (λ d. value_from base s (n * base + d))
        (digit_value-digit (x % base) (omega (arith, b.small x, b.below)))

  value_from-digits_from :
      (fuel x : ℕ) (s : List ℕ)
      → x < 2 ^ fuel
      → value_from base (digits_from fuel base x s) 0 ≡ value_from base s x
  unfolding digits_from
  value_from-digits_from zero x s h = ap (value_from base s) (omega (arith, h))
  value_from-digits_from (suc fuel) x s h = elim (Bool-cases (x / base == 0)) [
    | inl e ↦
        ap (λ s. value_from base s 0) (digits_from-last fuel base x s e)
        ∙ (value_from-digit x 0 s
            ∙ ap (value_from base s) (from_zero (x % base) ∙ b.last x (is_zero (x / base) e)))
    | inr e ↦
        ap (λ s. value_from base s 0) (digits_from-more fuel base x s e)
        ∙ (value_from-digits_from fuel (x / base) (digit (x % base) ∷ s) (fewer fuel h)
            ∙ (value_from-digit x (x / base) s ∙ ap (value_from base s) (b.parts x)))
  ]
    where
      from_zero : (n : ℕ) → 0 * base + n ≡ n
      from_zero n = omega arith

      fewer : {x : ℕ} (fuel : ℕ) → x < 2 ^ suc fuel → x / base < 2 ^ fuel
      fewer {x} fuel h = omega (arith, shrinks x fuel h, b.shorter x)

  digits_from-digits :
      (fuel x : ℕ) (s : List ℕ)
      → All (λ c. (d : ℕ) × ((d < base) × (c ≡ digit d))) s
      → All (λ c. (d : ℕ) × ((d < base) × (c ≡ digit d))) (digits_from fuel base x s)
  unfolding digits_from
  digits_from-digits zero x s h = h
  digits_from-digits (suc fuel) x s h = elim (Bool-cases (x / base == 0)) [
    | inl e ↦ rw (digits_from-last fuel base x s e) ((x % base, (b.small x, refl)), h)
    | inr e ↦
        rw (digits_from-more fuel base x s e)
          (digits_from-digits fuel (x / base) _ ((x % base, (b.small x, refl)), h))
  ]

  digits_from-many : (fuel x : ℕ) (s : List ℕ) → length s ≤ length (digits_from fuel base x s)
  unfolding digits_from
  digits_from-many zero x s = omega arith
  digits_from-many (suc fuel) x s = elim (Bool-cases (x / base == 0)) [
    | inl e ↦ rw (digits_from-last fuel base x s e) (omega arith)
    | inr e ↦
        rw (digits_from-more fuel base x s e)
          (omega (arith, digits_from-many fuel (x / base) (digit (x % base) ∷ s)))
  ]

  digits_from-some : (fuel x : ℕ) → 0 < length (digits_from (suc fuel) base x [])
  digits_from-some fuel x = elim (Bool-cases (x / base == 0)) [
    | inl e ↦ rw (digits_from-last fuel base x [] e) (omega arith)
    | inr e ↦
        rw (digits_from-more fuel base x [] e)
          (digits_from-many fuel (x / base) (digit (x % base) ∷ []))
  ]

  digits_from-few :
      (fuel x n : ℕ) (s : List ℕ)
      → x < 10 ^ suc n
      → length (digits_from fuel base x s) ≤ length s + suc n
  unfolding digits_from
  digits_from-few zero x n s h = omega arith
  digits_from-few (suc fuel) x zero s h = elim (Bool-cases (x / base == 0)) [
    | inl e ↦ rw (digits_from-last fuel base x s e) (omega arith)
    | inr e ↦ elim (one_digit (x / base) x h (b.shorter x) e) [ ]
  ]
  digits_from-few (suc fuel) x (suc n) s h = elim (Bool-cases (x / base == 0)) [
    | inl e ↦ rw (digits_from-last fuel base x s e) (omega arith)
    | inr e ↦ rw (digits_from-more fuel base x s e) (
        omega (
          arith,
          digits_from-few fuel (x / base) n (digit (x % base) ∷ s)
              (tenth (x / base) x n h (b.shorter x)),
        ))
  ]

  digits_from-IsNumeral : (x : ℕ) → x < 2 ^ 32 → IsNumeral base x (digits_from 32 base x [])
  digits_from-IsNumeral x h = record {
    digits = digits_from-digits 32 x [] tt;
    value = value_from-digits_from 32 x [] h;
    some_digit = digits_from-some 31 x;
    few = digits_from-few 32 x 9 [] (omega (arith, h));
  }

-- A call of `printint` by `printf` writes a numeral of its argument with ten digits at most, after a
-- minus sign if the argument is signed and below 0: the loop of the digits ends, `buf` is long
-- enough, and -2 ^ 31 is written as well.
pub printint-IsNumeral :
    (xx base : ℕ) (sgn : Bool)
    → IsBase base
    → xx < 2 ^ 32
    → (s : List ℕ) × ((printint xx base sgn ≡ (if sgn && leb (2 ^ 31) xx then 45 ∷ s else s))
        × IsNumeral base (if sgn && leb (2 ^ 31) xx then 2 ^ 32 - xx else xx) s)
unfolding printint
printint-IsNumeral xx base sgn h small = elim (Bool-cases (sgn && leb (2 ^ 31) xx)) [
  | inl e ↦ rw e (
    digits_from 32 base (2 ^ 32 - xx) [],
    (refl, digits_from-IsNumeral (IsBase-Shares base h) (2 ^ 32 - xx) (negated sgn xx e)),
  )
  | inr e ↦
      rw e
        (digits_from 32 base xx [], (refl, digits_from-IsNumeral (IsBase-Shares base h) xx small))
]
  where
    negated : (sgn : Bool) (xx : ℕ) → (sgn && leb (2 ^ 31) xx) ≡ true → 2 ^ 32 - xx < 2 ^ 32
    negated sgn xx e = ground arith
