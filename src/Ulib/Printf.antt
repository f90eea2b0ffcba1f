-- ===== src/Ulib/Printf.antt =====
-- `printint` and `printf` of user/printf.c, "triple file system", as the bytes that they write.
use operation_system_project.Prelude.{
  ℕ, zero, suc, ◌+◌, ◌-◌, ◌/◌, ◌%◌, ◌^◌, Bool, true, false, ◌&&◌, ◌||◌, List, [], ◌∷◌, ◌++◌, ltb,
  leb, ◌==◌, if◌then◌else◌,
}

-- `digits[d]`
abbrev pub digit : ℕ → ℕ
digit d = if ltb d 10 then 48 + d else 55 + d

-- `buf[i]` is written in front of what `buf` holds, so the bytes end up in the order of printing. A
-- base of 2 or more needs 32 rounds at most.
unfoldable pub digits_from : (fuel base x : ℕ) → (buf : List ℕ) → List ℕ
digits_from zero base x buf = buf
digits_from (suc fuel) base x buf =
    let rest = digits_from fuel base (x / base) (digit (x % base) ∷ buf) in
    if x / base == 0 then digit (x % base) ∷ buf else rest

-- `xx` is an `int`, as the number of its 32 bits.
unfoldable pub printint : (xx base : ℕ) → (sgn : Bool) → List ℕ
unfolding digits_from
printint xx base sgn =
    if sgn && leb (2 ^ 31) xx
    then 45 ∷ digits_from 32 base (2 ^ 32 - xx) []
    else digits_from 32 base xx []

-- `state`, 0 or '%'.
pub data State : Type 0 where
  plain : State
  percent : State

abbrev null_text : List ℕ
null_text = 40 ∷ 110 ∷ 117 ∷ 108 ∷ 108 ∷ 41 ∷ []

-- The bytes of a `%s`; the string at an address is an argument.
abbrev pub put_string : (string_at : ℕ → List ℕ) → (s : ℕ) → List ℕ
put_string string_at s = if s == 0 then null_text else string_at s

-- What `%` and `c` write, and whether they take the word at `ap`.
unfoldable pub convert : (string_at : ℕ → List ℕ) → (c word : ℕ) → List ℕ × Bool
unfolding printint
convert string_at c word =
    if c == 100
    then (printint word 10 true, true)
    else (if c == 120 || c == 112
        then (printint word 16 false, true)
        else (if c == 115
            then (put_string string_at word, true)
            else (if c == 99
                then (word % 256 ∷ [], true)
                else (if c == 37 then 37 ∷ [] else 37 ∷ c ∷ [], false))))

-- The words of the stack behind `fmt` are `args`.
module _ (args : ℕ → ℕ) (string_at : ℕ → List ℕ) where
  unfoldable pub printf_from : State → (fmt : List ℕ) → (ap : ℕ) → List ℕ
  unfolding convert
  printf_from state [] ap = []
  printf_from plain (c ∷ fmt) ap =
      let converted = printf_from percent fmt ap in
      let rest = printf_from plain fmt ap in if c == 37 then converted else c ∷ rest
  printf_from percent (c ∷ fmt) ap =
      let (out, taken) = convert string_at c (args ap) in
      out ++ printf_from plain fmt (if taken then ap + 1 else ap)

  unfoldable pub printf : (fmt : List ℕ) → List ℕ
  unfolding printf_from
  printf fmt = printf_from plain fmt 0
