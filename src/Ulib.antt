-- ===== src/Ulib.antt =====
-- The library of the user programs: user/ulib.c of "triple file system", atoi, strcmp, strchr and gets. A
-- string is the list of its bytes, without the null that ends it.
pub mod Printf
pub mod Numerals
pub mod Bases
pub mod Pieces
pub mod Lines
mod Tests
use operation_system_project.Prelude.{
  ℕ, zero, suc, ◌+◌, ◌-◌, ◌*◌, ◌%◌, ◌^◌, Bool, true, false, ◌&&◌, ◌||◌, List, [], ◌∷◌, ◌++◌, Option,
  none, some, leb, ◌==◌, if◌then◌else◌,
}
use operation_system_project.Prelude.Int.{ℤ, pos, sub_ℕ}

abbrev pub is_digit : ℕ → Bool
is_digit c = leb 48 c && leb c 57

-- The loop of `atoi`; an `int` is the number of its 32 bits.
unfoldable pub atoi_from : List ℕ → (n : ℕ) → ℕ
atoi_from [] n = n
atoi_from (c ∷ cs) n =
    let rest = atoi_from cs ((n * 10 + c - 48) % 2 ^ 32) in if is_digit c then rest else n

unfoldable pub atoi : List ℕ → ℕ
unfolding atoi_from
atoi s = atoi_from s 0

unfoldable pub strcmp : (p q : List ℕ) → ℤ
strcmp [] [] = pos 0
strcmp [] (d ∷ q) = sub_ℕ 0 d
strcmp (c ∷ p) [] = pos c
strcmp (c ∷ p) (d ∷ q) = let rest = strcmp p q in if c == d then rest else sub_ℕ c d

-- The rest of the string from the byte found, which is not the null.
unfoldable pub strchr : (s : List ℕ) → (c : ℕ) → Option (List ℕ)
strchr [] c = none
strchr (d ∷ s) c = let rest = strchr s c in if d == c then some (d ∷ s) else rest

abbrev pub is_line_end : ℕ → Bool
is_line_end c = c == 10 || c == 13

-- The bytes that `gets` stores before the null, and the input that is left; `room` is `max - 1 - i`.
unfoldable pub gets_from : (room : ℕ) → (input : List ℕ) → List ℕ × List ℕ
gets_from zero input = ([], input)
gets_from (suc room) [] = ([], [])
gets_from (suc room) (c ∷ input) =
    let rest = gets_from room input in
    if is_line_end c then (c ∷ [], input) else (c ∷ rest.0, rest.1)

-- The bytes that `gets` writes to `buf`, from its first on, and the input that is left. The null is
-- written even if `max` is 0.
unfoldable pub gets : (max : ℕ) → (input : List ℕ) → List ℕ × List ℕ
unfolding gets_from
gets max input = let r = gets_from (max - 1) input in (r.0 ++ (0 ∷ []), r.1)
