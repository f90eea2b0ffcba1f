-- ===== src/Ulib/Lines.antt =====
-- Strings and lines: strcmp, strchr and gets of user/ulib.c, "triple file system".
use operation_system_project.Prelude.{
  ℕ, zero, suc, ◌-◌, ◌≡◌, ◌≤◌, ◌<◌, ◌↔◌, inl, inr, refl, true, false, List, [], ◌∷◌, ◌++◌, length,
  length-append, All, ◌==◌, Bool-cases, arith,
}
use operation_system_project.Prelude.Int.{pos}
use operation_system_project.Ulib.{strcmp, is_line_end, gets_from, gets}

-- What `gets` has read of its input: either a line with its end, or the input up to its end, or as
-- much as there is room for, without an end of a line.
pub data IsLine (room : ℕ) : (input line rest : List ℕ) → Type 0 where
  ended :
      (line rest : List ℕ) (c : ℕ)
      → is_line_end c ≡ true
      → All (λ d. is_line_end d ≡ false) line
      → length line < room
      → IsLine room (line ++ (c ∷ rest)) (line ++ (c ∷ [])) rest
  all_read :
      (line : List ℕ)
      → All (λ d. is_line_end d ≡ false) line
      → length line < room
      → IsLine room line line []
  filled :
      (line rest : List ℕ)
      → All (λ d. is_line_end d ≡ false) line
      → length line ≡ room
      → IsLine room (line ++ rest) line rest

IsLine-cons :
    {room : ℕ} {input line rest : List ℕ} (c : ℕ)
    → is_line_end c ≡ false
    → IsLine room input line rest
    → IsLine (suc room) (c ∷ input) (c ∷ line) rest
IsLine-cons c h (ended line rest d e a l) = ended (c ∷ line) rest d e (h, a) (omega (arith, l))
IsLine-cons c h (all_read line a l) = all_read (c ∷ line) (h, a) (omega (arith, l))
IsLine-cons c h (filled line rest a l) = filled (c ∷ line) rest (h, a) (omega (arith, l))

gets_from-IsLine :
    (room : ℕ) (input : List ℕ)
    → IsLine room input (gets_from room input).0 (gets_from room input).1
unfolding gets_from
gets_from-IsLine zero input = filled [] input tt refl
gets_from-IsLine (suc room) [] = all_read [] tt (omega arith)
gets_from-IsLine (suc room) (c ∷ input) = elim (Bool-cases (is_line_end c)) [
  | inl e ↦ rw e (ended [] input c e tt (omega arith))
  | inr e ↦ rw e (IsLine-cons c e (gets_from-IsLine room input))
]

IsLine-length :
    {room : ℕ} {input line rest : List ℕ} → IsLine room input line rest → length line ≤ room
IsLine-length (ended line rest c e a l) = omega (arith, l, length-append line (c ∷ []))
IsLine-length (all_read line a l) = omega (arith, l)
IsLine-length (filled line rest a l) = omega (arith, l)

-- With room for one byte at least, `gets` writes to its buffer a line and a null behind it, which fit
-- in: the line is the input up to and with the first end of a line, or all of it, or its first
-- `max - 1` bytes if these have no end of a line. Nothing else of the input is read.
pub gets-IsLine :
    (max : ℕ) (input : List ℕ)
    → 0 < max
    → (line : List ℕ) × ((gets max input).0 ≡ line ++ (0 ∷ []))
      × (length (gets max input).0 ≤ max)
      × IsLine (max - 1) input line (gets max input).1
unfolding gets
gets-IsLine max input some_room =
    let line = (gets_from (max - 1) input).0 in
    let h = gets_from-IsLine (max - 1) input in
    (line, refl, omega (arith, some_room, length-append line (0 ∷ []), IsLine-length h), h)

-- Two strings without null bytes are equal exactly if `strcmp` of them is 0.
pub strcmp_iff :
    (p q : List ℕ) → All (λ c. 0 < c) p → All (λ c. 0 < c) q → (strcmp p q ≡ pos 0) ↔ (p ≡ q)
unfolding strcmp
strcmp_iff [] [] hp hq = (λ e. refl, λ e. refl)
strcmp_iff [] (d ∷ q) hp hq = ground arith
strcmp_iff (c ∷ p) [] hp hq = ground arith
strcmp_iff (c ∷ p) (d ∷ q) hp hq = elim (Bool-cases (c == d)) [
  | inl e ↦ let ih = strcmp_iff p q hp.1 hq.1 in ground arith
  | inr e ↦ ground arith
]
