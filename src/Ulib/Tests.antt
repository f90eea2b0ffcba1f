-- ===== src/Ulib/Tests.antt =====
-- Runs of the library of the user programs.
use operation_system_project.Prelude.{
  ℕ, ◌-◌, ◌^◌, ◌≡◌, ◌≤◌, length, refl, inl, true, ◌&&◌, List, [], ◌∷◌, ◌++◌, All, leb,
  if◌then◌else◌, arith,
}
use operation_system_project.Ulib.{atoi, gets}
use operation_system_project.Ulib.Printf.{printint, printf}
use operation_system_project.Ulib.Numerals.{atoi-printint}
use operation_system_project.Ulib.Bases.{IsNumeral, printint-IsNumeral}
use operation_system_project.Ulib.Pieces.{Piece, IsProper, IsFormat, pieces_output, printf-IsFormat}
use operation_system_project.Ulib.Lines.{IsLine, gets-IsLine}

atoi-printint_example : atoi (printint 2026 10 true ++ (32 ∷ [])) ≡ 2026
atoi-printint_example = atoi-printint 2026 true (32 ∷ []) (omega arith) refl

-- -5
prints_minus : printint (2 ^ 32 - 5) 10 true ≡ 45 ∷ 53 ∷ []
unfolding printint
prints_minus = refl

printint-IsNumeral_example :
    (s : List ℕ) × ((printint (2 ^ 32 - 5) 10 true
        ≡ (if true && leb (2 ^ 31) (2 ^ 32 - 5) then 45 ∷ s else s))
      × IsNumeral 10
          (if true && leb (2 ^ 31) (2 ^ 32 - 5) then 2 ^ 32 - (2 ^ 32 - 5) else 2 ^ 32 - 5)
          s)
printint-IsNumeral_example = printint-IsNumeral (2 ^ 32 - 5) 10 true (inl refl) (omega arith)

abbrev no_strings : ℕ → List ℕ
no_strings s = []

-- "a%d%%%q%"
abbrev mixed : List ℕ
mixed = 97 ∷ 37 ∷ 100 ∷ 37 ∷ 37 ∷ 37 ∷ 113 ∷ 37 ∷ []

prints_mixed : printf (λ i. 12) no_strings mixed ≡ 97 ∷ 49 ∷ 50 ∷ 37 ∷ 37 ∷ 113 ∷ []
unfolding printf
prints_mixed = refl

printf-IsFormat_example :
    (ps : List Piece) × (All IsProper ps
      × (IsFormat mixed ps
          × (printf (λ i. 12) no_strings mixed ≡ pieces_output (λ i. 12) no_strings ps 0)))
printf-IsFormat_example = printf-IsFormat (λ i. 12) no_strings mixed

-- "ls" and an end of line, and one more byte.
abbrev typed : List ℕ
typed = 108 ∷ 115 ∷ 10 ∷ 120 ∷ []

gets-IsLine_example :
    (line : List ℕ) × ((gets 5 typed).0 ≡ line ++ (0 ∷ []))
    × (length (gets 5 typed).0 ≤ 5)
    × IsLine 4 typed line (gets 5 typed).1
gets-IsLine_example = gets-IsLine 5 typed (omega arith)
