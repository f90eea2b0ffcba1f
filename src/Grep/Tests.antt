-- ===== src/Grep/Tests.antt =====
-- The expression "^a.*$" on "abc".
use operation_system_project.Prelude.{ℕ, ◌≡◌, ◌↔◌, refl, true, List, [], ◌∷◌}
use operation_system_project.Grep.{match}
use operation_system_project.Grep.Meaning.{Finds, match_iff}

abbrev expression : List ℕ
expression = 94 ∷ 97 ∷ 46 ∷ 42 ∷ 36 ∷ []

abbrev line : List ℕ
line = 97 ∷ 98 ∷ 99 ∷ []

match-expression : match expression line ≡ true
unfolding match
match-expression = refl

match_iff_example : (match expression line ≡ true) ↔ Finds expression line
match_iff_example = match_iff expression line
