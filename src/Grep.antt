-- ===== src/Grep.antt =====
-- The matcher of grep, user/grep.c of "triple file system": match, matchhere and matchstar. A
-- string is the list of its bytes before the byte 0. Both functions fall on shorter strings, so
-- they need no fuel.
pub mod Meaning
mod Tests
use operation_system_project.Prelude.{
  ==_iff, ℕ, zero, suc, ◌≡◌, ◌≢◌, refl, sym, ap, ◌∙◌, ◌⊎◌, inl, inr, ◌↔◌, Bool, true, false,
  Bool-cases, not, ◌&&◌, ◌||◌, List, [], ◌∷◌, ◌++◌, ◌==◌, if◌then◌else◌, arith,
}

abbrev pub caret : ℕ
caret = 94

abbrev pub star : ℕ
star = 42

abbrev pub dot : ℕ
dot = 46

abbrev pub dollar : ℕ
dollar = 36

-- `matchstar`, over what `matchhere` answers for the rest of the expression.
unfoldable pub matchstar : ℕ → (List ℕ → Bool) → List ℕ → Bool
matchstar c here [] = here []
matchstar c here (a ∷ text) =
    let rest = (a == c || c == dot) && matchstar c here text in
    if here (a ∷ text) then true else rest

abbrev pub is_empty : List ℕ → Bool
is_empty [] = true
is_empty (a ∷ text) = false

-- `*text!='\0' && (c=='.' || c==*text)`, and then the rest.
unfoldable pub match_one : ℕ → (List ℕ → Bool) → List ℕ → Bool
match_one c here [] = false
match_one c here (a ∷ text) = (c == dot || c == a) && here text

unfoldable pub matchhere : (re text : List ℕ) → Bool
unfolding matchstar match_one
matchhere [] text = true
matchhere (c ∷ []) text = if c == dollar then is_empty text else match_one c (matchhere []) text
matchhere (c ∷ d ∷ re) text =
    let more = matchstar c (matchhere re) text in
    let next = match_one c (matchhere (d ∷ re)) text in if d == star then more else next

-- The loop of `match`, which looks at the empty string too.
unfoldable pub match_from : (re text : List ℕ) → Bool
unfolding matchhere
match_from re [] = matchhere re []
match_from re (a ∷ text) =
    let rest = match_from re text in if matchhere re (a ∷ text) then true else rest

unfoldable pub match : (re text : List ℕ) → Bool
unfolding matchhere match_from
match [] text = match_from [] text
match (c ∷ re) text = if c == caret then matchhere re text else match_from (c ∷ re) text
