-- ===== src/Grep/Meaning.antt =====
-- What an expression of grep means, and that `match` decides it.
use operation_system_project.Prelude.{
  ==_iff, ℕ, ◌≡◌, ◌≢◌, refl, sym, ◌∙◌, ◌⊎◌, inl, inr, ◌↔◌, Bool, true, false, Bool-cases, ◌&&◌,
  ◌||◌, List, [], ◌∷◌, ◌==◌, arith,
}
use operation_system_project.Grep.{
  caret, star, dot, dollar, matchstar, is_empty, match_one, matchhere, match_from, match,
}

-- The expression is no star, and no dollar at the end of the expression.
abbrev IsPlain : ℕ → List ℕ → Type 0
IsPlain c [] = c ≢ dollar
IsPlain c (d ∷ re) = d ≢ star

-- What an expression means: it matches the beginning of a text.
pub data Matches : (re text : List ℕ) → Type 0 where
  done : (text : List ℕ) → Matches [] text
  at_end : (c : ℕ) → c ≡ dollar → Matches (c ∷ []) []
  one :
      (c a : ℕ) (re text : List ℕ)
      → IsPlain c re
      → (c ≡ dot) ⊎ (c ≡ a)
      → Matches re text
      → Matches (c ∷ re) (a ∷ text)
  stop : (c d : ℕ) (re text : List ℕ) → d ≡ star → Matches re text → Matches (c ∷ d ∷ re) text
  more :
      (c d a : ℕ) (re text : List ℕ)
      → d ≡ star
      → (a ≡ c) ⊎ (c ≡ dot)
      → Matches (c ∷ d ∷ re) text
      → Matches (c ∷ d ∷ re) (a ∷ text)

ne_of_test : (a b : ℕ) → (a == b) ≡ false → a ≢ b
ne_of_test a b e = ground arith

test_of_ne : (a b : ℕ) → a ≢ b → (a == b) ≡ false
test_of_ne a b e = ground arith

either_test : (a b c d : ℕ) → ((a == b) || (c == d)) ≡ true → (a ≡ b) ⊎ (c ≡ d)
either_test a b c d e = elim (Bool-cases (a == b)) [
  | inl h ↦ inl (ground arith)
  | inr h ↦ inr (ground arith)
]

test_either : (a b c d : ℕ) → (a ≡ b) ⊎ (c ≡ d) → ((a == b) || (c == d)) ≡ true
test_either a b c d (inl h) = ground arith
test_either a b c d (inr h) = ground arith

and_cases : (a b : Bool) → (a && b) ≡ true → (a ≡ true) × (b ≡ true)
and_cases true true e = (refl, refl)
and_cases true false e = absurd (cc)
and_cases false b e = absurd (cc)

-- The repetitions of a byte and what follows them.
matchstar-Matches :
    (c d : ℕ) (re : List ℕ)
    → d ≡ star
    → ((text : List ℕ) → matchhere re text ≡ true → Matches re text)
    → (text : List ℕ) → matchstar c (matchhere re) text ≡ true
    → Matches (c ∷ d ∷ re) text
unfolding matchstar
matchstar-Matches c d re h sound [] e = stop c d re [] h (sound [] e)
matchstar-Matches c d re h sound (a ∷ text) e = elim (Bool-cases (matchhere re (a ∷ text))) [
  | inl here ↦ stop c d re (a ∷ text) h (sound (a ∷ text) here)
  | inr later ↦
      let (same, rest) =
        and_cases (a == c || c == dot) (matchstar c (matchhere re) text) (rw later at e) in
      more c d a re text h (either_test a c c dot same) (matchstar-Matches c d re h sound text rest)
]

match_one-Matches :
    (c : ℕ) (re : List ℕ)
    → IsPlain c re
    → ((text : List ℕ) → matchhere re text ≡ true → Matches re text)
    → (text : List ℕ) → match_one c (matchhere re) text ≡ true
    → Matches (c ∷ re) text
unfolding match_one
match_one-Matches c re p sound [] e = absurd (cc)
match_one-Matches c re p sound (a ∷ text) e =
    let (same, rest) = and_cases (c == dot || c == a) (matchhere re text) e in
    one c a re text p (either_test c dot c a same) (sound text rest)

is_dollar : (c : ℕ) (text : List ℕ) → c ≡ dollar → is_empty text ≡ true → Matches (c ∷ []) text
is_dollar c [] h e = at_end c h
is_dollar c (a ∷ text) h e = absurd (cc)

matchhere-Matches : (re text : List ℕ) → matchhere re text ≡ true → Matches re text
unfolding matchhere
matchhere-Matches [] text e = done text
matchhere-Matches (c ∷ []) text e = elim (Bool-cases (c == dollar)) [
  | inl h ↦ is_dollar c text ((==_iff c dollar).0 h) (rw h at e)
  | inr h ↦ match_one-Matches c [] (ne_of_test c dollar h) (λ t _. done t) text (rw h at e)
]
matchhere-Matches (c ∷ d ∷ re) text e = elim (Bool-cases (d == star)) [
  | inl h ↦ matchstar-Matches c d re ((==_iff d star).0 h) (matchhere-Matches re) text (rw h at e)
  | inr h ↦
      match_one-Matches c (d ∷ re) (ne_of_test d star h) (matchhere-Matches (d ∷ re)) text
        (rw h at e)
]

matchstar-stop :
    (c : ℕ) (here : List ℕ → Bool) (text : List ℕ) → here text ≡ true → matchstar c here text ≡ true
unfolding matchstar
matchstar-stop c here [] e = e
matchstar-stop c here (a ∷ text) e = rw e

matchstar-more :
    (c a : ℕ) (here : List ℕ → Bool) (text : List ℕ)
    → (a ≡ c) ⊎ (c ≡ dot)
    → matchstar c here text ≡ true
    → matchstar c here (a ∷ text) ≡ true
unfolding matchstar
matchstar-more c a here text h e = elim (Bool-cases (here (a ∷ text))) [
  | inl f ↦ rw f
  | inr f ↦ rw (f, test_either a c c dot h, e)
]

matchhere-star :
    (c d : ℕ) (re text : List ℕ)
    → d ≡ star
    → matchhere (c ∷ d ∷ re) text ≡ matchstar c (matchhere re) text
unfolding matchhere
matchhere-star c d re text e = rw ((==_iff d star).1 e)

Matches-matchhere : {re text : List ℕ} → Matches re text → matchhere re text ≡ true
unfolding matchhere match_one
Matches-matchhere (done text) = refl
Matches-matchhere (at_end c e) = rw e
Matches-matchhere (one c a [] text p h m) = rw (test_of_ne c dollar p, test_either c dot c a h)
Matches-matchhere (one c a (d ∷ re) text p h m) =
    rw (test_of_ne d star p, test_either c dot c a h) (Matches-matchhere m)
Matches-matchhere (stop c d re text e m) =
    matchhere-star c d re text e ∙ matchstar-stop c (matchhere re) text (Matches-matchhere m)
Matches-matchhere (more c d a re text e h m) =
    matchhere-star c d re (a ∷ text) e
    ∙ matchstar-more c a (matchhere re) text h
        (sym (matchhere-star c d re text e) ∙ Matches-matchhere m)

-- The expression matches somewhere in the text.
pub data Within (re : List ℕ) : List ℕ → Type 0 where
  here : (text : List ℕ) → Matches re text → Within re text
  later : (a : ℕ) (text : List ℕ) → Within re text → Within re (a ∷ text)

-- A caret asks for a match at the beginning.
abbrev pub Finds : (re text : List ℕ) → Type 0
Finds [] text = Within [] text
Finds (c ∷ re) text = ((c ≡ caret) × Matches re text) ⊎ ((c ≢ caret) × Within (c ∷ re) text)

match_from-Within : (re text : List ℕ) → match_from re text ≡ true → Within re text
unfolding match_from
match_from-Within re [] e = here [] (matchhere-Matches re [] e)
match_from-Within re (a ∷ text) e = elim (Bool-cases (matchhere re (a ∷ text))) [
  | inl h ↦ here (a ∷ text) (matchhere-Matches re (a ∷ text) h)
  | inr h ↦ later a text (match_from-Within re text (rw h at e))
]

Within-match_from : {re text : List ℕ} → Within re text → match_from re text ≡ true
unfolding match_from
Within-match_from (here [] m) = Matches-matchhere m
Within-match_from (here (a ∷ text) m) = rw (Matches-matchhere m)
Within-match_from {re} (later a text w) = elim (Bool-cases (matchhere re (a ∷ text))) [
  | inl h ↦ rw h
  | inr h ↦ rw h (Within-match_from w)
]

-- `match` answers 1 exactly if the expression matches somewhere in the text, or at its beginning
-- if the expression starts with a caret.
pub match_iff : (re text : List ℕ) → (match re text ≡ true) ↔ Finds re text
unfolding match
match_iff [] text = (match_from-Within [] text, λ w. Within-match_from w)
match_iff (c ∷ re) text = elim (Bool-cases (c == caret)) [
  | inl h ↦ (
    (λ e. inl ((==_iff c caret).0 h, matchhere-Matches re text (rw h at e))),
    λ f. elim f [
      | inl p ↦ rw h (Matches-matchhere p.1)
      | inr p ↦ absurd (p.0 ((==_iff c caret).0 h))
    ],
  )
  | inr h ↦ (
    (λ e. inr (ne_of_test c caret h, match_from-Within (c ∷ re) text (rw h at e))),
    λ f. elim f [
      | inl p ↦ absurd (ne_of_test c caret h p.0)
      | inr p ↦ rw h (Within-match_from p.1)
    ],
  )
]
