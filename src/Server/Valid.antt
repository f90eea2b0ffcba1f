-- ===== src/Server/Valid.antt =====
-- The loop of `get` whatever the sizes are: it takes a valid slot if there is one.
use mathlib.Core.Path.{subst}
use operation_system_project.Prelude.{
  ℕ, suc, ◌+◌, ◌≡◌, ◌<◌, refl, sym, ◌∙◌, ◌⊎◌, Bool-cases, inl, inr, true, false, List, [], ◌∷◌,
  length, get_or, arith,
}
use operation_system_project.Prelude.Int.{ℤ, ltb_ℤ, eqb_ℤ}
use operation_system_project.Server.{Slot, Best, no_value, no_best, better, scan, empty_slot}
use operation_system_project.Server.Smallest.{AllFree}

-- A valid slot, by its index from `i` on.
pub record IsValidAt (ss : List Slot) (i k : ℕ) : Type 0 where
  pub slot : ℕ
  pub index : k ≡ i + slot
  pub within : slot < length ss
  pub taken : (get_or ss slot empty_slot).valid ≡ true

IsValidAt-later :
    (s : Slot) (ss : List Slot) (i k : ℕ) → IsValidAt ss (i + 1) k → IsValidAt (s ∷ ss) i k
IsValidAt-later s ss i k a = record {
  slot = suc a.slot;
  index = omega (arith, a.index);
  within = omega (arith, a.within);
  taken = a.taken;
}

IsValidAt-first : (s : Slot) (ss : List Slot) (i : ℕ) → s.valid ≡ true → IsValidAt (s ∷ ss) i i
IsValidAt-first s ss i e = record { slot = 0; index = omega arith; within = omega arith; taken = e }

better-cases :
    (size : ℤ) (i : ℕ) (best : Best)
    → ((better size i best).1 ≡ best.1) ⊎ ((better size i best).1 ≡ i)
unfolding better
better-cases size i (val, ind) = elim (Bool-cases (eqb_ℤ val no_value)) [
  | inl e ↦ inr (rw e)
  | inr e ↦ elim (Bool-cases (ltb_ℤ size val)) [ inl f ↦ inr (rw (e, f)) | inr f ↦ inl (rw (e, f)) ]
]

better-first : (size : ℤ) (i : ℕ) → (better size i no_best).1 ≡ i
unfolding better
better-first size i = refl

scan-taken :
    (s : Slot) (ss : List Slot) (i : ℕ) (best : Best)
    → s.valid ≡ true
    → (scan (s ∷ ss) i best).1 ≡ (scan ss (i + 1) (better s.request.file_size i best)).1
unfolding scan
scan-taken s ss i best e = rw e

scan-passed :
    (s : Slot) (ss : List Slot) (i : ℕ) (best : Best)
    → s.valid ≡ false
    → (scan (s ∷ ss) i best).1 ≡ (scan ss (i + 1) best).1
unfolding scan
scan-passed s ss i best e = rw e

-- Whatever the sizes are, the loop keeps the index it has or takes that of a valid slot.
scan-cases :
    (ss : List Slot) (i : ℕ) (best : Best)
    → ((scan ss i best).1 ≡ best.1) ⊎ IsValidAt ss i (scan ss i best).1
unfolding scan
scan-cases [] i best = inl refl
scan-cases (s ∷ ss) i best = elim (Bool-cases s.valid) [
  | inr e ↦ elim (scan-cases ss (i + 1) best) [
    | inl same ↦ inl (scan-passed s ss i best e ∙ same)
    | inr a ↦ inr (
        subst (IsValidAt (s ∷ ss) i) (sym (scan-passed s ss i best e)) (IsValidAt-later s ss i _ a))
  ]
  | inl e ↦ elim (scan-cases ss (i + 1) (better s.request.file_size i best)) [
    | inr a ↦
        inr (
          subst (IsValidAt (s ∷ ss) i) (sym (scan-taken s ss i best e))
            (IsValidAt-later s ss i _ a))
    | inl same ↦ elim (better-cases s.request.file_size i best) [
      | inl old ↦ inl (scan-taken s ss i best e ∙ same ∙ old)
      | inr here ↦ inr (
          subst (IsValidAt (s ∷ ss) i) (sym (scan-taken s ss i best e ∙ same ∙ here))
            (IsValidAt-first s ss i e))
    ]
  ]
]

-- From no value on, it takes a valid slot if there is one.
pub scan-IsValidAt : (ss : List Slot) (i : ℕ) → AllFree ss ⊎ IsValidAt ss i (scan ss i no_best).1
scan-IsValidAt [] i = inl tt
scan-IsValidAt (s ∷ ss) i = elim (Bool-cases s.valid) [
  | inr e ↦ elim (scan-IsValidAt ss (i + 1)) [
    | inl f ↦ inl (e, f)
    | inr a ↦ inr (
        subst (IsValidAt (s ∷ ss) i) (sym (scan-passed s ss i no_best e))
          (IsValidAt-later s ss i _ a))
  ]
  | inl e ↦ elim (scan-cases ss (i + 1) (better s.request.file_size i no_best)) [
    | inl same ↦ inr (
        subst (IsValidAt (s ∷ ss) i)
          (sym (scan-taken s ss i no_best e ∙ same ∙ better-first s.request.file_size i))
          (IsValidAt-first s ss i e))
    | inr a ↦ inr (
        subst (IsValidAt (s ∷ ss) i) (sym (scan-taken s ss i no_best e))
          (IsValidAt-later s ss i _ a))
  ]
]
