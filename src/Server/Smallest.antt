-- ===== src/Server/Smallest.antt =====
-- Which slot the loop of `get` picks.
use mathlib.Core.Path.{subst}
use operation_system_project.Prelude.{
  ℕ, suc, ◌+◌, ◌≡◌, ◌≢◌, ◌<◌, refl, sym, ◌⊎◌, Bool-cases, inl, inr, true, false, List, [], ◌∷◌,
  if◌then◌else◌, length, get_or, arith,
}
use operation_system_project.Prelude.Int.{ℤ, ◌≤ℤ◌, ◌<ℤ◌, ltb_ℤ, eqb_ℤ, eq_of_parts}
use operation_system_project.Server.{Slot, Best, no_value, no_best, better, scan, empty_slot}

-- No slot has the file size -1.
abbrev pub AllSized : List Slot → Type 0
AllSized [] = Unit
AllSized (s ∷ ss) = (s.request.file_size ≢ no_value) × AllSized ss

no_value_test : (v : ℤ) → v ≢ no_value → eqb_ℤ v no_value ≡ false
no_value_test v n = elim (Bool-cases (eqb_ℤ v no_value)) [
  | inl e ↦ absurd (n (eq_of_parts v no_value (ground arith)))
  | inr e ↦ e
]

-- Slot `j` is valid, and its file has size `v`.
pub record IsAt (ss : List Slot) (j : ℕ) (v : ℤ) : Type 0 where
  pub within : j < length ss
  pub taken : (get_or ss j empty_slot).valid ≡ true
  pub sized : (get_or ss j empty_slot).request.file_size ≡ v

-- No file that waits is smaller than `v`.
abbrev pub AllAtLeast : ℤ → List Slot → Type 0
AllAtLeast v [] = Unit
AllAtLeast v (s ∷ ss) = (s.valid ≡ true → v ≤ℤ s.request.file_size) × AllAtLeast v ss

abbrev pub AllFree : List Slot → Type 0
AllFree [] = Unit
AllFree (s ∷ ss) = (s.valid ≡ false) × AllFree ss

-- The pick among the slots `ss`, which have the indices from `i` on, or an earlier one.
record IsPick (ss : List Slot) (i : ℕ) (val : ℤ) (ind : ℕ) (v : ℤ) (k : ℕ) : Type 0 where
  not_above : v ≤ℤ val
  least : AllAtLeast v ss
  source : ((v ≡ val) × (k ≡ ind)) ⊎ ((j : ℕ) × (k ≡ i + j) × IsAt ss j v)

IsAt-later : (s : Slot) (ss : List Slot) (j : ℕ) (v : ℤ) → IsAt ss j v → IsAt (s ∷ ss) (suc j) v
IsAt-later s ss j v a = record {
  within = omega (arith, a.within);
  taken = a.taken;
  sized = a.sized;
}

AllAtLeast-le : (ss : List Slot) (v w : ℤ) → v ≤ℤ w → AllAtLeast w ss → AllAtLeast v ss
AllAtLeast-le [] v w h a = tt
AllAtLeast-le (s ∷ ss) v w h a = ((λ e. omega (arith, a.0 e)), AllAtLeast-le ss v w h a.1)

ltb-false : (a b : ℤ) → ltb_ℤ a b ≡ false → b ≤ℤ a
ltb-false a b e = ground arith

ltb-true : (a b : ℤ) → ltb_ℤ a b ≡ true → a <ℤ b
ltb-true a b e = ground arith

-- A slot that does not beat the pick so far.
IsPick-keep :
    (s : Slot) (ss : List Slot) (i : ℕ) (val : ℤ) (ind : ℕ) (v : ℤ) (k : ℕ)
    → (s.valid ≡ true → val ≤ℤ s.request.file_size)
    → IsPick ss (i + 1) val ind v k
    → IsPick (s ∷ ss) i val ind v k
IsPick-keep s ss i val ind v k h p = record {
  not_above = p.not_above;
  least = ((λ e. omega (arith, h e, p.not_above)), p.least);
  source = elim p.source [
    | inl same ↦ inl same
    | inr (j, e, a) ↦ inr (suc j, omega arith, IsAt-later s ss j v a)
  ];
}

-- A slot that does.
IsPick-new :
    (s : Slot) (ss : List Slot) (i : ℕ) (val : ℤ) (ind : ℕ) (v : ℤ) (k : ℕ)
    → s.valid ≡ true
    → s.request.file_size <ℤ val
    → IsPick ss (i + 1) s.request.file_size i v k
    → IsPick (s ∷ ss) i val ind v k
IsPick-new s ss i val ind v k valid h p = record {
  not_above = omega (arith, p.not_above);
  least = ((λ e. p.not_above), p.least);
  source = elim p.source [
    | inl (ev, ek) ↦
        inr (0, omega arith, record { within = omega arith; taken = valid; sized = sym ev })
    | inr (j, e, a) ↦ inr (suc j, omega arith, IsAt-later s ss j v a)
  ];
}

better-same :
    (size : ℤ) (i : ℕ) (val : ℤ) (ind : ℕ)
    → val ≢ no_value
    → better size i (val, ind) ≡ (if ltb_ℤ size val then (size, i) else (val, ind))
unfolding better
better-same size i val ind n = rw (no_value_test val n)

scan-IsPick :
    (ss : List Slot) (i : ℕ) (val : ℤ) (ind : ℕ)
    → val ≢ no_value
    → AllSized ss
    → (v : ℤ) × (k : ℕ) × (scan ss i (val, ind) ≡ (v, k)) × IsPick ss i val ind v k
unfolding scan
scan-IsPick [] i val ind n h =
    (val, ind, refl, record { not_above = omega arith; least = tt; source = inl (refl, refl) })
scan-IsPick (s ∷ ss) i val ind n h = elim (Bool-cases s.valid) [
  | inl e ↦ elim (Bool-cases (ltb_ℤ s.request.file_size val)) [
    | inl f ↦
        let (v, k, r, p) = scan-IsPick ss (i + 1) s.request.file_size i h.0 h.1 in
        (
          v,
          k,
          rw (e, better-same s.request.file_size i val ind n, f) r,
          IsPick-new s ss i val ind v k e (ltb-true s.request.file_size val f) p,
        )
    | inr f ↦
        let (v, k, r, p) = scan-IsPick ss (i + 1) val ind n h.1 in
        (
          v,
          k,
          rw (e, better-same s.request.file_size i val ind n, f) r,
          IsPick-keep s ss i val ind v k (λ _. ltb-false s.request.file_size val f) p,
        )
  ]
  | inr e ↦
      let (v, k, r, p) = scan-IsPick ss (i + 1) val ind n h.1 in
      (v, k, rw e r, IsPick-keep s ss i val ind v k (λ e'. cc) p)
]

-- The loop of `get` finds a slot, unless none is valid.
pub data IsFound (ss : List Slot) (i : ℕ) : Best → Type 0 where
  nothing : AllFree ss → IsFound ss i no_best
  found : (v : ℤ) (k j : ℕ) → k ≡ i + j → IsAt ss j v → AllAtLeast v ss → IsFound ss i (v, k)

IsFound-later :
    (s : Slot) (ss : List Slot) (i : ℕ) {best : Best}
    → s.valid ≡ false
    → IsFound ss (i + 1) best
    → IsFound (s ∷ ss) i best
IsFound-later s ss i e (nothing h) = nothing (e, h)
IsFound-later s ss i e (found v k j ek a l) =
    found v k (suc j) (omega arith) (IsAt-later s ss j v a) ((λ e'. cc), l)

IsFound-pick :
    (s : Slot) (ss : List Slot) (i : ℕ) (v : ℤ) (k : ℕ)
    → s.valid ≡ true
    → IsPick ss (i + 1) s.request.file_size i v k
    → IsFound (s ∷ ss) i (v, k)
IsFound-pick s ss i v k e p = elim p.source [
  | inl (ev, ek) ↦
      found v k 0 (omega arith) (record { within = omega arith; taken = e; sized = sym ev })
        ((λ _. p.not_above), p.least)
  | inr (j, ek, a) ↦
      found v k (suc j) (omega arith) (IsAt-later s ss j v a) ((λ _. p.not_above), p.least)
]

pub scan-IsFound : (ss : List Slot) (i : ℕ) → AllSized ss → IsFound ss i (scan ss i no_best)
unfolding scan better
scan-IsFound [] i h = nothing tt
scan-IsFound (s ∷ ss) i h = elim (Bool-cases s.valid) [
  | inl e ↦
      let (v, k, r, p) = scan-IsPick ss (i + 1) s.request.file_size i h.0 h.1 in
      subst (IsFound (s ∷ ss) i) (sym (rw e r)) (IsFound-pick s ss i v k e p)
  | inr e ↦ subst (IsFound (s ∷ ss) i) (rw e) (IsFound-later s ss i e (scan-IsFound ss (i + 1) h.1))
]
