-- ===== src/Fs/Agree.antt =====
-- When two copies of a mirrored block compare as equal, and what the three comparisons come to.
use operation_system_project.Prelude.{
  ◌∷◌, ◌⊎◌, inl, inr, Bool-cases, take, ℕ, zero, suc, ◌≡◌, ◌==◌, true, false, refl, List, [],
  Option, none, some, if◌then◌else◌, arith,
}
use operation_system_project.Str.{strncmp_differs}
use operation_system_project.Fs.{Block}
use operation_system_project.Fs.Data.{no_diffs, all_differ, compare_copies}

-- The bytes before the first byte 0.
abbrev pub text : List ℕ → List ℕ
text [] = []
text (c ∷ cs) = let rest = text cs in if c == 0 then [] else c ∷ rest

-- Two copies have the same first `n` bytes, or the same ones up to a byte 0.
abbrev pub Agree : ℕ → (p q : Block) → Type 0
Agree n p q = text (take n p) ≡ text (take n q)

differs-Agree : (n : ℕ) (p q : Block) → strncmp_differs p q n ≡ false → Agree n p q
unfolding strncmp_differs
differs-Agree zero p q e = refl
differs-Agree (suc n) [] [] e = refl
differs-Agree (suc n) [] (y ∷ q) e = ground arith
differs-Agree (suc n) (x ∷ p) [] e = ground arith
differs-Agree (suc n) (x ∷ p) (y ∷ q) e = ground (arith, differs-Agree n p q)

Agree-differs : (n : ℕ) (p q : Block) → Agree n p q → strncmp_differs p q n ≡ false
unfolding strncmp_differs
Agree-differs zero p q e = refl
Agree-differs (suc n) [] [] e = refl
Agree-differs (suc n) [] (y ∷ q) e = ground arith
Agree-differs (suc n) (x ∷ p) [] e = ground arith
Agree-differs (suc n) (x ∷ p) (y ∷ q) e = ground (arith, Agree-differs n p q)

-- No two of the three copies agree, or some do, and then the bytes are returned.
pub data IsRead (n : ℕ) (b₁ b₂ b₃ : Block) (bytes : List ℕ) : Option (List ℕ) → Type 0 where
  lost : ¬ Agree n b₁ b₂ → ¬ Agree n b₂ b₃ → ¬ Agree n b₁ b₃ → IsRead n b₁ b₂ b₃ bytes none
  kept : Agree n b₁ b₂ ⊎ (Agree n b₂ b₃ ⊎ Agree n b₁ b₃) → IsRead n b₁ b₂ b₃ bytes (some bytes)

differs-verdict : (n : ℕ) (p q : Block) → strncmp_differs p q n ≡ true → ¬ Agree n p q
differs-verdict n p q e a = cc (Agree-differs n p q a)

pub flags-IsRead :
    (n : ℕ) (b₁ b₂ b₃ : Block) (bytes : List ℕ)
    → IsRead n b₁ b₂ b₃ bytes
        (if all_differ (compare_copies n no_diffs b₁ b₂ b₃) then none else some bytes)
unfolding compare_copies
flags-IsRead n b₁ b₂ b₃ bytes = elim (Bool-cases (strncmp_differs b₁ b₂ n)) [
  | inr e₁ ↦ rw e₁ (kept (inl (differs-Agree n b₁ b₂ e₁)))
  | inl e₁ ↦ elim (Bool-cases (strncmp_differs b₂ b₃ n)) [
    | inr e₂ ↦ rw (e₁, e₂) (kept (inr (inl (differs-Agree n b₂ b₃ e₂))))
    | inl e₂ ↦ elim (Bool-cases (strncmp_differs b₁ b₃ n)) [
      | inr e₃ ↦ rw (e₁, e₂, e₃) (kept (inr (inr (differs-Agree n b₁ b₃ e₃))))
      | inl e₃ ↦
          rw (e₁, e₂, e₃)
            (lost (differs-verdict n b₁ b₂ e₁) (differs-verdict n b₂ b₃ e₂)
              (differs-verdict n b₁ b₃ e₃))
    ]
  ]
]
