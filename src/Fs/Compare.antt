-- ===== src/Fs/Compare.antt =====
-- When `namecmp` takes the name of a path element for the name of a directory entry.
use operation_system_project.Prelude.{
  ℕ, zero, suc, ◌+◌, ◌≡◌, ◌≢◌, ◌≤◌, refl, Bool, true, false, List, [], ◌∷◌, ◌++◌, All, take, drop,
  length, leb, arith, ◌↔◌,
}
use operation_system_project.Str.{strncmp_differs, strncpy}
use operation_system_project.Fs.Names.{dir_size, namecmp_differs, put_name}

-- The byte does not end a string.
abbrev pub IsByte : ℕ → Type 0
IsByte c = c ≢ 0

-- The first `n` bytes of an array are those of a string, or are those up to its byte 0.
abbrev Spells : (n : ℕ) (e d : List ℕ) → Type 0
Spells zero e d = Unit
Spells (suc n) [] [] = ⊥
Spells (suc n) [] (x ∷ d) = x ≡ 0
Spells (suc n) (c ∷ e) [] = ⊥
Spells (suc n) (c ∷ e) (x ∷ d) = (x ≡ c) × IsByte c × Spells n e d

strncmp-Spells :
    (n : ℕ) (e e' d d' : List ℕ)
    → Spells n e d
    → Spells n e' d'
    → (strncmp_differs d d' n ≡ false) ↔ (take n e ≡ take n e')
unfolding strncmp_differs
strncmp-Spells zero e e' d d' s s' = (λ _. refl, λ _. refl)
strncmp-Spells (suc n) [] [] [] d' s s' = elim s [ ]
strncmp-Spells (suc n) [] [] (x ∷ d) [] s s' = elim s' [ ]
strncmp-Spells (suc n) [] [] (x ∷ d) (y ∷ d') s s' = ground arith
strncmp-Spells (suc n) [] (c ∷ e') [] d' s s' = elim s [ ]
strncmp-Spells (suc n) [] (c ∷ e') (x ∷ d) [] s s' = elim s' [ ]
strncmp-Spells (suc n) [] (c ∷ e') (x ∷ d) (y ∷ d') s s' = ground arith
strncmp-Spells (suc n) (c ∷ e) [] [] d' s s' = elim s [ ]
strncmp-Spells (suc n) (c ∷ e) [] (x ∷ d) [] s s' = elim s' [ ]
strncmp-Spells (suc n) (c ∷ e) [] (x ∷ d) (y ∷ d') s s' = ground arith
strncmp-Spells (suc n) (c ∷ e) (c' ∷ e') [] d' s s' = elim s [ ]
strncmp-Spells (suc n) (c ∷ e) (c' ∷ e') (x ∷ d) [] s s' = elim s' [ ]
strncmp-Spells (suc n) (c ∷ e) (c' ∷ e') (x ∷ d) (y ∷ d') s s' =
    let ih = strncmp-Spells n e e' d d' s.2 s'.2 in
    let forward = ih.0 in
    let backward = ih.1 in let x_is = s.0 in let c_byte = s.1 in let y_is = s'.0 in ground arith

strncpy-Spells : (n : ℕ) (e : List ℕ) → All IsByte e → Spells n e (strncpy e n)
unfolding strncpy
strncpy-Spells zero e h = tt
strncpy-Spells (suc n) [] h = refl
strncpy-Spells (suc n) (c ∷ e) h = (refl, h.0, strncpy-Spells n e h.1)

whole-Spells : (n : ℕ) (e x : List ℕ) → All IsByte e → Spells n e (e ++ (0 ∷ x))
whole-Spells zero e x h = tt
whole-Spells (suc n) [] x h = refl
whole-Spells (suc n) (c ∷ e) x h = (refl, h.0, whole-Spells n e x h.1)

cut-Spells : (n : ℕ) (e x : List ℕ) → All IsByte e → n ≤ length e → Spells n e (take n e ++ x)
cut-Spells zero e x h l = tt
cut-Spells (suc n) [] x h l = elim l [ ]
cut-Spells (suc n) (c ∷ e) x h l = (refl, h.0, cut-Spells n e x h.1 (omega arith))

leb-true : (a b : ℕ) → leb a b ≡ true → a ≤ b
leb-true a b e = ground arith

put_name-Spells : (e name : List ℕ) → All IsByte e → Spells dir_size e (put_name e name)
unfolding put_name
put_name-Spells e name h = by_length (leb dir_size (length e)) refl
  where
    by_length : (b : Bool) → leb dir_size (length e) ≡ b → Spells dir_size e (put_name e name)
    by_length true long =
        rw long (cut-Spells dir_size e (drop dir_size name) h (leb-true dir_size (length e) long))
    by_length false short = rw short (whole-Spells dir_size e (drop (length e + 1) name) h)

-- A path element in the name buffer and a directory entry compare as equal exactly if their names
-- have the same first 14 bytes, whatever the buffer held before.
pub namecmp_iff :
    (e e' name : List ℕ)
    → All IsByte e
    → All IsByte e'
    → (namecmp_differs (put_name e name) (strncpy e' dir_size) ≡ false)
      ↔ (take dir_size e ≡ take dir_size e')
unfolding namecmp_differs
namecmp_iff e e' name h h' =
    strncmp-Spells dir_size e e' _ _ (put_name-Spells e name h) (strncpy-Spells dir_size e' h')
