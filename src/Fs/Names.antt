-- ===== src/Fs/Names.antt =====
-- Names in paths and directories: `namecmp` and `skipelem`, kernel/fs.c of "triple file system".
-- A string is the list of its bytes before the byte 0, and so is a path.
use operation_system_project.Prelude.{
  ℕ, zero, suc, ◌+◌, ◌≡◌, ◌≢◌, ◌<◌, ◌≤◌, ◌-◌, ◌⊎◌, inl, inr, sym, subst, ap, get_or, false, leb→le,
  Bool-cases, append_assoc, length-append, length-take, refl, ◌∙◌, Bool, List, [], ◌∷◌, ◌++◌,
  Option, none, some, All, take, drop, replicate, length, leb, ◌==◌, if◌then◌else◌, arith,
}
use operation_system_project.Str.{strncmp_differs}

-- DIRSIZ of fs.h.
abbrev pub dir_size : ℕ
dir_size = 14

abbrev pub slash : ℕ
slash = 47

-- Whether `namecmp` is not 0.
unfoldable pub namecmp_differs : List ℕ → List ℕ → Bool
namecmp_differs s t = strncmp_differs s t dir_size

-- `while(*path == '/') path++`
unfoldable pub skip_slashes : List ℕ → List ℕ
skip_slashes [] = []
skip_slashes (c ∷ p) = if c == slash then skip_slashes p else c ∷ p

-- The bytes that `while(*path != '/' && *path != 0) path++` passes, and what it leaves.
unfoldable pub first_elem : List ℕ → List ℕ
first_elem [] = []
first_elem (c ∷ p) = if c == slash then [] else c ∷ first_elem p

unfoldable pub behind_elem : List ℕ → List ℕ
behind_elem [] = []
behind_elem (c ∷ p) = if c == slash then c ∷ p else behind_elem p

-- The buffer `name` after the element is copied.
unfoldable pub put_name : (elem name : List ℕ) → List ℕ
put_name e name =
    if leb dir_size (length e)
    then take dir_size e ++ drop dir_size name
    else e ++ (0 ∷ drop (length e + 1) name)

-- `skipelem` past the leading slashes.
unfoldable pub take_elem : (path name : List ℕ) → Option (List ℕ × List ℕ)
take_elem [] name = none
take_elem (c ∷ p) name =
    some (skip_slashes (behind_elem (c ∷ p)), put_name (first_elem (c ∷ p)) name)

-- The rest of the path and the buffer `name`; `none` stands for 0.
unfoldable pub skipelem : (path name : List ℕ) → Option (List ℕ × List ℕ)
skipelem path name = take_elem (skip_slashes path) name

-- The byte is not a slash.
abbrev pub IsPlain : ℕ → Type 0
IsPlain c = c ≢ slash

-- What follows an element and `k` slashes: nothing, or, if there is a slash, the next element.
abbrev pub IsRest : (k : ℕ) → List ℕ → Type 0
IsRest k [] = Unit
IsRest k (c ∷ p) = IsPlain c × (0 < k)

skip_slashes-replicate :
    (k : ℕ) (p : List ℕ) → skip_slashes (replicate k slash ++ p) ≡ skip_slashes p
unfolding skip_slashes
skip_slashes-replicate zero p = refl
skip_slashes-replicate (suc k) p = skip_slashes-replicate k p

skip_slashes-plain : (c : ℕ) (p : List ℕ) → IsPlain c → skip_slashes (c ∷ p) ≡ c ∷ p
unfolding skip_slashes
skip_slashes-plain c p h = ground arith

skip_slashes-rest :
    (k : ℕ) (rest : List ℕ) → IsRest k rest → skip_slashes (replicate k slash ++ rest) ≡ rest
unfolding skip_slashes
skip_slashes-rest k [] h = skip_slashes-replicate k []
skip_slashes-rest k (c ∷ p) h = skip_slashes-replicate k (c ∷ p) ∙ skip_slashes-plain c p h.0

first_elem-append :
    (e : List ℕ) (k : ℕ) (rest : List ℕ)
    → All IsPlain e
    → IsRest k rest
    → first_elem (e ++ (replicate k slash ++ rest)) ≡ e
unfolding first_elem
first_elem-append [] zero [] h t = refl
first_elem-append [] zero (c ∷ p) h t = absurd (omega (arith, t.1))
first_elem-append [] (suc k) rest h t = refl
first_elem-append (c ∷ e) k rest h t =
    let ih = first_elem-append e k rest h.1 t in let plain = h.0 in ground arith

behind_elem-append :
    (e : List ℕ) (k : ℕ) (rest : List ℕ)
    → All IsPlain e
    → IsRest k rest
    → behind_elem (e ++ (replicate k slash ++ rest)) ≡ replicate k slash ++ rest
unfolding behind_elem
behind_elem-append [] zero [] h t = refl
behind_elem-append [] zero (c ∷ p) h t = absurd (omega (arith, t.1))
behind_elem-append [] (suc k) rest h t = refl
behind_elem-append (c ∷ e) k rest h t =
    let ih = behind_elem-append e k rest h.1 t in let plain = h.0 in ground arith

-- Byte for byte, the buffer `name` after the element is copied: the first 14 bytes of the element,
-- a byte 0 behind an element of fewer, and what was there before.
pub record IsCopied (e name buf : List ℕ) : Type 0 where
  pub element : (i : ℕ) → i < length e → i < dir_size → get_or buf i 0 ≡ get_or e i 0
  pub ended : length e < dir_size → get_or buf (length e) 0 ≡ 0
  pub behind : (i : ℕ) → (length e < i) ⊎ (dir_size ≤ i) → get_or buf i 0 ≡ get_or name i 0

get_or-append_left :
    (xs ys : List ℕ) (i : ℕ) → i < length xs → get_or (xs ++ ys) i 0 ≡ get_or xs i 0
get_or-append_left [] ys i h = elim h [ ]
get_or-append_left (x ∷ xs) ys zero h = refl
get_or-append_left (x ∷ xs) ys (suc i) h = get_or-append_left xs ys i (omega (arith, h))

get_or-append_right : (xs ys : List ℕ) (i : ℕ) → get_or (xs ++ ys) (length xs + i) 0 ≡ get_or ys i 0
get_or-append_right [] ys i = ap (λ j. get_or ys j 0) (omega arith)
get_or-append_right (x ∷ xs) ys i =
    ap (λ j. get_or (x ∷ xs ++ ys) j 0) (plus_suc (length xs) i) ∙ get_or-append_right xs ys i
  where
    plus_suc : (n i : ℕ) → suc n + i ≡ suc (n + i)
    plus_suc n i = omega arith

get_or-drop : (n : ℕ) (xs : List ℕ) (i : ℕ) → get_or (drop n xs) i 0 ≡ get_or xs (n + i) 0
get_or-drop zero xs i = ap (λ j. get_or xs j 0) (omega arith)
get_or-drop (suc n) [] i = refl
get_or-drop (suc n) (x ∷ xs) i = get_or-drop n xs i ∙ ap (λ j. get_or (x ∷ xs) j 0) (plus_suc n i)
  where
    plus_suc : (n i : ℕ) → suc (n + i) ≡ suc n + i
    plus_suc n i = omega arith

get_or-take : (n : ℕ) (xs : List ℕ) (i : ℕ) → i < n → get_or (take n xs) i 0 ≡ get_or xs i 0
get_or-take zero xs i h = elim h [ ]
get_or-take (suc n) [] i h = refl
get_or-take (suc n) (x ∷ xs) zero h = refl
get_or-take (suc n) (x ∷ xs) (suc i) h = get_or-take n xs i (omega (arith, h))

-- A part of the old buffer behind what has been put in front.
get_or-behind :
    (front name : List ℕ) (i : ℕ)
    → length front ≤ i
    → get_or (front ++ drop (length front) name) i 0 ≡ get_or name i 0
get_or-behind front name i h =
    ap (λ j. get_or (front ++ drop (length front) name) j 0) back
    ∙ (get_or-append_right front (drop (length front) name) (i - length front)
        ∙ (get_or-drop (length front) name (i - length front)
            ∙ ap (λ j. get_or name j 0) (sym back)))
  where
    back : i ≡ length front + (i - length front)
    back = omega (arith, h)

short-IsCopied :
    (e name : List ℕ) → length e < dir_size → IsCopied e name (e ++ (0 ∷ drop (length e + 1) name))
short-IsCopied e name short = record {
  element = λ i h l. get_or-append_left e _ i h;
  ended = λ h.
      ap (λ j. get_or (e ++ (0 ∷ drop (length e + 1) name)) j 0) (omega arith)
      ∙ get_or-append_right e (0 ∷ drop (length e + 1) name) 0;
  behind = λ i h.
      subst (λ buf. get_or buf i 0 ≡ get_or name i 0)
        (append_assoc e (0 ∷ []) (drop (length e + 1) name))
        (subst (λ n. get_or ((e ++ (0 ∷ [])) ++ drop n name) i 0 ≡ get_or name i 0)
          (length-append e (0 ∷ [])) (get_or-behind (e ++ (0 ∷ [])) name i (past i h)));
}
  where
    past : (i : ℕ) → (length e < i) ⊎ (dir_size ≤ i) → length (e ++ (0 ∷ [])) ≤ i
    past i (inl h) = omega (arith, h, length-append e (0 ∷ []))
    past i (inr h) = omega (arith, h, short, length-append e (0 ∷ []))

long-IsCopied :
    (e name : List ℕ)
    → dir_size ≤ length e
    → IsCopied e name (take dir_size e ++ drop dir_size name)
long-IsCopied e name long = record {
  element = λ i h l.
      get_or-append_left (take dir_size e) (drop dir_size name) i (subst (λ n. i < n) (sym full) l)
      ∙ get_or-take dir_size e i l;
  ended = λ h. absurd (omega (arith, h, long));
  behind = λ i h.
      subst (λ n. get_or (take dir_size e ++ drop n name) i 0 ≡ get_or name i 0) full
        (get_or-behind (take dir_size e) name i (subst (λ n. n ≤ i) (sym full) (past i h)));
}
  where
    full : length (take dir_size e) ≡ dir_size
    full = length-take dir_size e ∙ omega (arith, long)

    past : (i : ℕ) → (length e < i) ⊎ (dir_size ≤ i) → dir_size ≤ i
    past i (inl h) = omega (arith, h, long)
    past i (inr h) = h

put_name-IsCopied : (e name : List ℕ) → IsCopied e name (put_name e name)
unfolding put_name
put_name-IsCopied e name = elim (Bool-cases (leb dir_size (length e))) [
  | inl t ↦ rw t (long-IsCopied e name (leb→le dir_size (length e) t))
  | inr t ↦ rw t (short-IsCopied e name (short (length e) t))
]
  where
    short : (n : ℕ) → leb dir_size n ≡ false → n < dir_size
    short n t = ground arith

-- `skipelem` passes any slashes, copies the element that follows to the name buffer, its first 14
-- bytes, with a byte 0 behind it if it has fewer, and leaves the rest of the buffer as it was and
-- the path that begins with the next element, or the empty path if there is none.
pub skipelem-elem :
    (i c : ℕ) (e : List ℕ) (k : ℕ) (rest name : List ℕ)
    → All IsPlain (c ∷ e)
    → IsRest k rest
    → (buf : List ℕ) × (skipelem
          (replicate i slash ++ ((c ∷ e) ++ (replicate k slash ++ rest)))
          name
        ≡ some (rest, buf))
      × IsCopied (c ∷ e) name buf
unfolding skipelem take_elem
skipelem-elem i c e k rest name h t = (
  put_name (c ∷ e) name,
  rw (
    skip_slashes-replicate i ((c ∷ e) ++ (replicate k slash ++ rest)),
    skip_slashes-plain c (e ++ (replicate k slash ++ rest)) h.0,
    first_elem-append (c ∷ e) k rest h t,
    behind_elem-append (c ∷ e) k rest h t,
    skip_slashes-rest k rest t,
  ),
  put_name-IsCopied (c ∷ e) name,
)
