-- ===== src/Fs/RoundTrip.antt =====
-- A round of `writei` on a mirrored file and then `readi` of the same bytes.
use operation_system_project.Prelude.{
  ℕ, zero, suc, ◌+◌, ◌≡◌, ◌%◌, ◌^◌, ◌≤◌, false, refl, ◌<◌, List, [], ◌∷◌, ◌++◌, Option, none, some,
  if◌then◌else◌, Result, ok, arith, Returns, Returns-map, length, ◌∙◌, ap, take, drop,
}
use operation_system_project.Str.{strncmp_differs}
use operation_system_project.Fs.{Fs, M, block_size, t_mirrored, slice, splice, ◌>>◌, and_then}
use operation_system_project.Fs.Data.{no_diffs, compare_copies, mirror_base, all_differ, readi}
use operation_system_project.Fs.Write.{write_round}
use operation_system_project.Fs.Mirror.{IsMapped}
use operation_system_project.Fs.Copies.{put_copies, put_copies-IsWritten, write_round-put_copies}
use operation_system_project.Fs.OneBlock.{readi-flags_of}

strncmp_differs-same :
    (src xs ys : List ℕ) (n : ℕ)
    → n ≤ length src
    → strncmp_differs (take n src ++ xs) (take n src ++ ys) n ≡ false
unfolding strncmp_differs
strncmp_differs-same src xs ys zero h = refl
strncmp_differs-same [] xs ys (suc n) h = elim h [ ]
strncmp_differs-same (b ∷ src) xs ys (suc n) h =
    let ih = strncmp_differs-same src xs ys n (omega arith) in ground arith

take-take_append :
    (src xs : List ℕ) (n : ℕ) → n ≤ length src → take n (take n src ++ xs) ≡ take n src
take-take_append src xs zero h = refl
take-take_append [] xs (suc n) h = elim h [ ]
take-take_append (b ∷ src) xs (suc n) h = ap (λ t. b ∷ t) (take-take_append src xs n (omega arith))

Returns-after {ℓ} :
    {A B : Type 0} {P : B × Fs → Type ℓ} {r : Result (A × Fs)} {a : A} {s : Fs} (f : A → M B)
    → r ≡ ok (a, s)
    → Returns P (f a s)
    → Returns P (and_then r f)
Returns-after {P} f e p = rw e p

-- Copies that begin with the same `n` bytes are not found to differ.
agreeing :
    (n : ℕ) (src xs ys d₁ d₂ d₃ : List ℕ)
    → n ≤ length src
    → d₁ ≡ take n src ++ xs
    → d₂ ≡ take n src ++ ys
    → all_differ (compare_copies n no_diffs d₁ d₂ d₃) ≡ false
unfolding compare_copies
agreeing n src xs ys d₁ d₂ d₃ h e₁ e₂ = rw (e₁, e₂, strncmp_differs-same src xs ys n h)

at_start :
    (o n : ℕ) (src x d : List ℕ) → o ≡ 0 → d ≡ splice o n src x → d ≡ take n src ++ drop (o + n) x
at_start o n src x d e e' = e' ∙ ap (λ k. take k x ++ (take n src ++ drop (o + n) x)) e

-- What is read from three copies that the same bytes were put at the start of.
read_back :
    (o n : ℕ) (src x y z d₁ d₂ d₃ : List ℕ)
    → o ≡ 0
    → n ≤ length src
    → d₁ ≡ splice o n src x
    → d₂ ≡ splice o n src y
    → d₃ ≡ splice o n src z
    → (if all_differ (compare_copies n no_diffs d₁ d₂ d₃) then none else some (slice o n d₃))
      ≡ some (take n src)
read_back o n src x y z d₁ d₂ d₃ e h e₁ e₂ e₃ =
    rw
      (
        agreeing n src _ _ d₁ d₂ d₃ h (at_start o n src x d₁ e e₁) (at_start o n src y d₂ e e₂),
        at_start o n src z d₃ e e₃,
        e,
      )
      (ap some (take-take_append src (drop (0 + n) z) n h))

-- What a round of `writei` puts at the start of a block of a mirrored file, `readi` returns,
-- whatever the three copies were, if these are mapped by direct addresses, among the first 12, and
-- the bytes are one at least, a block at most, as many as the source has, and end within the file
-- and below 2 ^ 32.
pub readi-write_round :
    (balloc : M ℕ) (device : ℕ → Option (ℕ → M (Option (List ℕ)))) (s : Fs) (off n : ℕ)
    (src : List ℕ)
    → s.inode.kind ≡ t_mirrored
    → 0 < n
    → off % block_size ≡ 0
    → n ≤ block_size
    → n ≤ length src
    → off + n ≤ s.inode.logical_size
    → off + n < 2 ^ 32
    → IsMapped s.inode (mirror_base off)
    → Returns
        (λ r. r.0 ≡ some (take n src))
        ((write_round balloc off n src >> readi balloc device off n) s)
readi-write_round balloc device s off n src kind pos start fits enough inside small h =
    let s' = put_copies s (mirror_base off) (off % block_size) n src in
    let w = put_copies-IsWritten s (mirror_base off) (off % block_size) n src h in
    Returns-after _ (write_round-put_copies balloc s off n src h) (
      Returns-map
        (λ r e.
          e
          ∙ read_back _ n src _ _ _ _ _ _ start enough w.first.in_buffer w.second.in_buffer
              w.third.in_buffer)
        (readi-flags_of balloc device s' off n kind pos (omega arith) inside small h))
