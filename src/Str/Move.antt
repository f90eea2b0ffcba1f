-- ===== src/Str/Move.antt =====
-- Memory routines of kernel/string.c of "triple file system": memset, memcmp, memmove and memcpy,
-- over a memory that is a function from addresses to bytes.
use native.Mathlib.Decide.{ℕ_discrete}
use operation_system_project.Prelude.{
  ℕ, zero, suc, ◌+◌, ◌≡◌, ◌≢◌, ◌≤◌, ◌<◌, refl, sym, ap, ◌∙◌, ◌⊎◌, inl, inr, Bool, true, false,
  Bool-cases, not, ◌&&◌, ltb, ◌==◌, if◌then◌else◌, arith,
}

abbrev pub Memory : Type 0
Memory = ℕ → ℕ

abbrev pub store : Memory → ℕ → ℕ → Memory
store m a v b = if b == a then v else m b

unfoldable pub memset : Memory → (dst c n : ℕ) → Memory
memset m dst c zero = m
memset m dst c (suc n) = memset (store m dst c) (dst + 1) c n

-- Whether `memcmp` is not 0.
unfoldable pub memcmp_differs : Memory → (v₁ v₂ n : ℕ) → Bool
memcmp_differs m v₁ v₂ zero = false
memcmp_differs m v₁ v₂ (suc n) =
    let rest = memcmp_differs m (v₁ + 1) (v₂ + 1) n in if not (m v₁ == m v₂) then true else rest

-- `while(n-- > 0) *d++ = *s++`
unfoldable pub copy_up : Memory → (d s n : ℕ) → Memory
copy_up m d s zero = m
copy_up m d s (suc n) = copy_up (store m d (m s)) (d + 1) (s + 1) n

-- `while(n-- > 0) *--d = *--s` from the ends `d + n` and `s + n`.
unfoldable pub copy_down : Memory → (d s n : ℕ) → Memory
copy_down m d s zero = m
copy_down m d s (suc n) = copy_down (store m (d + n) (m (s + n))) d s n

unfoldable pub memmove : Memory → (dst src n : ℕ) → Memory
unfolding copy_up copy_down
memmove m dst src n =
    if ltb src dst && ltb dst (src + n) then copy_down m dst src n else copy_up m dst src n

unfoldable pub memcpy : Memory → (dst src n : ℕ) → Memory
unfolding memmove
memcpy m dst src n = memmove m dst src n

-- The block of `n` bytes at `d` has the bytes that stood at `s`, and nothing else has changed.
pub record IsMoved (m m' : Memory) (d s n : ℕ) : Type 0 where
  pub inside : (i : ℕ) → i < n → m' (d + i) ≡ m (s + i)
  pub outside : (a : ℕ) → (a < d) ⊎ (d + n ≤ a) → m' a ≡ m a

store_other : (m : Memory) (a v b : ℕ) → b ≢ a → store m a v b ≡ m b
store_other m a v b h = ground arith

store_self : (m : Memory) (a v : ℕ) → store m a v a ≡ v
store_self m a v = ground arith

add_zero : (a : ℕ) → a + 0 ≡ a
add_zero a = omega arith

shift : (a i : ℕ) → a + suc i ≡ a + 1 + i
shift a i = omega arith

apart : (d s n i : ℕ) → (d ≤ s) ⊎ (s + suc n ≤ d) → suc i < suc n → s + 1 + i ≢ d
apart d s n i (inl h) l = λ e. omega (arith, e)
apart d s n i (inr h) l = λ e. omega (arith, e)

next_apart : (d s n : ℕ) → (d ≤ s) ⊎ (s + suc n ≤ d) → (d + 1 ≤ s + 1) ⊎ (s + 1 + n ≤ d + 1)
next_apart d s n (inl h) = inl (omega arith)
next_apart d s n (inr h) = inr (omega arith)

later_outside : (d n a : ℕ) → (a < d) ⊎ (d + suc n ≤ a) → (a < d + 1) ⊎ (d + 1 + n ≤ a)
later_outside d n a (inl h) = inl (omega arith)
later_outside d n a (inr h) = inr (omega arith)

not_first : (d n a : ℕ) → (a < d) ⊎ (d + suc n ≤ a) → a ≢ d
not_first d n a (inl h) = λ e. omega (arith, e)
not_first d n a (inr h) = λ e. omega (arith, e)

shorter_outside : (d n a : ℕ) → (a < d) ⊎ (d + suc n ≤ a) → (a < d) ⊎ (d + n ≤ a)
shorter_outside d n a (inl h) = inl h
shorter_outside d n a (inr h) = inr (omega arith)

not_last : (d n a : ℕ) → (a < d) ⊎ (d + suc n ≤ a) → a ≢ d + n
not_last d n a (inl h) = λ e. omega (arith, e)
not_last d n a (inr h) = λ e. omega (arith, e)

-- One more byte at the front.
up_inside :
    (m m' : Memory) (d s n : ℕ)
    → (d ≤ s) ⊎ (s + suc n ≤ d)
    → IsMoved (store m d (m s)) m' (d + 1) (s + 1) n
    → (i : ℕ) → i < suc n
    → m' (d + i) ≡ m (s + i)
up_inside m m' d s n h k zero l =
    ap m' (add_zero d)
    ∙ k.outside d (inl (omega arith))
    ∙ store_self m d (m s)
    ∙ ap m (sym (add_zero s))
up_inside m m' d s n h k (suc i) l =
    ap m' (shift d i)
    ∙ k.inside i (omega arith)
    ∙ store_other m d (m s) (s + 1 + i) (apart d s n i h l)
    ∙ ap m (sym (shift s i))

copy_up-IsMoved :
    (m : Memory) (d s n : ℕ) → (d ≤ s) ⊎ (s + n ≤ d) → IsMoved m (copy_up m d s n) d s n
unfolding copy_up
copy_up-IsMoved m d s zero h = record { inside = λ i l. elim l [ ]; outside = λ a o. refl }
copy_up-IsMoved m d s (suc n) h =
    let ih = copy_up-IsMoved (store m d (m s)) (d + 1) (s + 1) n (next_apart d s n h) in
    record {
      inside = up_inside m _ d s n h ih;
      outside =
          λ a o. ih.outside a (later_outside d n a o) ∙ store_other m d (m s) a (not_first d n a o);
    }

below_last : (i n : ℕ) → i ≢ n → i < suc n → i < n
below_last i n e l = ground arith

-- One more byte at the end.
down_inside :
    (m m' : Memory) (d s n : ℕ)
    → s < d
    → IsMoved (store m (d + n) (m (s + n))) m' d s n
    → (i : ℕ) → i < suc n
    → m' (d + i) ≡ m (s + i)
down_inside m m' d s n h k i l = elim (ℕ_discrete i n) [
  | yes e ↦ rw e (k.outside (d + n) (inr (omega arith)) ∙ store_self m (d + n) (m (s + n)))
  | no e ↦
      k.inside i (below_last i n e l)
      ∙ store_other m (d + n) (m (s + n)) (s + i) (λ q. omega (arith, q, below_last i n e l))
]

copy_down-IsMoved : (m : Memory) (d s n : ℕ) → s < d → IsMoved m (copy_down m d s n) d s n
unfolding copy_down
copy_down-IsMoved m d s zero h = record { inside = λ i l. elim l [ ]; outside = λ a o. refl }
copy_down-IsMoved m d s (suc n) h =
    let ih = copy_down-IsMoved (store m (d + n) (m (s + n))) d s n h in
    record {
      inside = down_inside m _ d s n h ih;
      outside = λ a o.
          ih.outside a (shorter_outside d n a o)
          ∙ store_other m (d + n) (m (s + n)) a (not_last d n a o);
    }

no_overlap : (d s n : ℕ) → (ltb s d && ltb d (s + n)) ≡ false → (d ≤ s) ⊎ (s + n ≤ d)
no_overlap d s n e = elim (Bool-cases (ltb s d)) [
  | inl b ↦ inr (ground arith)
  | inr b ↦ inl (ground arith)
]

-- `memmove` copies a block as it was, also where the two overlap, and changes nothing else.
pub memmove-IsMoved : (m : Memory) (dst src n : ℕ) → IsMoved m (memmove m dst src n) dst src n
unfolding memmove
memmove-IsMoved m dst src n = elim (Bool-cases (ltb src dst && ltb dst (src + n))) [
  | inl e ↦ rw e (copy_down-IsMoved m dst src n (ground arith))
  | inr e ↦ rw e (copy_up-IsMoved m dst src n (no_overlap dst src n e))
]
