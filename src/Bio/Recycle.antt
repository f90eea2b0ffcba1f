-- ===== src/Bio/Recycle.antt =====
-- The second loop of `bget`: a free buffer is given to a sector that has none.
use mathlib.Core.Path.{subst₂, ap₂}
use operation_system_project.Prelude.{
  ℕ, ◌≡◌, ◌≢◌, refl, sym, ◌∙◌, true, false, ◌&&◌, Bool-cases, inl, inr, List, [], ◌∷◌, Option, none,
  some, All, ◌==◌, if◌then◌else◌, arith,
}
use operation_system_project.Bio.{Buf, Disk, no_dev, holds, find, given, recycle_at, recycle}
use operation_system_project.Bio.View.{seen, view, IsClean, AreDistinct}

pub head_none : (d s : ℕ) (c : Buf) (bs : List Buf) → find d s (c ∷ bs) ≡ none → holds d s c ≡ false
unfolding find
head_none d s c bs e = ground arith

pub tail_none : (d s : ℕ) (c : Buf) (bs : List Buf) → find d s (c ∷ bs) ≡ none → find d s bs ≡ none
unfolding find
tail_none d s c bs e = ground arith

-- The buffer of index `i` is free and is given to a sector.
pub data Recycled (d s : ℕ) : List Buf → ℕ → List Buf → Type 0 where
  here : (b : Buf) (bs : List Buf) → b.busy ≡ false → Recycled d s (b ∷ bs) b.id (given d s b ∷ bs)
  there :
      {i : ℕ} {bs' : List Buf} (b : Buf) (bs : List Buf)
      → Recycled d s bs i bs'
      → Recycled d s (b ∷ bs) i (b ∷ bs')

abbrev pub IsRecycled : (d s : ℕ) → List Buf → Option (ℕ × List Buf) → Type 0
IsRecycled d s bs none = All (λ b. b.busy ≡ true) bs
IsRecycled d s bs (some (i, bs')) = Recycled d s bs i bs'

recycle_at-IsRecycled :
    (d s : ℕ) (b : Buf) (bs : List Buf) (o : Option (ℕ × List Buf))
    → IsRecycled d s bs o
    → IsRecycled d s (b ∷ bs) (recycle_at d s b bs o)
unfolding recycle_at
recycle_at-IsRecycled d s b bs (some (i, bs')) r = there b bs r
recycle_at-IsRecycled d s b bs none r = elim (Bool-cases b.busy) [
  | inl e ↦ simp e (refl, r)
  | inr e ↦ simp e (here b bs e)
]

pub recycle-IsRecycled : (d s : ℕ) (bs : List Buf) → IsRecycled d s bs (recycle d s bs)
unfolding recycle
recycle-IsRecycled d s [] = tt
recycle-IsRecycled d s (b ∷ bs) =
    recycle_at-IsRecycled d s b bs (recycle d s bs) (recycle-IsRecycled d s bs)

swap_test : (d s : ℕ) (b : Buf) → holds d s b ≡ false → ((d == b.dev) && (s == b.sector)) ≡ false
swap_test d s b h = ground arith

both_eq : (a b c d : ℕ) → ((a == b) && (c == d)) ≡ true → (a ≡ b) × (c ≡ d)
both_eq a b c d h = ground arith

pub key_of : (d s : ℕ) (b : Buf) → holds d s b ≡ true → (b.dev ≡ d) × (b.sector ≡ s)
key_of d s b h = ground arith

seen-given :
    (disk : Disk) (d' s' d s : ℕ) (b : Buf)
    → seen disk d' s' (if (d == d') && (s == s') then some (given d s b) else none) ≡ disk d' s'
seen-given disk d' s' d s b = ground arith

pub clean_seen :
    (disk : Disk) (d s : ℕ) (b : Buf)
    → holds d s b ≡ true
    → b.busy ≡ false
    → IsClean disk b
    → seen disk d s (some b) ≡ disk d s
clean_seen disk d s b h e c = elim (Bool-cases b.valid) [
  | inl v ↦ simp v (c e v ∙ ap₂ disk (key_of d s b h).0 (key_of d s b h).1)
  | inr v ↦ simp v
]

module _ (d s : ℕ) (known : d ≢ no_dev) where
  -- The sector has the buffer now.
  pub Recycled-find :
      {i : ℕ} {bs bs' : List Buf}
      → Recycled d s bs i bs'
      → find d s bs ≡ none
      → (b : Buf) × (find d s bs' ≡ some b) × (b.id ≡ i) × (b.busy ≡ true) × (b.valid ≡ false)
  unfolding find
  Recycled-find (here b bs e) n = (given d s b, ground arith, refl, refl, refl)
  Recycled-find (there b bs r) n =
      let (x, e, q, f, v) = Recycled-find r (tail_none d s b bs n) in
      let out = head_none d s b bs n in (x, ground arith, q, f, v)

  pub Recycled-All :
      {i : ℕ} {bs bs' : List Buf} (P : Buf → Type 0)
      → Recycled d s bs i bs'
      → All P bs
      → ((b : Buf) → P b → P (given d s b))
      → All P bs'
  Recycled-All P (here b bs e) a h = (h b a.0, a.1)
  Recycled-All P (there b bs r) a h = (a.0, Recycled-All P r a.1 h)

  -- Other sectors can only lose their buffer.
  Recycled-none :
      {i : ℕ} {bs bs' : List Buf} (d' s' : ℕ)
      → Recycled d s bs i bs'
      → ((d == d') && (s == s')) ≡ false
      → find d' s' bs ≡ none
      → find d' s' bs' ≡ none
  unfolding find
  Recycled-none d' s' (here b bs e) o n = ground arith
  Recycled-none d' s' (there b bs r) o n = ground (arith, Recycled-none d' s' r o)

  pub Recycled-AreDistinct :
      {i : ℕ} {bs bs' : List Buf}
      → Recycled d s bs i bs'
      → find d s bs ≡ none
      → AreDistinct bs
      → AreDistinct bs'
  Recycled-AreDistinct (here b bs e) n u = (u.0, (λ _. tail_none d s b bs n), u.2)
  Recycled-AreDistinct (there b bs r) n u = (
    Recycled-All (λ c. c.id ≢ b.id) r u.0 (λ c p. p),
    (λ k. Recycled-none b.dev b.sector r (swap_test d s b (head_none d s b bs n)) (u.1 k)),
    Recycled-AreDistinct r (tail_none d s b bs n) u.2,
  )

  -- No sector changes.
  pub Recycled-view :
      {i : ℕ} {bs bs' : List Buf} (disk : Disk) (d' s' : ℕ)
      → d' ≢ no_dev
      → Recycled d s bs i bs'
      → find d s bs ≡ none
      → AreDistinct bs
      → All (IsClean disk) bs
      → view disk bs' d' s' ≡ view disk bs d' s'
  unfolding find
  Recycled-view disk d' s' k (here b bs e) n u a = elim (Bool-cases (holds d' s' b)) [
    | inl held ↦
        let none_left =
          subst₂ (λ x y. find x y bs ≡ none) (key_of d' s' b held).0 (key_of d' s' b held).1
            (u.1 (λ p. k (sym (key_of d' s' b held).0 ∙ p))) in
        rw (held, none_left)
          (seen-given disk d' s' d s b ∙ sym (clean_seen disk d' s' b held e a.0))
    | inr other ↦ elim (Bool-cases ((d == d') && (s == s'))) [
      | inl now ↦
          let none_before =
            subst₂ (λ x y. find x y bs ≡ none) (both_eq d d' s s' now).0 (both_eq d d' s s' now).1
              (tail_none d s b bs n) in
          rw (other, now, none_before)
      | inr away ↦ rw (other, away)
    ]
  ]
  Recycled-view disk d' s' k (there b bs r) n u a =
      let ih = Recycled-view disk d' s' k r (tail_none d s b bs n) u.2 a.1 in ground arith
