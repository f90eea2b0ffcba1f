-- ===== src/Bio/View.antt =====
-- The cache against the disk: what `bread` returns for a sector, and that it changes the contents
-- of no sector.
use mathlib.Core.Path.{subst}
use operation_system_project.Prelude.{
  ℕ, ◌≡◌, ◌≢◌, refl, sym, ◌∙◌, true, false, Bool-cases, inl, inr, List, [], ◌∷◌, Option, none, some,
  All, ◌==◌, if◌then◌else◌, arith,
}
use operation_system_project.Bio.{Buf, Disk, no_dev, holds, find, change}

-- What a sector holds, with or without a buffer.
abbrev pub seen : Disk → (dev sector : ℕ) → Option Buf → List ℕ
seen disk d s none = disk d s
seen disk d s (some b) = if b.valid then b.bytes else disk d s

abbrev pub view : Disk → List Buf → (dev sector : ℕ) → List ℕ
view disk bs d s = seen disk d s (find d s bs)

-- A valid buffer that nobody holds has the bytes of the disk.
abbrev pub IsClean : Disk → Buf → Type 0
IsClean disk b = b.busy ≡ false → b.valid ≡ true → b.bytes ≡ disk b.dev b.sector

-- Each index once, and at most one buffer for a sector.
abbrev pub AreDistinct : List Buf → Type 0
AreDistinct [] = Unit
AreDistinct (b ∷ bs) =
    All (λ c. c.id ≢ b.id) bs × (b.dev ≢ no_dev → find b.dev b.sector bs ≡ none) × AreDistinct bs

pub record IsCache (disk : Disk) (bs : List Buf) : Type 0 where
  pub distinct : AreDistinct bs
  pub clean : All (IsClean disk) bs

pub eq_self : (a : ℕ) → (a == a) ≡ true
eq_self a = ground arith

pub head_found :
    (d s : ℕ) (c : Buf) (bs : List Buf) (b : Buf)
    → holds d s c ≡ true
    → find d s (c ∷ bs) ≡ some b
    → c ≡ b
unfolding find
head_found d s c bs b h e = ground arith

pub tail_found :
    (d s : ℕ) (c : Buf) (bs : List Buf) (b : Buf)
    → holds d s c ≡ false
    → find d s (c ∷ bs) ≡ some b
    → find d s bs ≡ some b
unfolding find
tail_found d s c bs b h e = ground arith

pub find-All :
    (P : Buf → Type 0) (d s : ℕ) (bs : List Buf) (b : Buf) → All P bs → find d s bs ≡ some b → P b
unfolding find
find-All P d s [] b a e = absurd (cc)
find-All P d s (c ∷ bs) b a e = elim (Bool-cases (holds d s c)) [
  | inl here ↦ subst P (head_found d s c bs b here e) a.0
  | inr there ↦ find-All P d s bs b a.1 (tail_found d s c bs b there e)
]

module _ (g : Buf → Buf)
    (keeps : (b : Buf) → ((g b).id ≡ b.id) × ((g b).dev ≡ b.dev) × ((g b).sector ≡ b.sector)) where
  -- A change that keeps the sector of a buffer is seen at the first buffer of that sector alone.
  pub find-change :
      (d s : ℕ) (bs : List Buf) (b : Buf)
      → AreDistinct bs
      → find d s bs ≡ some b
      → find d s (change b.id g bs) ≡ some (g b)
  unfolding find change
  find-change d s [] b u e = cc
  find-change d s (c ∷ bs) b u e = elim (Bool-cases (holds d s c)) [
    | inl here ↦
        subst (λ x. find d s (change x.id g (c ∷ bs)) ≡ some (g x)) (head_found d s c bs b here e)
          (ground (arith, keeps c, eq_self c.id))
    | inr there ↦
        let later = tail_found d s c bs b there e in
        let other = find-All (λ x. x.id ≢ c.id) d s bs b u.0 later in
        ground (arith, find-change d s bs b u.2 later, other)
  ]

  pub find-change-none :
      (d s i : ℕ) (bs : List Buf) → find d s bs ≡ none → find d s (change i g bs) ≡ none
  unfolding find change
  find-change-none d s i [] e = refl
  find-change-none d s i (c ∷ bs) e = ground (arith, find-change-none d s i bs, keeps c)

  pub All-change :
      (i : ℕ) (P : Buf → Type 0) (bs : List Buf)
      → All P bs
      → ((b : Buf) → P b → P (g b))
      → All P (change i g bs)
  unfolding change
  All-change i P [] a h = tt
  All-change i P (c ∷ bs) a h = elim (Bool-cases (c.id == i)) [
    | inl e ↦ rw e (h c a.0, a.1)
    | inr e ↦ rw e (a.0, All-change i P bs a.1 h)
  ]

  same_key :
      (c : Buf) (bs : List Buf)
      → (c.dev ≢ no_dev → find c.dev c.sector bs ≡ none)
      → (g c).dev ≢ no_dev
      → find (g c).dev (g c).sector bs ≡ none
  same_key c bs h n = rw ((keeps c).1, (keeps c).2) (h (λ e. n ((keeps c).1 ∙ e)))

  pub change-AreDistinct : (i : ℕ) (bs : List Buf) → AreDistinct bs → AreDistinct (change i g bs)
  unfolding change
  change-AreDistinct i [] u = tt
  change-AreDistinct i (c ∷ bs) u = elim (Bool-cases (c.id == i)) [
    | inl e ↦
        rw e (subst (λ k. All (λ x. x.id ≢ k) bs) (sym (keeps c).0) u.0, same_key c bs u.1, u.2)
    | inr e ↦ rw e (
      All-change i (λ x. x.id ≢ c.id) bs u.0 (λ x n p. n (sym (keeps x).0 ∙ p)),
      (λ n. find-change-none c.dev c.sector i bs (u.1 n)),
      change-AreDistinct i bs u.2,
    )
  ]

  -- A change that shows the same of a sector leaves the view of all sectors.
  pub change-view :
      (disk : Disk) (d s i : ℕ) (bs : List Buf)
      → ((b : Buf) → holds d s b ≡ true → seen disk d s (some (g b)) ≡ seen disk d s (some b))
      → view disk (change i g bs) d s ≡ view disk bs d s
  unfolding find change
  change-view disk d s i [] h = refl
  change-view disk d s i (c ∷ bs) h = elim (Bool-cases (c.id == i)) [
    | inl e ↦ elim (Bool-cases (holds d s c)) [
      | inl held ↦ rw (e, (keeps c).1, (keeps c).2, held) (h c held)
      | inr other ↦ rw (e, (keeps c).1, (keeps c).2, other)
    ]
    | inr e ↦ elim (Bool-cases (holds d s c)) [
      | inl held ↦ rw (e, held)
      | inr other ↦ rw (e, other) (change-view disk d s i bs h)
    ]
  ]
