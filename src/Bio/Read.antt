-- ===== src/Bio/Read.antt =====
-- `bread` and the contents of the sectors.
use mathlib.Core.Path.{subst, ap₂}
use operation_system_project.Prelude.{
  ◌>>=◌, ℕ, ◌≡◌, ◌≢◌, refl, sym, ap, ◌∙◌, Bool, true, Bool-cases, inl, inr, List, [], ◌∷◌, Option,
  none, some, All, Result, ok, panic, arith,
}
use operation_system_project.Bio.{
  Buf, Disk, no_dev, holds, find, change, given, recycle, Got, buffer, asleep, set_busy, recycled,
  bget_found, bget, read_in, read_got, bread,
}
use operation_system_project.Bio.View.{
  seen, view, IsClean, IsCache, head_found, tail_found, find-change, All-change, change-AreDistinct,
  change-view,
}
use operation_system_project.Bio.Recycle.{
  IsRecycled, recycle-IsRecycled, Recycled-find, Recycled-All, Recycled-AreDistinct, Recycled-view,
  key_of,
}

-- After `bread`: the sector's buffer is held, valid, and has the bytes that the sector had; the
-- cache is in order, and no sector has changed.
pub record IsRead (disk : Disk) (d s : ℕ) (bs : List Buf) (i : ℕ) (bs' : List Buf) : Type 0 where
  pub held : Buf
  pub at : find d s bs' ≡ some held
  pub named : held.id ≡ i
  pub busy : held.busy ≡ true
  pub valid : held.valid ≡ true
  pub bytes : held.bytes ≡ view disk bs d s
  pub kept : IsCache disk bs'
  pub same : (d' s' : ℕ) → d' ≢ no_dev → view disk bs' d' s' ≡ view disk bs d' s'

-- It waits for the holder of the sector's buffer, and panics if the sector has no buffer and
-- every buffer is held.
pub data IsGot (disk : Disk) (d s : ℕ) (bs : List Buf) : Result Got → Type 0 where
  got : (i : ℕ) (bs' : List Buf) → IsRead disk d s bs i bs' → IsGot disk d s bs (ok (buffer i bs'))
  waits : (b : Buf) → find d s bs ≡ some b → b.busy ≡ true → IsGot disk d s bs (ok (asleep b.id))
  no_buffers : find d s bs ≡ none → All (λ b. b.busy ≡ true) bs → IsGot disk d s bs panic

keeps_read :
    (disk : Disk) (b : Buf)
    → ((read_in disk b).id ≡ b.id)
      × ((read_in disk b).dev ≡ b.dev)
      × ((read_in disk b).sector ≡ b.sector)
keeps_read disk b = ground arith

keeps_busy :
    (f : Bool) (b : Buf)
    → ((set_busy f b).id ≡ b.id) × ((set_busy f b).dev ≡ b.dev) × ((set_busy f b).sector ≡ b.sector)
keeps_busy f b = (refl, refl, refl)

find-holds : (d s : ℕ) (bs : List Buf) (b : Buf) → find d s bs ≡ some b → holds d s b ≡ true
unfolding find
find-holds d s [] b e = cc
find-holds d s (c ∷ bs) b e = elim (Bool-cases (holds d s c)) [
  | inl here ↦ subst (λ x. holds d s x ≡ true) (head_found d s c bs b here e) here
  | inr there ↦ find-holds d s bs b (tail_found d s c bs b there e)
]

seen_bytes :
    (disk : Disk) (d s : ℕ) (b : Buf)
    → holds d s b ≡ true
    → (read_in disk b).bytes ≡ seen disk d s (some b)
seen_bytes disk d s b h = elim (Bool-cases b.valid) [
  | inl v ↦ simp v
  | inr v ↦ simp v (ap₂ disk (key_of d s b h).0 (key_of d s b h).1)
]

seen_read :
    (disk : Disk) (d s : ℕ) (b : Buf)
    → holds d s b ≡ true
    → seen disk d s (some (read_in disk b)) ≡ seen disk d s (some b)
seen_read disk d s b h = elim (Bool-cases b.valid) [
  | inl v ↦ simp v
  | inr v ↦ simp v (ap₂ disk (key_of d s b h).0 (key_of d s b h).1)
]

read_in-IsClean : (disk : Disk) (b : Buf) → IsClean disk b → IsClean disk (read_in disk b)
read_in-IsClean disk b c = elim (Bool-cases b.valid) [
  | inl v ↦ simp v (λ e w. c e v)
  | inr v ↦ simp v (λ e w. refl)
]

-- The read of `bread` into the buffer that `bget` gave, a valid one or not.
after_get :
    (disk : Disk) (d s : ℕ) (bs bs₁ : List Buf) (b : Buf)
    → IsCache disk bs₁
    → find d s bs₁ ≡ some b
    → b.busy ≡ true
    → ((d' s' : ℕ) → d' ≢ no_dev → view disk bs₁ d' s' ≡ view disk bs d' s')
    → d ≢ no_dev
    → IsRead disk d s bs b.id (change b.id (read_in disk) bs₁)
after_get disk d s bs bs₁ b c at busy same known = record {
  held = read_in disk b;
  at = find-change (read_in disk) (keeps_read disk) d s bs₁ b c.distinct at;
  named = (keeps_read disk b).0;
  busy = ground arith;
  valid = ground arith;
  bytes =
      seen_bytes disk d s b (find-holds d s bs₁ b at)
      ∙ sym (ap (seen disk d s) at)
      ∙ same d s known;
  kept = record {
    distinct = change-AreDistinct (read_in disk) (keeps_read disk) b.id bs₁ c.distinct;
    clean =
        All-change (read_in disk) (keeps_read disk) b.id (IsClean disk) bs₁ c.clean
          (read_in-IsClean disk);
  };
  same = λ d' s' k.
      change-view (read_in disk) (keeps_read disk) disk d' s' b.id bs₁ (seen_read disk d' s')
      ∙ same d' s' k;
}

claimed-IsClean : (disk : Disk) (b : Buf) → IsClean disk b → IsClean disk (set_busy true b)
claimed-IsClean disk b c = λ e v. cc

given-IsClean : (disk : Disk) (d s : ℕ) (b : Buf) → IsClean disk b → IsClean disk (given d s b)
given-IsClean disk d s b c = λ e v. cc

bread_found :
    (disk : Disk) (d s : ℕ) (bs : List Buf) (b : Buf)
    → IsCache disk bs
    → d ≢ no_dev
    → find d s bs ≡ some b
    → IsGot disk d s bs (bget_found d s bs (some b) >>= λ g. ok (read_got disk g))
unfolding bget_found read_got
bread_found disk d s bs b c known e = elim (Bool-cases b.busy) [
  | inl held ↦ simp held (waits b e held)
  | inr free ↦ simp free (
      got b.id _ (
        after_get disk d s bs (change b.id (set_busy true) bs) (set_busy true b)
          (record {
            distinct = change-AreDistinct (set_busy true) (keeps_busy true) b.id bs c.distinct;
            clean =
                All-change (set_busy true) (keeps_busy true) b.id (IsClean disk) bs c.clean
                  (claimed-IsClean disk);
          })
          (find-change (set_busy true) (keeps_busy true) d s bs b c.distinct e) refl
          (λ d' s' k.
            change-view (set_busy true) (keeps_busy true) disk d' s' b.id bs (λ x h. refl))
          known))
]

bread_fresh :
    (disk : Disk) (d s : ℕ) (bs : List Buf) (o : Option (ℕ × List Buf))
    → IsCache disk bs
    → d ≢ no_dev
    → find d s bs ≡ none
    → IsRecycled d s bs o
    → IsGot disk d s bs (recycled o >>= λ g. ok (read_got disk g))
unfolding recycled read_got
bread_fresh disk d s bs none c known e r = no_buffers e r
bread_fresh disk d s bs (some (i, bs')) c known e r =
    let (b, at, named, busy, invalid) = Recycled-find d s known r e in
    subst (λ j. IsGot disk d s bs (ok (buffer j (change j (read_in disk) bs')))) named
      (got b.id _ (
        after_get disk d s bs bs' b
          (record {
            distinct = Recycled-AreDistinct d s known r e c.distinct;
            clean = Recycled-All d s known (IsClean disk) r c.clean (given-IsClean disk d s);
          })
          at busy (λ d' s' k. Recycled-view d s known disk d' s' k r e c.distinct c.clean) known))

bget-IsGot :
    (disk : Disk) (d s : ℕ) (bs : List Buf) (o : Option Buf)
    → IsCache disk bs
    → d ≢ no_dev
    → find d s bs ≡ o
    → IsGot disk d s bs (bget_found d s bs o >>= λ g. ok (read_got disk g))
unfolding bget_found
bget-IsGot disk d s bs none c known e =
    bread_fresh disk d s bs (recycle d s bs) c known e (recycle-IsRecycled d s bs)
bget-IsGot disk d s bs (some b) c known e = bread_found disk d s bs b c known e

-- If every buffer that is valid and free agrees with the disk, and no index and no sector has two
-- buffers, a `bread` of a known device returns the sector's buffer, held and valid, with the bytes
-- that the sector had; the cache stays so, and no sector changes. It waits only for the holder of
-- the sector's buffer, and panics only if the sector has none and all buffers are held.
pub bread-IsGot :
    (disk : Disk) (d s : ℕ) (bs : List Buf)
    → IsCache disk bs
    → d ≢ no_dev
    → IsGot disk d s bs (bread disk d s bs)
unfolding bread bget
bread-IsGot disk d s bs c known = bget-IsGot disk d s bs (find d s bs) c known refl
