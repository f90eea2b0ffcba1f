-- ===== src/Server/Pending.antt =====
-- The requests that wait in the buffer: none is lost, and the one with the smallest file is next.
use mathlib.Core.Path.{subst}
use operation_system_project.Prelude.{
  ℕ, zero, suc, ◌+◌, ◌≡◌, ◌≢◌, ◌<◌, ◌≤◌, refl, sym, ◌∙◌, inl, inr, Bool-cases, ==_iff, Bool, true,
  false, List, [], ◌∷◌, Option, none, some, length, get_or, modify, ◌==◌, if◌then◌else◌, arith,
  length-modify,
}
use operation_system_project.Prelude.Int.{ℤ}
use operation_system_project.Server.Smallest.{
  IsAt, AllSized, AllAtLeast, AllFree, IsFound, nothing, found, scan-IsFound,
}
use operation_system_project.Server.Valid.{IsValidAt, scan-IsValidAt}
use operation_system_project.Server.{
  Request, Slot, Buffer, buffer_size, put_slots, has_room, put, Best, empty_slot, clear_slot,
  take_at, get, producer, consumer, scan, no_best,
}

-- How many waiting requests pass a test.
abbrev pub waiting : (Request → Bool) → List Slot → ℕ
waiting p [] = 0
waiting p (s ∷ ss) = (if s.valid then (if p s.request then 1 else 0) else 0) + waiting p ss

abbrev pub any_request : Request → Bool
any_request r = true

-- `buff_count` is the number of valid slots.
abbrev pub IsCounted : Buffer → Type 0
IsCounted b = b.buff_count ≡ waiting any_request b.slots

abbrev pub one_if : Bool → ℕ
one_if b = if b then 1 else 0

waiting-put_slots :
    (p : Request → Bool) (r : Request) (ss : List Slot)
    → has_room ss ≡ true
    → waiting p (put_slots r ss) ≡ one_if (p r) + waiting p ss
unfolding has_room put_slots
waiting-put_slots p r [] h = ground arith
waiting-put_slots p r (s ∷ ss) h = ground (arith, waiting-put_slots p r ss)

full-waiting : (ss : List Slot) → has_room ss ≡ false → waiting any_request ss ≡ length ss
unfolding has_room
full-waiting [] h = refl
full-waiting (s ∷ ss) h = ground (arith, full-waiting ss)

waiting-le : (ss : List Slot) → waiting any_request ss ≤ length ss
waiting-le [] = omega arith
waiting-le (s ∷ ss) = ground (arith, waiting-le ss)

room-waiting : (ss : List Slot) → has_room ss ≡ true → waiting any_request ss < length ss
unfolding has_room
room-waiting [] h = ground arith
room-waiting (s ∷ ss) h = ground (arith, room-waiting ss, waiting-le ss)

length-put_slots : (r : Request) (ss : List Slot) → length (put_slots r ss) ≡ length ss
unfolding put_slots
length-put_slots r [] = refl
length-put_slots r (s ∷ ss) = ground (arith, length-put_slots r ss)

waiting_free : (ss : List Slot) → AllFree ss → waiting any_request ss ≡ 0
waiting_free [] h = refl
waiting_free (s ∷ ss) h = ground (arith, h.0, waiting_free ss h.1)

waiting-modify :
    (p : Request → Bool) (ss : List Slot) (j : ℕ)
    → j < length ss
    → (get_or ss j empty_slot).valid ≡ true
    → waiting p ss
      ≡ one_if (p (get_or ss j empty_slot).request) + waiting p (modify ss j clear_slot)
waiting-modify p [] j h e = elim h [ ]
waiting-modify p (s ∷ ss) zero h e = ground arith
waiting-modify p (s ∷ ss) (suc j) h e = ground (arith, waiting-modify p ss j)

-- A request is served from a valid slot, which is free afterwards; no request that waits has a
-- smaller file, and exactly this request waits no more.
pub record IsServed (b : Buffer) (r : Request) (b' : Buffer) : Type 0 where
  pub slot : ℕ
  pub at : IsAt b.slots slot r.file_size
  pub same : (get_or b.slots slot empty_slot).request ≡ r
  pub least : AllAtLeast r.file_size b.slots
  pub freed : b'.slots ≡ modify b.slots slot clear_slot
  pub counted : IsCounted b'
  pub taken : (p : Request → Bool) → waiting p b.slots ≡ one_if (p r) + waiting p b'.slots

-- `consumer` waits exactly if no request does.
pub data IsConsumed (b : Buffer) : Option (Request × Buffer) → Type 0 where
  empty : waiting any_request b.slots ≡ 0 → IsConsumed b none
  served : (r : Request) (b' : Buffer) → IsServed b r b' → IsConsumed b (some (r, b'))

from_start : (k j : ℕ) → k ≡ 0 + j → j ≡ k
from_start k j e = omega arith

take_at-IsServed :
    (b : Buffer) (j : ℕ) (v : ℤ)
    → IsCounted b
    → IsAt b.slots j v
    → AllAtLeast v b.slots
    → IsServed b (take_at j b).0 (take_at j b).1
unfolding take_at
take_at-IsServed b j v c a l = record {
  slot = j;
  at = record { within = a.within; taken = a.taken; sized = refl };
  same = refl;
  least = subst (λ w. AllAtLeast w b.slots) (sym a.sized) l;
  freed = refl;
  counted = omega (arith, c, waiting-modify any_request b.slots j a.within a.taken);
  taken = λ p. waiting-modify p b.slots j a.within a.taken;
}

get-IsServed :
    (b : Buffer) {best : Best}
    → IsCounted b
    → b.buff_count ≢ 0
    → IsFound b.slots 0 best
    → IsServed b (take_at best.1 b).0 (take_at best.1 b).1
get-IsServed b c n (nothing h) = absurd (n (c ∙ waiting_free b.slots h))
get-IsServed b c n (found v k j e a l) =
    subst (λ i. IsServed b (take_at i b).0 (take_at i b).1) (from_start k j e)
      (take_at-IsServed b j v c a l)

not_zero : (n : ℕ) → (n == 0) ≡ false → n ≢ 0
not_zero n e = ground arith

-- If the count is right and no file size is -1, which the loop takes for no value, `consumer`
-- waits exactly if no request does. Otherwise it serves a request of which no other has a
-- smaller file, takes exactly this one out, and keeps the count right.
pub consumer-IsConsumed : (b : Buffer) → IsCounted b → AllSized b.slots → IsConsumed b (consumer b)
unfolding consumer get
consumer-IsConsumed b c sizes = elim (Bool-cases (b.buff_count == 0)) [
  | inl e ↦ rw e (empty (sym c ∙ (==_iff b.buff_count 0).0 e))
  | inr e ↦
      rw e (served _ _ (get-IsServed b c (not_zero b.buff_count e) (scan-IsFound b.slots 0 sizes)))
]

-- What a round of `consumer` does whatever the sizes are.
pub data IsHandled (b : Buffer) : Option (Request × Buffer) → Type 0 where
  idle : waiting any_request b.slots ≡ 0 → IsHandled b none
  handed :
      (r : Request) (b' : Buffer)
      → buffer_size b' ≡ buffer_size b
      → IsCounted b'
      → ((p : Request → Bool) → waiting p b.slots ≡ one_if (p r) + waiting p b'.slots)
      → IsHandled b (some (r, b'))

take_at-IsHandled :
    (b : Buffer) (k : ℕ) → IsCounted b → IsValidAt b.slots 0 k → IsHandled b (some (take_at k b))
unfolding take_at
take_at-IsHandled b k c a =
    subst (λ i. IsHandled b (some (take_at i b))) (from_start k a.slot a.index)
      (handed _ _ (length-modify b.slots a.slot clear_slot)
        (omega (arith, c, waiting-modify any_request b.slots a.slot a.within a.taken))
        (λ p. waiting-modify p b.slots a.slot a.within a.taken))

get-IsHandled : (b : Buffer) → IsCounted b → b.buff_count ≢ 0 → IsHandled b (some (get b))
unfolding get
get-IsHandled b c n = elim (scan-IsValidAt b.slots 0) [
  | inl h ↦ absurd (n (c ∙ waiting_free b.slots h))
  | inr a ↦ take_at-IsHandled b (scan b.slots 0 no_best).1 c a
]

pub consumer-IsHandled : (b : Buffer) → IsCounted b → IsHandled b (consumer b)
unfolding consumer
consumer-IsHandled b c = elim (Bool-cases (b.buff_count == 0)) [
  | inl e ↦ rw e (idle (sym c ∙ (==_iff b.buff_count 0).0 e))
  | inr e ↦ rw e (get-IsHandled b c (not_zero b.buff_count e))
]

-- `producer` waits exactly if every slot is taken.
pub data IsProduced (r : Request) (b : Buffer) : Option Buffer → Type 0 where
  full : waiting any_request b.slots ≡ buffer_size b → IsProduced r b none
  stored :
      (b' : Buffer)
      → buffer_size b' ≡ buffer_size b
      → IsCounted b'
      → ((p : Request → Bool) → waiting p b'.slots ≡ one_if (p r) + waiting p b.slots)
      → IsProduced r b (some b')

has_room_of : (ss : List Slot) → waiting any_request ss ≢ length ss → has_room ss ≡ true
has_room_of ss n = elim (Bool-cases (has_room ss)) [
  | inl e ↦ e
  | inr e ↦ absurd (n (full-waiting ss e))
]

-- If the count is right, `producer` waits exactly if every slot is taken. Otherwise it stores the
-- request beside those that wait, and keeps the count right.
pub producer-IsProduced : (r : Request) (b : Buffer) → IsCounted b → IsProduced r b (producer r b)
unfolding producer put
producer-IsProduced r b c = elim (Bool-cases (b.buff_count == buffer_size b)) [
  | inl e ↦ rw e (full (sym c ∙ (==_iff b.buff_count (buffer_size b)).0 e))
  | inr e ↦
      let room = has_room_of b.slots (λ w. cc ((==_iff b.buff_count (buffer_size b)).1 (c ∙ w))) in
      rw (e, room)
        (stored _ (length-put_slots r b.slots)
          (omega (arith, c, waiting-put_slots any_request r b.slots room))
          (λ p. waiting-put_slots p r b.slots room))
]
