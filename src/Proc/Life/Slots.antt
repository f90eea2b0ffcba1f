-- ===== src/Proc/Life/Slots.antt =====
-- How the routines of the process table act on each slot.
use operation_system_project.Prelude.{
  ℕ, zero, suc, ◌+◌, ◌<◌, ◌≡◌, ◌≢◌, refl, ap, ◌∙◌, inl, inr, Bool, true, false, ◌&&◌, Option, none,
  some, [], ◌∷◌, length, get_or-modify_self, get_or-modify_ne, ◌==◌, if◌then◌else◌, modify,
  Bool-cases, arith,
}
use operation_system_project.Proc.{
  sleeping, runnable, state_eq, Chan, blank, chan_eq, Proc, Table, slot,
}
use operation_system_project.Proc.Life.{find_slot, wake, wakeup1, kill_slot, mark_killed, kill}

pub slot-modify_self :
    (t : Table) (i : ℕ) (f : Proc → Proc) → i < length t → slot (modify t i f) i ≡ f (slot t i)
slot-modify_self t i f h = get_or-modify_self t i f _ h

pub slot-modify_ne :
    (t : Table) (i j : ℕ) (f : Proc → Proc) → i ≢ j → slot (modify t i f) j ≡ slot t j
slot-modify_ne t i j f h = get_or-modify_ne t i j f _ h

-- `wakeup1` wakes each slot by itself.
pub slot-wakeup1 :
    (chan : Chan) (t : Table) (j : ℕ) → slot (wakeup1 chan t) j ≡ wake chan (slot t j)
unfolding wakeup1 blank
slot-wakeup1 chan [] j = refl
slot-wakeup1 chan (p ∷ ps) zero = refl
slot-wakeup1 chan (p ∷ ps) (suc j) = slot-wakeup1 chan ps j

pub length-wakeup1 : (chan : Chan) (t : Table) → length (wakeup1 chan t) ≡ length t
unfolding wakeup1
length-wakeup1 chan [] = refl
length-wakeup1 chan (p ∷ ps) = ap suc (length-wakeup1 chan ps)

-- The first slot that passes the test, or that none does.
abbrev pub Found : (Proc → Bool) → Table → ℕ → Option ℕ → Type 0
Found test t i none = (k : ℕ) → k < length t → test (slot t k) ≡ false
Found test t i (some j) =
    (k : ℕ) × (j ≡ i + k)
    × (k < length t)
    × (test (slot t k) ≡ true)
    × ((m : ℕ) → m < k → test (slot t m) ≡ false)

Found-cons :
    (test : Proc → Bool) (p : Proc) (ps : Table) (i : ℕ) (r : Option ℕ)
    → test p ≡ false
    → Found test ps (i + 1) r
    → Found test (p ∷ ps) i r
Found-cons test p ps i none miss h = all
  where
    all : (k : ℕ) → k < length (p ∷ ps) → test (slot (p ∷ ps) k) ≡ false
    all zero lt = miss
    all (suc k) lt = h k (omega arith)
Found-cons test p ps i (some j) miss (k, at, lt, yes_k, before) =
    (suc k, omega arith, omega arith, yes_k, all)
  where
    all : (m : ℕ) → m < suc k → test (slot (p ∷ ps) m) ≡ false
    all zero lt = miss
    all (suc m) lt = before m (omega arith)

pub find_slot-Found : (test : Proc → Bool) (t : Table) (i : ℕ) → Found test t i (find_slot test t i)
unfolding find_slot
find_slot-Found test [] i = λ k h. elim h [ ]
find_slot-Found test (p ∷ ps) i = elim (Bool-cases (test p)) [
  | inl hit ↦ rw hit (0, omega arith, omega arith, hit, λ m h. elim h [ ])
  | inr miss ↦
      rw miss
        (Found-cons test p ps i (find_slot test ps (i + 1)) miss (find_slot-Found test ps (i + 1)))
]

wake_lem :
    (chan : Chan) (p : Proc)
    → wake chan p ≡ record p {
      state = if state_eq p.state sleeping && chan_eq p.chan chan then runnable else p.state;
    }
wake_lem chan p = elim (Bool-cases (state_eq p.state sleeping && chan_eq p.chan chan)) [
  | inl e ↦ rw e
  | inr e ↦ rw e
]

-- `wakeup1` makes exactly the sleepers on the channel runnable, and changes nothing else of any slot.
pub wakeup1-state :
    (chan : Chan) (t : Table) (j : ℕ)
    → slot (wakeup1 chan t) j ≡ record (slot t j) {
      state =
          if state_eq (slot t j).state sleeping && chan_eq (slot t j).chan chan
          then runnable
          else (slot t j).state;
    }
wakeup1-state chan t j = slot-wakeup1 chan t j ∙ wake_lem chan (slot t j)

mark_killed-awake : (p : Proc) → (mark_killed p).state ≢ sleeping
mark_killed-awake p = elim (Bool-cases (state_eq p.state sleeping)) [
  | inl e ↦ rw e (λ h. cc)
  | inr e ↦ rw e (λ (h : p.state ≡ sleeping). cc)
]

-- What `kill` has done, by its result: it fails and changes nothing if no slot has the pid; else
-- it marks a slot with the pid killed and takes it out of its sleep, and leaves the other slots.
abbrev pub Killed : ℕ → Table → Option (Unit {0}) × Table → Type 0
Killed pid t (none, t') = (t' ≡ t) × ((k : ℕ) → k < length t → (slot t k).pid ≢ pid)
Killed pid t (some _, t') =
    (k : ℕ) × (k < length t)
    × ((slot t k).pid ≡ pid)
    × ((slot t' k).killed ≡ true)
    × ((slot t' k).state ≢ sleeping)
    × ((j : ℕ) → k ≢ j → slot t' j ≡ slot t j)

kill_slot-Killed :
    (pid : ℕ) (t : Table) (r : Option ℕ)
    → Found (λ p. p.pid == pid) t 0 r
    → Killed pid t (kill_slot t r)
unfolding kill_slot
kill_slot-Killed pid t none f = (refl, λ k h e. ground (arith, f k h))
kill_slot-Killed pid t (some i) (k, at, lt, is, before) =
    let same : i ≡ k = omega arith in
    rw same (
      k,
      lt,
      ground arith,
      ap (λ (p : Proc). p.killed) (slot-modify_self t k mark_killed lt),
      rw (slot-modify_self t k mark_killed lt) (mark_killed-awake (slot t k)),
      λ j ne. slot-modify_ne t k j mark_killed ne,
    )

-- What `kill` finds and does, on both branches.
pub kill-Killed : (pid : ℕ) (t : Table) → Killed pid t (kill pid t)
unfolding kill
kill-Killed pid t =
    kill_slot-Killed pid t (find_slot (λ p. p.pid == pid) t 0) (find_slot-Found _ t 0)
