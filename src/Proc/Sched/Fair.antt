-- ===== src/Proc/Sched/Fair.antt =====
-- Consequences of the lottery: each reserve process wins exactly as many draws as it has tickets,
-- the spot market goes to the highest bid, and which spot processes can never win.
use mathlib.Core.Path.{subst}
use native.Mathlib.Decide.{dec_lt}
use operation_system_project.Prelude.{
  ℕ, zero, suc, ◌+◌, ◌-◌, ◌≤◌, ◌<◌, ◌≡◌, ◌≢◌, ◌↔◌, refl, sym, ap, ◌∙◌, inl, inr, Bool, true, false,
  [], ◌∷◌, min, length, take, drop, ◌==◌, if◌then◌else◌, Bool-cases, arith,
}
use operation_system_project.Prelude.Int.{ℤ, ◌≤ℤ◌}
use operation_system_project.Proc.{Table, slot}
use operation_system_project.Proc.Sched.{
  is_reserve, is_spot, census, Pick, idle, reserve, spot, pick,
}
use operation_system_project.Proc.Sched.Lottery.{
  tickets, reserves, Picked, spotbid-le-higherbid, pick-Picked_bid,
}

tickets-take-le :
    (t : Table) (k : ℕ)
    → k < length t
    → is_reserve (slot t k) ≡ true
    → tickets (take k t) + (slot t k).rpercent ≤ tickets t
tickets-take-le [] k h r = elim h [ ]
tickets-take-le (p ∷ ps) zero h r = ground arith
tickets-take-le (p ∷ ps) (suc k) h r = omega (arith, tickets-take-le ps k (omega arith) r)

tickets-take-lt :
    (t : Table) (k j : ℕ)
    → k < j
    → j < length t
    → is_reserve (slot t k) ≡ true
    → tickets (take k t) + (slot t k).rpercent ≤ tickets (take j t)
tickets-take-lt [] k j lt h r = elim h [ ]
tickets-take-lt (p ∷ ps) k zero lt h r = elim lt [ ]
tickets-take-lt (p ∷ ps) zero (suc j) lt h r = ground arith
tickets-take-lt (p ∷ ps) (suc k) (suc j) lt h r =
    omega (arith, tickets-take-lt ps k j (omega arith) (omega arith) r)

-- The draws that fall to slot `k`.
abbrev pub InRange : ℕ → Table → ℕ → Type 0
InRange rand t k = (tickets (take k t) ≤ rand) × (rand < tickets (take k t) + (slot t k).rpercent)

reserve_of_range :
    (bid : ℤ) (rand : ℕ) (t : Table) (k : ℕ) (r : Pick)
    → k < length t
    → is_reserve (slot t k) ≡ true
    → InRange rand t k
    → Picked bid rand t 0 0 r
    → r ≡ reserve k
reserve_of_range bid rand t k idle h is range p = absurd (omega (arith, tickets-take-le t k h is))
reserve_of_range bid rand t k (spot j) h is range (i, at, lt, sp, best, last, above) =
    absurd (omega (arith, tickets-take-le t k h is))
reserve_of_range bid rand t k (reserve j) h is range (i, at, lt, is', from, to) =
    ap reserve (omega (arith, same))
  where
    same : i ≡ k
    same = elim (dec_lt i k) [
      | yes lo ↦ absurd (omega (arith, tickets-take-lt t i k lo h is'))
      | no ge ↦ elim (dec_lt k i) [
        | yes hi ↦ absurd (omega (arith, tickets-take-lt t k i hi lt is))
        | no le ↦ omega arith
      ]
    ]

range_of_reserve :
    (bid : ℤ) (rand : ℕ) (t : Table) (k : ℕ) (r : Pick)
    → r ≡ reserve k
    → Picked bid rand t 0 0 r
    → InRange rand t k
range_of_reserve bid rand t k idle e p = cc
range_of_reserve bid rand t k (spot j) e p = cc
range_of_reserve bid rand t k (reserve j) e (i, at, lt, is, from, to) =
    let same : i ≡ k = ground arith in subst (InRange rand t) same (omega arith, omega arith)

-- A runnable reserve process is picked by exactly the draws of its own range: they begin at the
-- tickets of the runnable reserve processes before it and are as many as its own tickets.
pub pick-eq-reserve_iff :
    (rand : ℕ) (t : Table) (k : ℕ)
    → k < length t
    → is_reserve (slot t k) ≡ true
    → (pick rand t ≡ reserve k) ↔ InRange rand t k
pick-eq-reserve_iff rand t k h is = (
  λ e. range_of_reserve _ rand t k (pick rand t) e (pick-Picked_bid rand t),
  λ range. reserve_of_range _ rand t k (pick rand t) h is range (pick-Picked_bid rand t),
)

-- The numbers below `n` that pass a test.
abbrev pub count_below : ℕ → (ℕ → Bool) → ℕ
count_below zero f = 0
count_below (suc n) f = (if f n then 1 else 0) + count_below n f

count_below-range :
    (n a b : ℕ) (f : ℕ → Bool)
    → ((r : ℕ) → (f r ≡ true) ↔ ((a ≤ r) × (r < a + b)))
    → count_below n f ≡ min n (a + b) - min n a
count_below-range zero a b f h = omega arith
count_below-range (suc n) a b f h = elim (Bool-cases (f n)) [
  | inl t ↦ rw t (omega (arith, count_below-range n a b f h, (h n).0 t))
  | inr e ↦ rw e (outside (count_below-range n a b f h) (λ i. ground (arith, (h n).1 i)))
]
  where
    outside :
        count_below n f ≡ min n (a + b) - min n a
        → ¬ ((a ≤ n) × (n < a + b))
        → 0 + count_below n f ≡ min (suc n) (a + b) - min (suc n) a
    outside ih out = elim (dec_lt n a) [
      | yes lo ↦ omega arith
      | no ge ↦ elim (dec_lt n (a + b)) [
        | yes hi ↦ absurd (out (omega arith, hi))
        | no ge' ↦ omega arith
      ]
    ]

abbrev pub is_reserve_pick : ℕ → Pick → Bool
is_reserve_pick k idle = false
is_reserve_pick k (spot j) = false
is_reserve_pick k (reserve j) = j == k

is_reserve_pick_iff : (k : ℕ) (r : Pick) → (is_reserve_pick k r ≡ true) ↔ (r ≡ reserve k)
is_reserve_pick_iff k idle = (λ e. cc, λ e. cc)
is_reserve_pick_iff k (spot j) = (λ e. cc, λ e. cc)
is_reserve_pick_iff k (reserve j) = (λ e. ap reserve (ground arith), λ e. ground arith)

-- Of the 200 draws that a round can make, a runnable reserve process wins exactly as many as it
-- has tickets, as long as the runnable reserve processes have at most 200 tickets together.
pub count_draws :
    (t : Table) (k : ℕ)
    → k < length t
    → is_reserve (slot t k) ≡ true
    → tickets t ≤ 200
    → count_below 200 (λ r. is_reserve_pick k (pick r t)) ≡ (slot t k).rpercent
count_draws t k h is fits =
    count_below-range 200 (tickets (take k t)) (slot t k).rpercent
      (λ r. is_reserve_pick k (pick r t)) wins
    ∙ omega (arith, tickets-take-le t k h is)
  where
    wins : (r : ℕ) → (is_reserve_pick k (pick r t) ≡ true) ↔ InRange r t k
    wins r = (
      λ e. (pick-eq-reserve_iff r t k h is).0 ((is_reserve_pick_iff k (pick r t)).0 e),
      λ i. (is_reserve_pick_iff k (pick r t)).1 ((pick-eq-reserve_iff r t k h is).1 i),
    )

-- When a spot process is picked, it is runnable, no runnable spot process bids more, and the draw
-- is above all tickets.
pub pick-spot-best :
    (rand : ℕ) (t : Table) (k : ℕ)
    → pick rand t ≡ spot k
    → (is_spot (slot t k) ≡ true)
      × (tickets t < rand)
      × ((j : ℕ)
          → j < length t
          → is_spot (slot t j) ≡ true
          → (slot t j).spotbid ≤ℤ (slot t k).spotbid)
unfolding census
pick-spot-best rand t k e =
    let (i, at, lt, sp, best, last, above) =
      subst (Picked (census t).higherbid rand t 0 0) e (pick-Picked_bid rand t) in
    let same : i ≡ k = omega arith in
    (
      subst (λ n. is_spot (slot t n) ≡ true) same sp,
      omega arith,
      λ j h s.
          subst (λ n. (slot t j).spotbid ≤ℤ (slot t n).spotbid) same
            (subst (λ b. (slot t j).spotbid ≤ℤ b) (sym best) (spotbid-le-higherbid _ t j h s)),
    )

-- A spot process that has a runnable reserve process behind it in the table is picked by no draw,
-- whatever it bids.
pub pick-ne-spot_behind :
    (rand : ℕ) (t : Table) (k : ℕ) → 0 < reserves (drop k t) → pick rand t ≢ spot k
pick-ne-spot_behind rand t k behind e =
    let (i, at, lt, sp, best, last, above) =
      subst (Picked (census t).higherbid rand t 0 0) e (pick-Picked_bid rand t) in
    let same : i ≡ k = omega arith in
    absurd (omega (arith, subst (λ n. reserves (drop n t) ≡ 0) same last))

idle_of_total : (bid : ℤ) (t : Table) (r : Pick) → Picked bid (tickets t) t 0 0 r → r ≡ idle
idle_of_total bid t idle p = refl
idle_of_total bid t (spot j) (i, at, lt, sp, best, last, above) = absurd (omega arith)
idle_of_total bid t (reserve j) (i, at, lt, is, from, to) =
    absurd (omega (arith, tickets-take-le t i lt is))

-- A draw equal to the number of tickets runs nobody, however many spot processes are runnable.
pub pick-idle_at_total : (t : Table) → pick (tickets t) t ≡ idle
pick-idle_at_total t = idle_of_total _ t (pick (tickets t) t) (pick-Picked_bid (tickets t) t)
