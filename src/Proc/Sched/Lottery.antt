-- ===== src/Proc/Sched/Lottery.antt =====
-- What the census of the runnable processes counts, and which slot the lottery picks.
use operation_system_project.Prelude.{
  ℕ, zero, suc, ◌+◌, ◌-◌, ◌≤◌, ◌<◌, ◌≡◌, refl, sym, ◌∙◌, ◌⊎◌, inl, inr, true, false, not, ◌&&◌, [],
  ◌∷◌, length, take, drop, ltb, ◌==◌, if◌then◌else◌, Bool-cases, arith,
}
use operation_system_project.Prelude.Int.{ℤ, pos, ltb_ℤ, ◌≤ℤ◌, eqb_ℤ, eq_of_parts, eqb_ℤ_of_eq}
use operation_system_project.Proc.{Proc, Table, slot, is_runnable}
use operation_system_project.Proc.Sched.{
  Census, is_reserve, is_spot, census_step, census_from, census, Pick, idle, reserve, spot,
  pick_from, pick,
}

-- The tickets of the runnable reserve processes, and their number and that of the spot processes.
abbrev pub tickets : Table → ℕ
tickets [] = 0
tickets (p ∷ ps) = (if is_reserve p then p.rpercent else 0) + tickets ps

abbrev pub reserves : Table → ℕ
reserves [] = 0
reserves (p ∷ ps) = (if is_reserve p then 1 else 0) + reserves ps

abbrev pub spots : Table → ℕ
spots [] = 0
spots (p ∷ ps) = (if is_spot p then 1 else 0) + spots ps

tickets-zero : (t : Table) → reserves t ≡ 0 → tickets t ≡ 0
tickets-zero [] h = refl
tickets-zero (p ∷ ps) h = ground (arith, tickets-zero ps)

numofrp-census : (c : Census) (t : Table) → (census_from c t).numofrp ≡ c.numofrp + reserves t
unfolding census_from census_step
numofrp-census c [] = omega arith
numofrp-census c (p ∷ ps) = ground (arith, numofrp-census (census_step c p) ps)

numofsp-census : (c : Census) (t : Table) → (census_from c t).numofsp ≡ c.numofsp + spots t
unfolding census_from census_step
numofsp-census c [] = omega arith
numofsp-census c (p ∷ ps) = ground (arith, numofsp-census (census_step c p) ps)

-- The step keeps the highest bid, and takes that of a spot process into account.
higherbid-step : (c : Census) (p : Proc) → c.higherbid ≤ℤ (census_step c p).higherbid
unfolding census_step
higherbid-step c p = ground arith

spotbid-step : (c : Census) (p : Proc) → is_spot p ≡ true → p.spotbid ≤ℤ (census_step c p).higherbid
unfolding census_step
spotbid-step c p h = ground arith

higherbid-census : (c : Census) (t : Table) → c.higherbid ≤ℤ (census_from c t).higherbid
unfolding census_from
higherbid-census c [] = omega arith
higherbid-census c (p ∷ ps) =
    omega (arith, higherbid-census (census_step c p) ps, higherbid-step c p)

pub spotbid-le-higherbid :
    (c : Census) (t : Table) (k : ℕ)
    → k < length t
    → is_spot (slot t k) ≡ true
    → (slot t k).spotbid ≤ℤ (census_from c t).higherbid
unfolding census_from
spotbid-le-higherbid c [] k h s = elim h [ ]
spotbid-le-higherbid c (p ∷ ps) zero h s =
    omega (arith, higherbid-census (census_step c p) ps, spotbid-step c p s)
spotbid-le-higherbid c (p ∷ ps) (suc k) h s =
    spotbid-le-higherbid (census_step c p) ps k (omega arith) s

-- `b` is the highest of the bids of the spot processes that may run and of 0.
pub record IsHighest (b : ℤ) (t : Table) : Type 0 where
  pub above_zero : pos 0 ≤ℤ b
  pub above : (k : ℕ) → k < length t → is_spot (slot t k) ≡ true → (slot t k).spotbid ≤ℤ b
  pub offered :
      (b ≡ pos 0)
      ⊎ ((k : ℕ) × (k < length t) × (is_spot (slot t k) ≡ true) × ((slot t k).spotbid ≡ b))

raises-is_spot :
    (c : Census) (p : Proc) → (is_spot p && ltb_ℤ c.higherbid p.spotbid) ≡ true → is_spot p ≡ true
raises-is_spot c p f = ground arith

census_step-raised :
    (c : Census) (p : Proc)
    → (is_spot p && ltb_ℤ c.higherbid p.spotbid) ≡ true
    → (census_step c p).higherbid ≡ p.spotbid
unfolding census_step
census_step-raised c p f = rw f

census_step-kept :
    (c : Census) (p : Proc)
    → (is_spot p && ltb_ℤ c.higherbid p.spotbid) ≡ false
    → (census_step c p).higherbid ≡ c.higherbid
unfolding census_step
census_step-kept c p f = rw f

-- The highest bid of a census is the one before it, or that of a spot process.
census-offered :
    (c : Census) (t : Table)
    → ((census_from c t).higherbid ≡ c.higherbid)
      ⊎ ((k : ℕ) × (k < length t)
          × (is_spot (slot t k) ≡ true)
          × ((slot t k).spotbid ≡ (census_from c t).higherbid))
unfolding census_from
census-offered c [] = inl refl
census-offered c (p ∷ ps) = elim (census-offered (census_step c p) ps) [
  | inr (k, lt, sp, e) ↦ inr (suc k, omega (arith, lt), sp, e)
  | inl e ↦ elim (Bool-cases (is_spot p && ltb_ℤ c.higherbid p.spotbid)) [
    | inl f ↦ inr (0, omega arith, raises-is_spot c p f, sym (e ∙ census_step-raised c p f))
    | inr f ↦ inl (e ∙ census_step-kept c p f)
  ]
]

census-IsHighest : (t : Table) → IsHighest (census t).higherbid t
unfolding census
census-IsHighest t = record {
  above_zero = higherbid-census no_bids t;
  above = spotbid-le-higherbid no_bids t;
  offered = census-offered no_bids t;
}
  where
    no_bids : Census
    no_bids = record { numofrp = 0; numofsp = 0; higherbid = pos 0 }

-- What the second loop has found, started at slot `i` with `ticket` tickets behind it.
abbrev pub Picked : ℤ → ℕ → Table → ℕ → ℕ → Pick → Type 0
Picked bid rand t i ticket idle =
    (ticket + tickets t ≤ rand)
    × ((k : ℕ)
        → k < length t
        → is_spot (slot t k) ≡ true
        → (slot t k).spotbid ≡ bid
        → (0 < reserves (drop k t)) ⊎ (rand ≤ ticket + tickets t))
Picked bid rand t i ticket (reserve j) =
    (k : ℕ) × (j ≡ i + k)
    × (k < length t)
    × (is_reserve (slot t k) ≡ true)
    × (ticket + tickets (take k t) ≤ rand)
    × (rand < ticket + tickets (take k t) + (slot t k).rpercent)
Picked bid rand t i ticket (spot j) =
    (k : ℕ) × (j ≡ i + k)
    × (k < length t)
    × (is_spot (slot t k) ≡ true)
    × ((slot t k).spotbid ≡ bid)
    × (reserves (drop k t) ≡ 0)
    × (ticket + tickets t < rand)

-- No spot process that may run is passed over, at the head or behind it.
skipped-cons :
    (bid : ℤ) (rand : ℕ) (p : Proc) (ps : Table) (ticket ticket' : ℕ)
    → ticket' ≡ (if is_reserve p then ticket + p.rpercent else ticket)
    → (is_spot p ≡ true → p.spotbid ≡ bid → (0 < reserves ps) ⊎ (rand ≤ ticket' + tickets ps))
    → ((k : ℕ)
        → k < length ps
        → is_spot (slot ps k) ≡ true
        → (slot ps k).spotbid ≡ bid
        → (0 < reserves (drop k ps)) ⊎ (rand ≤ ticket' + tickets ps))
    → (k : ℕ) → k < length (p ∷ ps)
    → is_spot (slot (p ∷ ps) k) ≡ true
    → (slot (p ∷ ps) k).spotbid ≡ bid
    → (0 < reserves (drop k (p ∷ ps))) ⊎ (rand ≤ ticket + tickets (p ∷ ps))
skipped-cons bid rand p ps ticket ticket' e head rest zero lt s b = ground (arith, head s b)
skipped-cons bid rand p ps ticket ticket' e head rest (suc k) lt s b =
    ground (arith, rest k (omega arith) s b)

-- The loop goes past the head: the rest's result stands for the whole.
Picked-cons :
    (bid : ℤ) (rand : ℕ) (p : Proc) (ps : Table) (i ticket ticket' : ℕ) (r : Pick)
    → ticket' ≡ (if is_reserve p then ticket + p.rpercent else ticket)
    → (is_reserve p ≡ true → ticket' ≤ rand)
    → (is_spot p ≡ true → p.spotbid ≡ bid → (0 < reserves ps) ⊎ (rand ≤ ticket' + tickets ps))
    → Picked bid rand ps (i + 1) ticket' r
    → Picked bid rand (p ∷ ps) i ticket r
Picked-cons bid rand p ps i ticket ticket' idle e passed skipped h =
    (ground (arith, h.0), skipped-cons bid rand p ps ticket ticket' e skipped h.1)
Picked-cons bid rand p ps i ticket ticket' (reserve j) e passed skipped (k, at, lt, is, from, to) =
    (suc k, omega arith, omega arith, is, ground arith, ground arith)
Picked-cons bid rand p ps i ticket ticket' (spot j) e passed skipped
      (k, at, lt, is, best, last, above) =
    (suc k, omega arith, omega arith, is, best, last, ground arith)

pick_from-Picked :
    (ns : ℕ) (bid : ℤ) (rand : ℕ) (t : Table) (i left ticket : ℕ)
    → spots t ≤ ns
    → left ≡ reserves t
    → ticket ≤ rand
    → Picked bid rand t i ticket (pick_from ns bid rand t i left ticket)
unfolding pick_from
pick_from-Picked ns bid rand [] i left ticket hs hl ht = (omega arith, λ k lt. elim lt [ ])
pick_from-Picked ns bid rand (p ∷ ps) i left ticket hs hl ht = elim (Bool-cases (is_runnable p)) [
  | inr off ↦ rw off (
      Picked-cons bid rand p ps i ticket ticket (pick_from ns bid rand ps (i + 1) left ticket)
        (ground arith) (λ _. ht) (λ h. ground arith)
        (pick_from-Picked ns bid rand ps (i + 1) left ticket (ground arith) (ground arith) ht))
  | inl on ↦ elim (Bool-cases (ltb 0 p.rpercent)) [
    | inl res ↦
        rw (on, res)
          (elim (Bool-cases (ltb rand (ticket + p.rpercent))) [
            | inl hit ↦
                rw hit (0, omega arith, omega arith, ground arith, omega arith, ground arith)
            | inr miss ↦
                let t' = ticket + p.rpercent in
                rw miss (
                  Picked-cons bid rand p ps i ticket t'
                    (pick_from ns bid rand ps (i + 1) (left - 1) t') (ground arith)
                    (λ _. ground arith) (λ h. ground arith)
                    (pick_from-Picked ns bid rand ps (i + 1) (left - 1) t' (ground arith)
                      (ground arith) (ground arith)))
          ])
    | inr sp ↦
        rw (on, sp)
          (elim (Bool-cases
            (left == 0 && not (ns == 0) && ltb ticket rand && eqb_ℤ p.spotbid bid)) [
              | inl hit ↦ rw hit (
                0,
                omega arith,
                omega arith,
                ground arith,
                eq_of_parts _ _ (ground arith),
                ground arith,
                ground (arith, tickets-zero ps),
              )
              | inr miss ↦ rw miss (
                  Picked-cons bid rand p ps i ticket ticket
                    (pick_from ns bid rand ps (i + 1) left ticket) (ground arith) (λ _. ht)
                    (λ s b. ground (arith, eqb_ℤ_of_eq p.spotbid bid b))
                    (pick_from-Picked ns bid rand ps (i + 1) left ticket (ground arith)
                      (ground arith) ht))
            ])
  ]
]

-- The pick with the highest bid that the census has found.
pub pick-Picked_bid : (rand : ℕ) (t : Table) → Picked (census t).higherbid rand t 0 0 (pick rand t)
unfolding pick
pick-Picked_bid rand t =
    pick_from-Picked (census t).numofsp (census t).higherbid rand t 0 (census t).numofrp 0
      (omega (arith, numofsp-census _ t)) (numofrp-census _ t ∙ omega arith) (omega arith)

-- What a round of the lottery picks among the processes of a table, on every branch, for a draw:
-- a reserve process if the draw falls into its own range of tickets; a spot process with the
-- highest bid of the spot processes that may run, 0 at least, if the draw is above all tickets and no runnable reserve process stands behind
-- it; and otherwise none, in which case the draw is in no range of tickets, and it equals the number of tickets or
-- every spot process with the highest bid has a runnable reserve process behind it.
pub pick-Picked :
    (rand : ℕ) (t : Table) → (bid : ℤ) × IsHighest bid t × Picked bid rand t 0 0 (pick rand t)
pick-Picked rand t = ((census t).higherbid, census-IsHighest t, pick-Picked_bid rand t)
