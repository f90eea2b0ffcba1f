-- ===== src/Proc/Sched/Accounting.antt =====
-- The accounting of a round: what a process is charged, and that a round does not panic.
use mathlib.Core.Path.{subst}
use operation_system_project.Prelude.{
  ℕ, ◌+◌, ◌*◌, ◌%◌, ◌≤◌, ◌<◌, ◌≡◌, ◌≢◌, refl, true, false, length, ltb, ◌==◌, if◌then◌else◌, modify,
  Returns, Returns-bind, returns, arith,
}
use operation_system_project.Prelude.Int.{ℤ, pos, ◌+ℤ◌}
use operation_system_project.Proc.{Proc, Table, slot, running, is_runnable}
use operation_system_project.Proc.Sched.{
  random, Pick, idle, reserve, spot, pick, account, spot_fee, dispatch, follow, round,
}
use operation_system_project.Proc.Sched.Lottery.{Picked, pick-Picked_bid}

-- 1000 for each unit of `tcharge`, and what `charge` still holds.
abbrev pub owed : ℕ → ℕ → ℕ
owed tcharge charge = 1000 * tcharge + charge

charge_sum : (p : Proc) (c f : ℕ) → p.charge ≡ pos c → (p.charge +ℤ pos f) ≡ pos (c + f)
charge_sum p c f h = rw h (ground arith)

abbrev carried : ℕ → ℕ
carried n = if ltb 1000 n then n % 1000 else n

-- A round charges a process exactly its fee and keeps `charge` within 1000, for a fee below 1000
-- (a reserve process pays 10, a spot process a hundredth of its bid).
pub account-owed :
    (p : Proc) (c f : ℕ)
    → p.charge ≡ pos c
    → c ≤ 1000
    → f < 1000
    → (c' : ℕ) × ((account (pos f) p).charge ≡ pos c')
      × (c' ≤ 1000)
      × (owed (account (pos f) p).tcharge c' ≡ owed p.tcharge c + f)
unfolding account
account-owed p c f h hc hf =
    rw (charge_sum p c f h) (carried (c + f), ground arith, ground arith, ground arith)

-- A fee that brings `charge` to 2000 or more is charged in part only: the carry is one unit of
-- `tcharge` however many thousands `charge` loses.
pub account-loses :
    (p : Proc) (c f : ℕ)
    → p.charge ≡ pos c
    → 2000 ≤ c + f
    → (c' : ℕ) × ((account (pos f) p).charge ≡ pos c')
      × (owed (account (pos f) p).tcharge c' < owed p.tcharge c + f)
unfolding account
account-loses p c f h big = rw (charge_sum p c f h) (carried (c + f), ground arith, ground arith)

-- Every runnable process has a page table.
abbrev pub HasPages : Table → Type 0
HasPages t = (k : ℕ) → k < length t → is_runnable (slot t k) ≡ true → (slot t k).pgdir ≢ 0

dispatch-ok :
    (run : ℕ → Table → Table) (fee : Proc → ℤ) (t : Table) (i : ℕ)
    → (slot t i).pgdir ≢ 0
    → Returns
        (λ t'.
          t'
          ≡ modify
              (run i (modify t i (λ p. record p { state = running })))
              i
              (λ p. account (fee p) p))
        (dispatch run fee i t)
unfolding dispatch
dispatch-ok run fee t i ne =
    let e : ((slot t i).pgdir == 0) ≡ false = ground arith in rw e (returns refl)

follow-safe :
    (run : ℕ → Table → Table) (next : ℕ) (t : Table) (bid : ℤ) (rand : ℕ) (r : Pick)
    → HasPages t
    → Picked bid rand t 0 0 r
    → Returns (λ s. s.0 ≡ next) (follow run next t r)
unfolding follow
follow-safe run next t bid rand idle pages p = returns refl
follow-safe run next t bid rand (reserve j) pages (k, at, lt, is, from, to) =
    let same : k ≡ j = omega arith in
    Returns-bind
      (dispatch-ok run (λ p. pos 10) t j
        (subst (λ n. (slot t n).pgdir ≢ 0) same (pages k lt (ground arith))))
      (λ t' e. returns refl)
follow-safe run next t bid rand (spot j) pages (k, at, lt, is, best, last, above) =
    let same : k ≡ j = omega arith in
    Returns-bind
      (dispatch-ok run spot_fee t j
        (subst (λ n. (slot t n).pgdir ≢ 0) same (pages k lt (ground arith))))
      (λ t' e. returns refl)

-- If every runnable process has a page table, a round of the scheduler does not panic, whatever
-- the chosen process does, and it advances the random state once.
pub round-safe :
    (run : ℕ → Table → Table) (next : ℕ) (t : Table)
    → HasPages t
    → Returns (λ s. s.0 ≡ (random next).1) (round run next t)
unfolding round
round-safe run next t pages =
    let draw = (random next).0 % 200 in
    follow-safe run (random next).1 t _ draw (pick draw t) pages (pick-Picked_bid draw t)
