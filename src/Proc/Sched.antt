-- ===== src/Proc/Sched.antt =====
-- The lottery scheduler, kernel/proc.c of "simple shell/xv6". One round of `scheduler` runs under
-- the table's lock up to `swtch`; `run` is what the chosen process and the rest of the machine do
-- to the table until control comes back.
pub mod Accounting
pub mod Lottery
pub mod Fair
use operation_system_project.Prelude.{
  ℕ, zero, suc, ◌+◌, ◌-◌, ◌*◌, ◌/◌, ◌%◌, ◌^◌, Bool, true, false, not, ◌||◌, ◌&&◌, List, [], ◌∷◌,
  ltb, leb, ◌==◌, if◌then◌else◌, modify, Result, ok, panic, ◌>>=◌,
}
use operation_system_project.Prelude.Int.{ℤ, pos, negsuc, ◌+ℤ◌, ltb_ℤ, eqb_ℤ, div_ℤ, mod_ℤ}
use operation_system_project.Proc.{Proc, Table, slot, running, is_runnable}

-- `random`: `next` is an `unsigned long` of 32 bits.
unfoldable pub random : ℕ → ℕ × ℕ
random next = let next' = (next * 11035 + 12345) % 2 ^ 32 in (next' / 65536 % 3276, next')

-- `numofrp`, `numofsp` and `higherbid` after the first loop.
pub record Census : Type 0 where
  pub numofrp : ℕ
  pub numofsp : ℕ
  pub higherbid : ℤ

abbrev pub is_reserve : Proc → Bool
is_reserve p = is_runnable p && ltb 0 p.rpercent

abbrev pub is_spot : Proc → Bool
is_spot p = is_runnable p && p.rpercent == 0

unfoldable pub census_step : Census → Proc → Census
census_step c p = record {
  numofrp = if is_reserve p then c.numofrp + 1 else c.numofrp;
  numofsp = if is_spot p then c.numofsp + 1 else c.numofsp;
  higherbid = if is_spot p && ltb_ℤ c.higherbid p.spotbid then p.spotbid else c.higherbid;
}

unfoldable pub census_from : Census → Table → Census
census_from c [] = c
census_from c (p ∷ ps) = census_from (census_step c p) ps

unfoldable pub census : Table → Census
census t = census_from (record { numofrp = 0; numofsp = 0; higherbid = pos 0 }) t

-- The slot that the second loop stops at, and by which of its two branches.
pub data Pick : Type 0 where
  idle : Pick
  reserve : ℕ → Pick
  spot : ℕ → Pick

-- The second loop from slot `i` on. `left` is `numofrp`; it counts the reserve processes that are
-- still to come, so it is not 0 where it is decreased.
unfoldable pub pick_from :
    (numofsp : ℕ) (higherbid : ℤ) (rand : ℕ) → Table → (i left ticket : ℕ) → Pick
pick_from numofsp higherbid rand [] i left ticket = idle
pick_from numofsp higherbid rand (p ∷ ps) i left ticket =
    let left' = if is_reserve p then left - 1 else left in
    let ticket' = if is_reserve p then ticket + p.rpercent else ticket in
    let rest = pick_from numofsp higherbid rand ps (i + 1) left' ticket' in
    if not (is_runnable p)
    then rest
    else (if ltb 0 p.rpercent
        then (if ltb rand ticket' then reserve i else rest)
        else (if left' == 0 && not (numofsp == 0) && ltb ticket' rand && eqb_ℤ p.spotbid higherbid
            then spot i
            else rest))

unfoldable pub pick : ℕ → Table → Pick
unfolding census
pick rand t = let c = census t in pick_from c.numofsp c.higherbid rand t 0 c.numofrp 0

-- The accounting behind `swtch`; `fee` is 10 for a reserve process.
unfoldable pub account : ℤ → Proc → Proc
account fee p =
    let charge = p.charge +ℤ fee in
    record p {
      numofused = p.numofused + 1;
      runningtime = p.runningtime + 10;
      charge = if ltb_ℤ (pos 1000) charge then mod_ℤ charge 1000 else charge;
      tcharge = if ltb_ℤ (pos 1000) charge then p.tcharge + 1 else p.tcharge;
    }

abbrev pub spot_fee : Proc → ℤ
spot_fee p = div_ℤ p.spotbid 100

-- `switchuvm` panics at a process that has no page table.
unfoldable pub dispatch : (run : ℕ → Table → Table) → (fee : Proc → ℤ) → ℕ → Table → Result Table
dispatch run fee i t =
    if (slot t i).pgdir == 0
    then panic
    else (let t' = run i (modify t i (λ p. record p { state = running })) in
        ok (modify t' i (λ p. account (fee p) p)))

-- The rest of a round, by what the second loop stopped at.
unfoldable pub follow : (run : ℕ → Table → Table) → ℕ → Table → Pick → Result (ℕ × Table)
follow run next t idle = ok (next, t)
follow run next t (reserve i) = do t' ← dispatch run (λ p. pos 10) i t; ok (next, t')
follow run next t (spot i) = do t' ← dispatch run spot_fee i t; ok (next, t')

-- One round of `scheduler` from the random state `next`.
unfoldable pub round : (run : ℕ → Table → Table) → ℕ → Table → Result (ℕ × Table)
round run next t = let (draw, next') = random next in follow run next' t (pick (draw % 200) t)
