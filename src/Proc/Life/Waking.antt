-- ===== src/Proc/Life/Waking.antt =====
-- What a wakeup changes in the process table, and what it keeps.
use operation_system_project.Prelude.{
  ℕ, ◌≡◌, refl, inl, inr, Bool, true, false, ◌&&◌, length, Bool-cases, arith,
}
use operation_system_project.Proc.{
  sleeping, runnable, zombie, state_eq, Chan, slot_addr, chan_eq, Proc, Table, slot,
}
use operation_system_project.Proc.Life.{wake_if, wake}
use operation_system_project.Proc.Life.Slots.{slot-wakeup1, length-wakeup1}

parent-wake : (chan : Chan) (p : Proc) → (wake chan p).parent ≡ p.parent
parent-wake chan p = elim (Bool-cases (state_eq p.state sleeping && chan_eq p.chan chan)) [
  | inl e ↦ rw e
  | inr e ↦ rw e
]

pub wake-runnable : (chan : Chan) (p : Proc) → p.state ≡ runnable → (wake chan p).state ≡ runnable
wake-runnable chan p h = elim (Bool-cases (state_eq p.state sleeping && chan_eq p.chan chan)) [
  | inl e ↦ rw e
  | inr e ↦ rw e h
]

pub wake-sleeper :
    (par : ℕ) (p : Proc)
    → p.state ≡ sleeping
    → p.chan ≡ slot_addr par
    → (wake (slot_addr par) p).state ≡ runnable
wake-sleeper par p h c =
    let hit : (state_eq p.state sleeping && chan_eq p.chan (slot_addr par)) ≡ true =
      rw (h, c) (ground arith) in
    rw hit

pub zombie-wake : (chan : Chan) (p : Proc) → p.state ≡ zombie → (wake chan p).state ≡ zombie
zombie-wake chan p h = let live : state_eq p.state sleeping ≡ false = rw h refl in rw live h

pub parent-wake_if :
    (b : Bool) (chan : Chan) (t : Table) (j : ℕ)
    → (slot (wake_if b chan t) j).parent ≡ (slot t j).parent
parent-wake_if true chan t j = rw (slot-wakeup1 chan t j) (parent-wake chan (slot t j))
parent-wake_if false chan t j = refl

pub length-wake_if : (b : Bool) (chan : Chan) (t : Table) → length (wake_if b chan t) ≡ length t
length-wake_if true chan t = length-wakeup1 chan t
length-wake_if false chan t = refl

pub wake_if-runnable :
    (b : Bool) (chan : Chan) (t : Table) (j : ℕ)
    → (slot t j).state ≡ runnable
    → (slot (wake_if b chan t) j).state ≡ runnable
wake_if-runnable true chan t j h = rw (slot-wakeup1 chan t j) (wake-runnable chan (slot t j) h)
wake_if-runnable false chan t j h = h
