-- ===== src/Proc/Life/Waiting.antt =====
-- What `exit` leaves: the children of a process that exits go to init, and sleeping parents are
-- woken.
use native.Mathlib.Decide.{ℕ_discrete}
use mathlib.Core.Path.{subst}
use operation_system_project.Prelude.{
  ℕ, ◌<◌, ◌≡◌, ◌≢◌, refl, sym, ap, ◌∙◌, inl, inr, true, ◌&&◌, some, length, if◌then◌else◌, modify,
  Bool-cases, arith,
}
use operation_system_project.Proc.{
  sleeping, runnable, zombie, state_eq, Chan, slot_addr, chan_eq, Proc, Table, slot,
}
use operation_system_project.Proc.Life.{
  names, bury, wake, wakeup1, is_child, pass_children, parent_chan, exit_locked,
}
use operation_system_project.Proc.Life.Slots.{
  slot-modify_self, slot-modify_ne, slot-wakeup1, length-wakeup1,
}
use operation_system_project.Proc.Life.Waking.{zombie-wake, wake-sleeper, parent-wake_if}
use operation_system_project.Proc.Life.Passing.{
  heir, pass_children-woken, length-pass_children, runnable-pass_children, IsAlert,
  parent-pass_children,
}

parent-bury :
    (cur : ℕ) (t : Table) (j : ℕ)
    → cur < length t
    → (slot (modify t cur bury) j).parent ≡ (slot t j).parent
parent-bury cur t j h = elim (ℕ_discrete cur j) [
  | yes e ↦
      subst (λ m. (slot (modify t cur bury) m).parent ≡ (slot t m).parent) e
        (ap (λ (p : Proc). p.parent) (slot-modify_self t cur bury h))
  | no ne ↦ ap (λ (p : Proc). p.parent) (slot-modify_ne t cur j bury ne)
]

-- What the locked part of `exit` leaves: the children of `cur` have init for their parent, and the
-- other processes the one that they had; `cur` is a zombie; its parent is runnable if it was
-- asleep on its own slot, as in `wait`; and so is init if a zombie has been passed to it.
pub record Exited (cur init : ℕ) (t r : Table) : Type 0 where
  pub passed :
      (j : ℕ)
      → j < length t
      → (slot r j).parent ≡ (if is_child cur (slot t j) then some init else (slot t j).parent)
  pub ended : (slot r cur).state ≡ zombie
  pub woken :
      (par : ℕ)
      → (slot t cur).parent ≡ some par
      → par ≢ cur
      → (slot t par).state ≡ sleeping
      → (slot t par).chan ≡ slot_addr par
      → (slot r par).state ≡ runnable
  pub init_woken :
      (j : ℕ)
      → j < length t
      → is_child cur (slot t j) ≡ true
      → (slot t j).state ≡ zombie
      → (slot t init).state ≡ sleeping
      → (slot t init).chan ≡ slot_addr init
      → (slot r init).state ≡ runnable

-- A process other than init that exits leaves its slot and its family as `Exited` says: each of its
-- children has init for its parent and no other parent changes, a parent that waits for it cannot
-- miss the wakeup, and neither can init, asleep on its own slot, for a child that is a zombie.
pub exit_locked-Exited :
    (cur init : ℕ) (t : Table)
    → cur < length t
    → init ≢ cur
    → Exited cur init t (exit_locked cur init t)
unfolding exit_locked
exit_locked-Exited cur init t h ne = record {
  passed = λ j lt.
      parent-bury cur passed j inside
      ∙ (parent-pass_children cur init (length t') 0 j t' (omega arith) (omega arith)
            (omega (arith, lt, length-wakeup1 chan t))
          ∙ ap (heir cur init) (parent-wake_if true chan t j));
  ended = ap (λ (p : Proc). p.state) (slot-modify_self passed cur bury inside);
  woken = λ par child other asleep own.
      ap (λ (p : Proc). p.state) (slot-modify_ne passed cur par bury (λ e. other (sym e)))
      ∙ runnable-pass_children cur init (length t') 0 par t' (omega arith) (
          ap (λ (p : Proc). p.state) (slot-wakeup1 chan t par)
          ∙ rw child (wake-sleeper par (slot t par) asleep own));
  init_woken = λ j lt child dead asleep own.
      ap (λ (p : Proc). p.state) (slot-modify_ne passed cur init bury (λ e. ne (sym e)))
      ∙ pass_children-woken cur init (length t') 0 j t' (omega arith) (omega arith)
          (omega (arith, lt, length-wakeup1 chan t))
          (ap (names cur) (parent-wake_if true chan t j) ∙ child)
          (ap (λ (p : Proc). p.state) (slot-wakeup1 chan t j) ∙ zombie-wake chan (slot t j) dead)
          (subst (IsAlert cur init) (sym (slot-wakeup1 chan t init))
            (alert (slot t init) asleep own));
}
  where
    chan : Chan
    chan = parent_chan (slot t cur).parent

    t' : Table
    t' = wakeup1 chan t

    passed : Table
    passed = pass_children cur init (length t') 0 t'

    inside : cur < length passed
    inside = omega (arith, length-pass_children cur init (length t') 0 t', length-wakeup1 chan t)

    alert :
        (p : Proc) → p.state ≡ sleeping → p.chan ≡ slot_addr init → IsAlert cur init (wake chan p)
    alert p a c = elim (Bool-cases (state_eq p.state sleeping && chan_eq p.chan chan)) [
      | inl e ↦ rw e (inl refl)
      | inr e ↦ rw e (inr (a, c))
    ]
