-- ===== src/Proc/Life/Passing.antt =====
-- The loop of `exit` that passes the children of a process to init.
use native.Mathlib.Decide.{ℕ_discrete}
use mathlib.Core.Path.{subst}
use operation_system_project.Prelude.{
  ℕ, zero, suc, ◌+◌, ◌≤◌, ◌<◌, ◌≡◌, ◌≢◌, refl, sym, ap, ◌∙◌, ◌⊎◌, inl, inr, Bool, true, false, ◌&&◌,
  Option, some, length, length-modify, ◌==◌, if◌then◌else◌, modify, Bool-cases, arith,
}
use operation_system_project.Proc.{
  sleeping, runnable, zombie, state_eq, Chan, slot_addr, Proc, Table, slot,
}
use operation_system_project.Proc.Life.{
  names, give_to, wake_if, wake, is_child, pass_child, pass_children,
}
use operation_system_project.Proc.Life.Slots.{slot-modify_self, slot-modify_ne, slot-wakeup1}
use operation_system_project.Proc.Life.Waking.{
  wake-runnable, zombie-wake, wake-sleeper, length-wake_if, parent-wake_if, wake_if-runnable,
}

-- What a step of the loop makes of the parent of slot `j`.
abbrev passed_parent : ℕ → ℕ → ℕ → Table → ℕ → Option ℕ
passed_parent cur init i t j =
    if i == j && is_child cur (slot t i) then some init else (slot t j).parent

module _ (cur init : ℕ) where
  length-pass_child : (i : ℕ) (t : Table) → length (pass_child cur init i t) ≡ length t
  unfolding pass_child
  length-pass_child i t = elim (Bool-cases (is_child cur (slot t i))) [
    | inl c ↦
        rw c (length-wake_if _ _ (modify t i (give_to init)) ∙ length-modify t i (give_to init))
    | inr n ↦ rw n
  ]

  parent-pass_child :
      (i j : ℕ) (t : Table)
      → i < length t
      → (slot (pass_child cur init i t) j).parent ≡ passed_parent cur init i t j
  unfolding pass_child
  parent-pass_child i j t h = elim (Bool-cases (is_child cur (slot t i))) [
    | inr n ↦ rw n (ground arith)
    | inl c ↦ rw c (
        parent-wake_if _ _ (modify t i (give_to init)) j ∙ elim (ℕ_discrete i j) [
          | yes e ↦
              let same : (i == j) ≡ true = ground arith in
              rw same (
                subst (λ m. (slot (modify t i (give_to init)) m).parent ≡ some init) e
                  (ap (λ (p : Proc). p.parent) (slot-modify_self t i (give_to init) h)))
          | no ne ↦
              let other : (i == j) ≡ false = ground arith in
              rw other (ap (λ (p : Proc). p.parent) (slot-modify_ne t i j (give_to init) ne))
        ])
  ]

  runnable-pass_child :
      (i j : ℕ) (t : Table)
      → i < length t
      → (slot t j).state ≡ runnable
      → (slot (pass_child cur init i t) j).state ≡ runnable
  unfolding pass_child
  runnable-pass_child i j t h r = elim (Bool-cases (is_child cur (slot t i))) [
    | inr n ↦ rw n r
    | inl c ↦ rw c (
        wake_if-runnable _ _ (modify t i (give_to init)) j (elim (ℕ_discrete i j) [
          | yes e ↦
              subst (λ m. (slot (modify t i (give_to init)) m).state ≡ runnable) e
                (ap (λ (p : Proc). p.state) (slot-modify_self t i (give_to init) h)
                  ∙ subst (λ m. (slot t m).state ≡ runnable) (sym e) r)
          | no ne ↦ ap (λ (p : Proc). p.state) (slot-modify_ne t i j (give_to init) ne) ∙ r
        ]))
  ]

  pub length-pass_children :
      (n i : ℕ) (t : Table) → length (pass_children cur init n i t) ≡ length t
  unfolding pass_children
  length-pass_children zero i t = refl
  length-pass_children (suc n) i t =
      length-pass_children n (i + 1) (pass_child cur init i t) ∙ length-pass_child i t

  pub runnable-pass_children :
      (n i j : ℕ) (t : Table)
      → i + n ≤ length t
      → (slot t j).state ≡ runnable
      → (slot (pass_children cur init n i t) j).state ≡ runnable
  unfolding pass_children
  runnable-pass_children zero i j t h r = r
  runnable-pass_children (suc n) i j t h r =
      runnable-pass_children n (i + 1) j (pass_child cur init i t)
        (omega (arith, length-pass_child i t)) (runnable-pass_child i j t (omega arith) r)

  -- The parent of a slot after the whole loop: init for a child of `cur`, the same for the others.
  abbrev pub heir : Option ℕ → Option ℕ
  heir parent = if names cur parent then some init else parent

  heir_passed :
      (i j : ℕ) (t : Table) → i ≡ j → passed_parent cur init i t j ≡ heir (slot t j).parent
  heir_passed i j t e =
      let same : (i == j) ≡ true = ground arith in
      rw same (
        subst
          (λ m.
            (if is_child cur (slot t i) then some init else (slot t m).parent)
            ≡ heir (slot t m).parent)
          e refl)

  other_passed : (i j : ℕ) (t : Table) → i ≢ j → passed_parent cur init i t j ≡ (slot t j).parent
  other_passed i j t ne = let differ : (i == j) ≡ false = ground arith in rw differ refl

  -- The loop leaves the parents of the slots that it has passed.
  parent-pass_children_before :
      (n i j : ℕ) (t : Table)
      → i + n ≤ length t
      → j < i
      → (slot (pass_children cur init n i t) j).parent ≡ (slot t j).parent
  unfolding pass_children
  parent-pass_children_before zero i j t h lt = refl
  parent-pass_children_before (suc n) i j t h lt =
      parent-pass_children_before n (i + 1) j (pass_child cur init i t)
        (omega (arith, h, length-pass_child i t)) (omega (arith, lt))
      ∙ (parent-pass_child i j t (omega (arith, h))
          ∙ other_passed i j t (λ e. omega (arith, e, lt)))

  pub parent-pass_children :
      (n i j : ℕ) (t : Table)
      → i + n ≤ length t
      → i ≤ j
      → j < i + n
      → (slot (pass_children cur init n i t) j).parent ≡ heir (slot t j).parent
  unfolding pass_children
  parent-pass_children zero i j t h low high = absurd (omega (arith, low, high))
  parent-pass_children (suc n) i j t h low high =
      let room : i + 1 + n ≤ length (pass_child cur init i t) =
        omega (arith, h, length-pass_child i t) in
      elim (ℕ_discrete i j) [
        | yes e ↦
            parent-pass_children_before n (i + 1) j (pass_child cur init i t) room
              (omega (arith, e))
            ∙ (parent-pass_child i j t (omega (arith, h)) ∙ heir_passed i j t e)
        | no ne ↦
            parent-pass_children n (i + 1) j (pass_child cur init i t) room (omega (arith, low, ne))
              (omega (arith, high))
            ∙ ap heir (parent-pass_child i j t (omega (arith, h)) ∙ other_passed i j t ne)
      ]

  keep-modify :
      (P : Proc → Type 0) (i j : ℕ) (t : Table)
      → ((p : Proc) → P p → P (give_to init p))
      → i < length t
      → P (slot t j)
      → P (slot (modify t i (give_to init)) j)
  keep-modify P i j t given h p = elim (ℕ_discrete i j) [
    | yes e ↦
        subst (λ m. P (slot (modify t i (give_to init)) m)) e
          (subst P (sym (slot-modify_self t i (give_to init) h))
            (given (slot t i) (subst (λ m. P (slot t m)) (sym e) p)))
    | no ne ↦ subst P (sym (slot-modify_ne t i j (give_to init) ne)) p
  ]

  keep-wake_if :
      (P : Proc → Type 0) (b : Bool) (chan : Chan) (j : ℕ) (t : Table)
      → ((p : Proc) → P p → P (wake chan p))
      → P (slot t j)
      → P (slot (wake_if b chan t) j)
  keep-wake_if P true chan j t woken p = subst P (sym (slot-wakeup1 chan t j)) (woken (slot t j) p)
  keep-wake_if P false chan j t woken p = p

  -- What holds of a slot whatever its parent is, and also once it is woken, still holds.
  keep-pass_child :
      (P : Proc → Type 0) (i j : ℕ) (t : Table)
      → ((p : Proc) → P p → P (give_to init p))
      → ((p : Proc) → P p → P (wake (slot_addr init) p))
      → i < length t
      → P (slot t j)
      → P (slot (pass_child cur init i t) j)
  unfolding pass_child
  keep-pass_child P i j t given woken h p = elim (Bool-cases (is_child cur (slot t i))) [
    | inr n ↦ rw n p
    | inl c ↦ rw c (
        keep-wake_if P _ (slot_addr init) j (modify t i (give_to init)) woken
          (keep-modify P i j t given h p))
  ]

  -- init runs, or sleeps where it is woken.
  abbrev pub IsAlert : Proc → Type 0
  IsAlert p = (p.state ≡ runnable) ⊎ ((p.state ≡ sleeping) × (p.chan ≡ slot_addr init))

  IsAlert-wake : (p : Proc) → IsAlert p → (wake (slot_addr init) p).state ≡ runnable
  IsAlert-wake p (inl r) = wake-runnable (slot_addr init) p r
  IsAlert-wake p (inr (a, c)) = wake-sleeper init p a c

  -- The step at a zombie child wakes init.
  pass_child-woken :
      (i : ℕ) (t : Table)
      → i < length t
      → is_child cur (slot t i) ≡ true
      → (slot t i).state ≡ zombie
      → IsAlert (slot t init)
      → (slot (pass_child cur init i t) init).state ≡ runnable
  unfolding pass_child
  pass_child-woken i t h c z a =
      let dead : state_eq (slot (modify t i (give_to init)) i).state zombie ≡ true =
        ap (λ x. state_eq x zombie)
          (ap (λ (p : Proc). p.state) (slot-modify_self t i (give_to init) h) ∙ z) in
      rw (c, dead)
        (ap (λ (p : Proc). p.state) (slot-wakeup1 (slot_addr init) (modify t i (give_to init)) init)
          ∙ IsAlert-wake _ (keep-modify IsAlert i init t (λ p a. a) h a))

  pub pass_children-woken :
      (n i j : ℕ) (t : Table)
      → i + n ≤ length t
      → i ≤ j
      → j < i + n
      → is_child cur (slot t j) ≡ true
      → (slot t j).state ≡ zombie
      → IsAlert (slot t init)
      → (slot (pass_children cur init n i t) init).state ≡ runnable
  unfolding pass_children
  pass_children-woken zero i j t h low high c z a = absurd (omega (arith, low, high))
  pass_children-woken (suc n) i j t h low high c z a =
      let inside : i < length t = omega (arith, h) in
      let room : i + 1 + n ≤ length (pass_child cur init i t) =
        omega (arith, h, length-pass_child i t) in
      elim (ℕ_discrete i j) [
        | yes e ↦ runnable-pass_children n (i + 1) init (pass_child cur init i t) room (
            pass_child-woken i t inside (subst (λ m. is_child cur (slot t m) ≡ true) (sym e) c)
              (subst (λ m. (slot t m).state ≡ zombie) (sym e) z) a)
        | no ne ↦
            let other : (i == j) ≡ false = ground arith in
            pass_children-woken n (i + 1) j (pass_child cur init i t) room (omega (arith, low, ne))
              (omega (arith, high))
              (ap (names cur) (parent-pass_child i j t inside ∙ rw other refl) ∙ c)
              (keep-pass_child (λ p. p.state ≡ zombie) i j t (λ p q. q)
                (λ p q. zombie-wake (slot_addr init) p q) inside z)
              (keep-pass_child IsAlert i init t (λ p q. q) (λ p q. inl (IsAlert-wake p q)) inside a)
      ]
