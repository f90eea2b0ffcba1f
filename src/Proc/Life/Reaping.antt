-- ===== src/Proc/Life/Reaping.antt =====
-- `wait`: which child it reaps, and when it gives up or sleeps.
use mathlib.Core.Path.{subst}
use operation_system_project.Prelude.{
  ℕ, zero, suc, ◌+◌, ◌<◌, ◌≡◌, ◌≢◌, refl, sym, inl, inr, Bool, true, false, not, ◌||◌, ◌&&◌, Option,
  none, some, [], ◌∷◌, length, Bool-cases, IsOk, Returns, returns, Result, ok, panic, ◌>>=◌, arith,
}
use operation_system_project.Proc.{
  Proc, Table, slot, ProcState, state_eq, unused, embryo, sleeping, runnable, running, zombie,
  slot_addr,
}
use operation_system_project.Proc.Life.{
  Services, Kernel, set_slot, is_child, scan_children, WaitStop, reaped, no_children, must_sleep,
  reap, sleep, wait_found, wait,
}
use operation_system_project.Proc.Life.Slots.{slot-modify_self, slot-modify_ne}

abbrev pub is_zombie_child : ℕ → Proc → Bool
is_zombie_child cur p = is_child cur p && state_eq p.state zombie

zombie_of_eq : (x : ProcState) → state_eq x zombie ≡ true → x ≡ zombie
zombie_of_eq zombie h = refl
zombie_of_eq unused h = cc
zombie_of_eq embryo h = cc
zombie_of_eq sleeping h = cc
zombie_of_eq runnable h = cc
zombie_of_eq running h = cc

-- What the scan has found, started at slot `i` with children seen or not.
abbrev pub Scanned : ℕ → Table → ℕ → Bool → Option ℕ × Bool → Type 0
Scanned cur t i seen (none, havekids) =
    ((k : ℕ) → k < length t → is_zombie_child cur (slot t k) ≡ false)
    × (havekids ≡ false
        → (seen ≡ false) × ((k : ℕ) → k < length t → is_child cur (slot t k) ≡ false))
    × (havekids ≡ true → seen ≡ false → (k : ℕ) × (k < length t) × (is_child cur (slot t k) ≡ true))
Scanned cur t i seen (some j, havekids) =
    (k : ℕ) × (j ≡ i + k) × (k < length t) × (is_zombie_child cur (slot t k) ≡ true)

-- A property of each slot, from the head and the rest.
all-cons :
    (P : Proc → Type 0) (p : Proc) (ps : Table)
    → P p
    → ((k : ℕ) → k < length ps → P (slot ps k))
    → (k : ℕ) → k < length (p ∷ ps)
    → P (slot (p ∷ ps) k)
all-cons P p ps h t zero lt = h
all-cons P p ps h t (suc k) lt = t k (omega arith)

Scanned-cons :
    (cur : ℕ) (p : Proc) (ps : Table) (i : ℕ) (seen : Bool) (r : Option ℕ × Bool)
    → is_zombie_child cur p ≡ false
    → Scanned cur ps (i + 1) (is_child cur p || seen) r
    → Scanned cur (p ∷ ps) i seen r
Scanned-cons cur p ps i seen (some j, b) live (k, at, lt, z) = (suc k, omega arith, omega arith, z)
Scanned-cons cur p ps i seen (none, b) live (dead, no_kids, kids) = (
  all-cons (λ q. is_zombie_child cur q ≡ false) p ps live dead,
  λ e.
      let (s, all) = no_kids e in
      (ground arith, all-cons (λ q. is_child cur q ≡ false) p ps (ground arith) all),
  λ e s. elim (Bool-cases (is_child cur p)) [
    | inl c ↦ (0, omega arith, c)
    | inr n ↦ let (k, lt, c) = kids e (ground arith) in (suc k, omega arith, c)
  ],
)

scan_children-Scanned :
    (cur : ℕ) (t : Table) (i : ℕ) (seen : Bool) → Scanned cur t i seen (scan_children cur t i seen)
unfolding scan_children
scan_children-Scanned cur [] i seen =
    ((λ k lt. elim lt [ ]), (λ e. (e, λ k lt. elim lt [ ])), λ e s. cc)
scan_children-Scanned cur (p ∷ ps) i seen = elim (Bool-cases (is_zombie_child cur p)) [
  | inl z ↦ rw z (0, omega arith, omega arith, z)
  | inr live ↦ rw live (
      Scanned-cons cur p ps i seen _ live
        (scan_children-Scanned cur ps (i + 1) (is_child cur p || seen)))
]

module _ (s : Services) where
  open s use {World, kfree, freevm}

  -- What a pass of `wait` gives when it returns.
  abbrev pub Waited : ℕ → Kernel World → WaitStop × Kernel World → Type 0
  Waited cur k (reaped pid, k') =
      (i : ℕ) × (i < length k.table)
      × (is_child cur (slot k.table i) ≡ true)
      × ((slot k.table i).state ≡ zombie)
      × (pid ≡ (slot k.table i).pid)
      × (slot k'.table i ≡ record (slot k.table i) {
        kstack = 0;
        state = unused;
        pid = 0;
        parent = none;
        killed = false;
      })
      × ((j : ℕ) → i ≢ j → slot k'.table j ≡ slot k.table j)
      × ((w : World) × (kfree (slot k.table i).kstack k.world ≡ ok w)
          × (freevm (slot k.table i).pgdir w ≡ ok k'.world))
  Waited cur k (no_children, k') =
      (k' ≡ k)
      × ((j : ℕ) → j < length k.table → is_zombie_child cur (slot k.table j) ≡ false)
      × ((slot k.table cur).killed ≡ false
          → (j : ℕ) → j < length k.table
          → is_child cur (slot k.table j) ≡ false)
  Waited cur k (must_sleep, k') =
      (cur < length k.table
        → slot k'.table cur ≡ record (slot k.table cur) { chan = slot_addr cur; state = sleeping })
      × ((j : ℕ) → cur ≢ j → slot k'.table j ≡ slot k.table j)
      × (k'.world ≡ k.world)
      × ((slot k.table cur).killed ≡ false)
      × ((j : ℕ) → j < length k.table → is_zombie_child cur (slot k.table j) ≡ false)
      × (j : ℕ) × (j < length k.table)
      × (is_child cur (slot k.table j) ≡ true)

  -- The stack and the page table of each zombie child are such that they can be freed.
  abbrev pub CanFree : ℕ → Kernel World → Type 0
  CanFree cur k =
      (i : ℕ)
      → i < length k.table
      → is_zombie_child cur (slot k.table i) ≡ true
      → IsOk (kfree (slot k.table i).kstack k.world >>= freevm (slot k.table i).pgdir)

  -- A freed stack and page table, and what the calls return.
  both_freed :
      {A : Type 0} (stack dir : ℕ) (w : World) (f : World → A)
      → IsOk (kfree stack w >>= freevm dir)
      → (u : World) × (v : World) × (kfree stack w ≡ ok u)
        × (freevm dir u ≡ ok v)
        × ((kfree stack w >>= λ u. freevm dir u >>= λ v. ok (f v)) ≡ ok (f v))
  both_freed stack dir w f h = by_stack (kfree stack w) refl h
    where
      by_dir :
          (u : World) (r : Result World)
          → kfree stack w ≡ ok u
          → freevm dir u ≡ r
          → IsOk r
          → (u : World) × (v : World) × (kfree stack w ≡ ok u)
            × (freevm dir u ≡ ok v)
            × ((kfree stack w >>= λ u. freevm dir u >>= λ v. ok (f v)) ≡ ok (f v))
      by_dir u (ok v) e e' h = (u, v, e, e', rw (e, e'))
      by_dir u panic e e' h = elim h [ ]

      by_stack :
          (r : Result World)
          → kfree stack w ≡ r
          → IsOk (r >>= freevm dir)
          → (u : World) × (v : World) × (kfree stack w ≡ ok u)
            × (freevm dir u ≡ ok v)
            × ((kfree stack w >>= λ u. freevm dir u >>= λ v. ok (f v)) ≡ ok (f v))
      by_stack (ok u) e h = by_dir u (freevm dir u) e refl h
      by_stack panic e h = elim h [ ]

  wait_found-Waited :
      (cur : ℕ) (k : Kernel World) (r : Option ℕ × Bool)
      → Scanned cur k.table 0 false r
      → CanFree cur k
      → Returns (Waited cur k) (wait_found s cur k r)
  unfolding wait_found sleep
  wait_found-Waited cur k (some i, b) (m, at, lt, z) free =
      let same : m ≡ i = omega arith in
      let z' : is_zombie_child cur (slot k.table i) ≡ true =
        subst (λ n. is_zombie_child cur (slot k.table n) ≡ true) same z in
      let inside : i < length k.table = omega arith in
      let (u, v, e, e', r) =
        both_freed (slot k.table i).kstack (slot k.table i).pgdir k.world
          (λ w. (reaped (slot k.table i).pid, set_slot (record k { world = w }) i reap))
          (free i inside z') in
      subst (Returns (Waited cur k)) (sym r) (
        returns (
          i,
          inside,
          ground arith,
          zombie_of_eq _ (ground arith),
          refl,
          slot-modify_self k.table i reap inside,
          (λ j ne. slot-modify_ne k.table i j reap ne),
          (u, e, e'),
        ))
  wait_found-Waited cur k (none, b) (dead, no_kids, kids) free =
      elim (Bool-cases (not b || (slot k.table cur).killed)) [
        | inl stop ↦ rw stop (returns (refl, dead, λ e. (no_kids (ground arith)).1))
        | inr go ↦
            let (j, lt, c) = kids (ground arith) refl in
            rw go (
              returns (
                (λ inside. slot-modify_self k.table cur _ inside),
                (λ j ne. slot-modify_ne k.table cur j _ ne),
                refl,
                ground arith,
                dead,
                j,
                lt,
                c,
              ))
      ]

  -- If the stack and the page table of each zombie child can be freed, a pass of `wait` returns. It
  -- reaps a zombie child and gives its pid: the stack and then the page table are freed, the slot
  -- is unused and has no stack, pid or parent and is not killed, and every other slot is left
  -- alone. Or it gives -1 and changes nothing, with no zombie child there, and no child at all
  -- unless the caller is killed. Or it puts the caller, which has children, none of them a zombie,
  -- and is not killed, to sleep on its own slot, and leaves every other slot alone.
  pub wait-Waited :
      (cur : ℕ) (k : Kernel World) → CanFree cur k → Returns (Waited cur k) (wait s cur k)
  unfolding wait
  wait-Waited cur k free =
      wait_found-Waited cur k (scan_children cur k.table 0 false)
        (scan_children-Scanned cur k.table 0 false) free
