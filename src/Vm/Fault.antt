-- ===== src/Vm/Fault.antt =====
-- Growing the stack by a page fault: kernel/trap.c of "memory model and xv6 kernel modify ".
use operation_system_project.Prelude.{
  ℕ, ◌+◌, ◌-◌, ◌*◌, ◌/◌, ◌%◌, ◌^◌, ◌≡◌, ◌≤◌, ◌<◌, inl, inr, refl, sym, subst, ap, ◌∙◌, Bool, true,
  false, Bool-cases, List, length, ltb, ltb→lt, ◌==◌, if◌then◌else◌, ok, ◌>>=◌, Returns,
  Returns-bind, returns, arith,
}
use operation_system_project.Args.{user_top}
use operation_system_project.Kalloc.{Kmem, page_size, page_round_up}
use operation_system_project.Vm.{is_present}
use operation_system_project.Vm.Space.{HasTable, entry, IsSpace}
use operation_system_project.Vm.Memory.{allocuvm}
use operation_system_project.Vm.Growing.{IsGrown}
use operation_system_project.Vm.Enough.{allocuvm-Grown}
use operation_system_project.Vm.Rounds.{Grown}
use operation_system_project.Vm.Process.{Uvm, move_stack, page_fault}

-- What a fault does to the process: without room for two more pages above the heap it is killed
-- and nothing else changes; with room its stack is a page longer, which leaves more than a page
-- between the heap and the stack.
pub data Faulted (end : ℕ) (u : Uvm) (k : Kmem) (xs : List ℕ) : Uvm × Kmem → Type 0 where
  out_of_room : u.sz2 ≤ u.sz + 2 * page_size → Faulted end u k xs (record u { killed = true }, k)
  grown :
      {u' : Uvm} {k' : Kmem} (xs' : List ℕ)
      → u' ≡ record u { sz2 = u.sz2 - page_size }
      → u'.sz + page_size < u'.sz2
      → IsGrown end k k' xs xs' u.pgdir (u.sz2 - page_size) 1
      → Faulted end u k xs (u', k')

module _ {end : ℕ} (pos : 0 < end) (u : Uvm) (k : Kmem) (xs : List ℕ) where
  room-Faulted :
      u.sz + 2 * page_size < u.sz2
      → (r : ℕ × Kmem) → Grown end k xs u.pgdir (u.sz2 - page_size) 1 u.sz2 r
      → Returns (Faulted end u k xs) (move_stack u r)
  room-Faulted h r g =
      subst
        (λ t. Returns (Faulted end u k xs) (
          ok (
            (if t then record u { killed = true } else record u { sz2 = u.sz2 - page_size }),
            r.1,
          )))
        (sym test) (returns (grown g.1.0 refl (omega (arith, h)) g.1.1))
    where
      positive : (a b : ℕ) → a ≡ b → 0 < b → (a == 0) ≡ false
      positive a b e h = ground arith

      test : (r.0 == 0) ≡ false
      test = positive r.0 u.sz2 g.0 (omega (arith, h))

  page_fault-step :
      (t : Bool)
      → u.sz + 2 * page_size < 2 ^ 32
      → ltb (u.sz + 2 * page_size) u.sz2 ≡ t
      → page_fault end u k ≡ (
          if t
          then (allocuvm end u.pgdir (u.sz2 - page_size) u.sz2 k >>= move_stack u)
          else move_stack u (0, k))
  unfolding page_fault
  page_fault-step t small e =
      ap
        (λ t.
          if t
          then (allocuvm end u.pgdir (u.sz2 - page_size) u.sz2 k >>= move_stack u)
          else move_stack u (0, k))
        (ap (λ n. ltb n u.sz2) (no_wrap u.sz small) ∙ e)
    where
      no_wrap :
          (a : ℕ) → a + 2 * page_size < 2 ^ 32 → (a + 2 * page_size) % 2 ^ 32 ≡ a + 2 * page_size
      no_wrap a h = omega (arith, h)

  one_page-Grown :
      IsSpace end k xs u.pgdir
      → HasTable k.mem u.pgdir 0
      → 0 < length xs
      → u.sz2 % page_size ≡ 0
      → u.sz2 ≤ user_top
      → is_present (entry k.mem u.pgdir (u.sz2 - page_size)) ≡ false
      → page_size ≤ u.sz2
      → Returns
          (Grown end k xs u.pgdir (u.sz2 - page_size) 1 u.sz2)
          (allocuvm end u.pgdir (u.sz2 - page_size) u.sz2 k)
  one_page-Grown s p free aligned top absent big =
      subst
        (λ n.
          Returns (Grown end k xs u.pgdir (u.sz2 - page_size) n u.sz2)
            (allocuvm end u.pgdir (u.sz2 - page_size) u.sz2 k))
        (one u.sz2 aligned big)
        (subst
          (λ a.
            Returns
              (Grown end k xs u.pgdir a
                ((page_round_up u.sz2 - page_round_up (u.sz2 - page_size)) / page_size) u.sz2)
              (allocuvm end u.pgdir (u.sz2 - page_size) u.sz2 k))
          (whole u.sz2 aligned big)
          (allocuvm-Grown pos (u.sz2 - page_size) u.sz2 xs (omega arith) top s p
            (subst (λ n. n ≤ length xs) (sym (one u.sz2 aligned big)) free)
            (λ i h.
              ap (λ a. is_present (entry k.mem u.pgdir a)) (first u.sz2 aligned big i h) ∙ absent)))
    where
      one :
          (b : ℕ)
          → b % page_size ≡ 0
          → page_size ≤ b
          → (page_round_up b - page_round_up (b - page_size)) / page_size ≡ 1
      one b h h' = omega (arith, h, h')

      whole :
          (b : ℕ)
          → b % page_size ≡ 0
          → page_size ≤ b
          → page_round_up (b - page_size) ≡ b - page_size
      whole b h h' = omega (arith, h, h')

      first :
          (b : ℕ)
          → b % page_size ≡ 0
          → page_size ≤ b
          → (i : ℕ) → i < (page_round_up b - page_round_up (b - page_size)) / page_size
          → page_round_up (b - page_size) + page_size * i ≡ b - page_size
      first b h h' i l = omega (arith, h, h', l)

  -- A page fault on an access of the user's, in a process whose heap ends two pages below 2 ^ 32 at
  -- the latest, whose stack begins at a page, at USERTOP at the latest, and whose page below the stack is not mapped, with a directory whose
  -- tables are pages of their own, its first table there and a free page, returns. It kills the
  -- process exactly if there is no room; else it maps a zeroed page below the stack, and the heap
  -- and the stack stay more than a page apart.
  pub page_fault-Faulted :
      IsSpace end k xs u.pgdir
      → HasTable k.mem u.pgdir 0
      → 0 < length xs
      → u.sz2 % page_size ≡ 0
      → u.sz2 ≤ user_top
      → is_present (entry k.mem u.pgdir (u.sz2 - page_size)) ≡ false
      → u.sz + 2 * page_size < 2 ^ 32
      → Returns (Faulted end u k xs) (page_fault end u k)
  page_fault-Faulted s p free aligned top absent small =
      elim (Bool-cases (ltb (u.sz + 2 * page_size) u.sz2)) [
        | inl e ↦
            subst (λ r. Returns (Faulted end u k xs) r) (sym (page_fault-step true small e))
              (Returns-bind
                (one_page-Grown s p free aligned top absent
                  (big u.sz u.sz2 (ltb→lt (u.sz + 2 * page_size) u.sz2 e)))
                (room-Faulted (ltb→lt (u.sz + 2 * page_size) u.sz2 e)))
        | inr e ↦
            subst (λ r. Returns (Faulted end u k xs) r) (sym (page_fault-step false small e))
              (returns (out_of_room (no_room (u.sz + 2 * page_size) u.sz2 e)))
      ]
    where
      big : (a b : ℕ) → a + 2 * page_size < b → page_size ≤ b
      big a b h = omega (arith, h)

      no_room : (a b : ℕ) → ltb a b ≡ false → b ≤ a
      no_room a b e = ground arith
