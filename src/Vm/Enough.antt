-- ===== src/Vm/Enough.antt =====
-- `allocuvm` where enough pages are free: kernel/vm.c of "memory model and xv6 kernel modify ".
use operation_system_project.Prelude.{
  ℕ, ◌+◌, ◌-◌, ◌*◌, ◌/◌, ◌%◌, ◌≡◌, ◌≤◌, ◌<◌, sym, subst, ap, ◌∙◌, Bool, false, List, length, ltb,
  if◌then◌else◌, ok, Returns, arith,
}
use operation_system_project.Args.{user_top}
use operation_system_project.Kalloc.{Kmem, page_size, page_round_up}
use operation_system_project.Vm.{is_present}
use operation_system_project.Vm.Space.{HasTable, entry, IsSpace}
use operation_system_project.Vm.Memory.{alloc_from, allocuvm}
use operation_system_project.Vm.Rounds.{Grown, alloc_from-Grown}

module _ {end : ℕ} {pgdir : ℕ} (pos : 0 < end) where
  -- `allocuvm` from a size to one that is not smaller and at most USERTOP, in a directory whose tables
  -- are pages of their own and whose first table exists, where the pages to add are not mapped
  -- and at least as many pages are free, returns the new size. The pages from the old size,
  -- rounded up, to the new one are then user pages, writable and zero, each with an unused
  -- physical page of its own; the rest of the address space and the pages still unused are as
  -- they were.
  pub allocuvm-Grown :
      (oldsz newsz : ℕ) {k : Kmem} (xs : List ℕ)
      → oldsz ≤ newsz
      → newsz ≤ user_top
      → IsSpace end k xs pgdir
      → HasTable k.mem pgdir 0
      → (page_round_up newsz - page_round_up oldsz) / page_size ≤ length xs
      → ((i : ℕ)
          → i < (page_round_up newsz - page_round_up oldsz) / page_size
          → is_present (entry k.mem pgdir (page_round_up oldsz + page_size * i)) ≡ false)
      → Returns
          (Grown end k xs pgdir
            (page_round_up oldsz)
            ((page_round_up newsz - page_round_up oldsz) / page_size)
            newsz)
          (allocuvm end pgdir oldsz newsz k)
  unfolding allocuvm
  allocuvm-Grown oldsz newsz {k} xs le top s p room absent =
      subst
        (λ q.
          Returns
            (Grown end k xs pgdir (page_round_up oldsz)
              ((page_round_up newsz - page_round_up oldsz) / page_size) newsz)
            q)
        (sym (
          tests (ltb user_top newsz) (ltb newsz oldsz) (not_over newsz top)
            (not_smaller oldsz newsz le)))
        (alloc_from-Grown pos _ (user_top / page_size) oldsz newsz (page_round_up oldsz) xs
          (few oldsz newsz top) room (reach oldsz newsz) (short oldsz newsz le) top
          (round_aligned oldsz) s p absent)
    where
      not_over : (n : ℕ) → n ≤ user_top → ltb user_top n ≡ false
      not_over n h = ground arith

      not_smaller : (a b : ℕ) → a ≤ b → ltb b a ≡ false
      not_smaller a b h = ground arith

      few :
          (a b : ℕ)
          → b ≤ user_top
          → (page_round_up b - page_round_up a) / page_size ≤ user_top / page_size
      few a b h = omega (arith, h)

      reach :
          (a b : ℕ)
          → b ≤ page_round_up a + page_size * ((page_round_up b - page_round_up a) / page_size)
      reach a b = omega arith

      short :
          (a b : ℕ)
          → a ≤ b
          → page_round_up a + page_size * ((page_round_up b - page_round_up a) / page_size)
            < b + page_size
      short a b h = omega (arith, h)

      round_aligned : (a : ℕ) → page_round_up a % page_size ≡ 0
      round_aligned a = omega arith

      tests :
          (t u : Bool)
          → t ≡ false
          → u ≡ false
          → (if t
              then ok (0, k)
              else (if u
                  then ok (oldsz, k)
                  else alloc_from end
                      (user_top / page_size)
                      pgdir
                      oldsz
                      newsz
                      (page_round_up oldsz)
                      k))
            ≡ alloc_from end (user_top / page_size) pgdir oldsz newsz (page_round_up oldsz) k
      tests t u e e' =
          ap
            (λ t.
              if t
              then ok (0, k)
              else (if u
                  then ok (oldsz, k)
                  else alloc_from end (user_top / page_size) pgdir oldsz newsz (page_round_up oldsz)
                      k))
            e
          ∙ ap
              (λ u.
                if u
                then ok (oldsz, k)
                else alloc_from end (user_top / page_size) pgdir oldsz newsz (page_round_up oldsz)
                    k)
              e'
