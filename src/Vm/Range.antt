-- ===== src/Vm/Range.antt =====
-- The pages that `mappages` maps: kernel/vm.c of "memory model and xv6 kernel modify ".
use operation_system_project.Prelude.{
  ℕ, zero, suc, ◌+◌, ◌-◌, ◌*◌, ◌/◌, ◌%◌, ◌^◌, ◌≡◌, ◌≤◌, ◌<◌, sym, subst, List, arith,
}
use operation_system_project.Kalloc.{Kmem, page_size}
use operation_system_project.Vm.{next_page, page_round_down, mappages_from, mappages}
use operation_system_project.Vm.Space.{IsSpace}
use operation_system_project.Vm.Mapping.{map_page-PageMapped}
use operation_system_project.Vm.Pages.{
  RangeMapped, next_offset, last_page, not_last, next_page-eq, after_last, after_more,
}

module _ {end : ℕ} {pgdir : ℕ} (pos : 0 < end) (perm : ℕ) where
  mappages_from-RangeMapped :
      (fuel n a pa : ℕ) {k : Kmem} {xs : List ℕ}
      → n < fuel
      → a + page_size * n < 2 ^ 32
      → pa + page_size * n < 2 ^ 32
      → IsSpace end k xs pgdir
      → RangeMapped end k xs pgdir a n pa perm
          (mappages_from fuel pgdir a (a + page_size * n) pa perm k)
  unfolding mappages_from
  mappages_from-RangeMapped zero n a pa h fits fits' s = elim h [ ]
  mappages_from-RangeMapped (suc fuel) zero a pa h fits fits' s = rw (last_page a) (
      after_last perm a pa
        (mappages_from fuel pgdir (next_page a) (a + page_size * 0) (next_page pa) perm) s
        (map_page-PageMapped a pa perm pos s (omega (arith, fits))))
  mappages_from-RangeMapped (suc fuel) (suc n) a pa {k} {xs} h fits fits' s =
      rw (not_last a n, next_page-eq a n fits, next_page-eq pa n fits', sym (next_offset a n))
        (after_more perm a n pa _ fits s
          (λ k' xs' s'.
            mappages_from-RangeMapped fuel n (a + page_size) (pa + page_size) (omega (arith, h))
              (omega (arith, fits)) (omega (arith, fits')) s')
          (map_page-PageMapped a pa perm pos s (omega (arith, fits))))

  -- `mappages` of a range that is not empty and ends at 2 ^ 32 at most, to physical addresses that,
  -- counted from the first byte of the range's first page, end at 2 ^ 32 at most as well, in a
  -- directory whose tables are pages of their own, does not run out of rounds. It panics if a page of the range is mapped
  -- already; it returns -1 if the memory for tables has run out; and otherwise every page of the
  -- range has the entry of its physical page, with the flags given, the entries of all pages
  -- outside the range are as they were, and pages that nobody uses stay unused and unchanged.
  pub mappages-RangeMapped :
      (la size pa : ℕ) {k : Kmem} {xs : List ℕ}
      → 0 < size
      → la + size ≤ 2 ^ 32
      → pa + la % page_size + size ≤ 2 ^ 32
      → IsSpace end k xs pgdir
      → RangeMapped end k xs pgdir
          (page_round_down la)
          ((la + size - 1) / page_size - la / page_size)
          pa
          perm
          (mappages pgdir la size pa perm k)
  unfolding mappages
  mappages-RangeMapped la size pa {k} {xs} pos' fits fits' s =
      subst
        (λ last.
          RangeMapped end k xs pgdir (page_round_down la)
            ((la + size - 1) / page_size - la / page_size) pa perm
            (mappages_from (2 ^ 20) pgdir (page_round_down la) last pa perm k))
        (sym (end_of la size pos' fits))
        (mappages_from-RangeMapped (2 ^ 20) _ (page_round_down la) pa (few la size pos' fits)
          (below la size pos' fits) (below' la size pa pos' fits') s)
    where
      end_of :
          (la size : ℕ)
          → 0 < size
          → la + size ≤ 2 ^ 32
          → page_round_down ((la + size + 2 ^ 32 - 1) % 2 ^ 32)
            ≡ page_round_down la + page_size * ((la + size - 1) / page_size - la / page_size)
      end_of la size h h' = omega (arith, h, h')

      few :
          (la size : ℕ)
          → 0 < size
          → la + size ≤ 2 ^ 32
          → (la + size - 1) / page_size - la / page_size < 2 ^ 20
      few la size h h' = omega (arith, h, h')

      below :
          (la size : ℕ)
          → 0 < size
          → la + size ≤ 2 ^ 32
          → page_round_down la + page_size * ((la + size - 1) / page_size - la / page_size) < 2 ^ 32
      below la size h h' = omega (arith, h, h')

      below' :
          (la size pa : ℕ)
          → 0 < size
          → pa + la % page_size + size ≤ 2 ^ 32
          → pa + page_size * ((la + size - 1) / page_size - la / page_size) < 2 ^ 32
      below' la size pa h h' = omega (arith, h, h')
