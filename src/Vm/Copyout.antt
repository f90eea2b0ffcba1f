-- ===== src/Vm/Copyout.antt =====
-- Where `copyout` puts the bytes: kernel/vm.c of "memory model and xv6 kernel modify ".
use operation_system_project.Prelude.{
  ℕ, ◌+◌, ◌%◌, ◌≡◌, ◌<◌, true, if◌then◌else◌, Result, ok, panic, ◌&&◌, ◌==◌,
}
use operation_system_project.Kalloc.{Kmem, page_size}
use operation_system_project.Vm.{is_present, is_user, pte_addr}
use operation_system_project.Vm.Space.{entry}

-- The user address `va` translates to `a`, the address of a byte of a physical page that is not page
-- 0, by an entry that is present and a user's.
abbrev pub IsTranslated : (pgdir va : ℕ) → Kmem → ℕ → Type 0
IsTranslated pgdir va k a =
    (is_present (entry k.mem pgdir va) ≡ true)
    × ((is_user (entry k.mem pgdir va) ≡ true)
        × ((0 < pte_addr (entry k.mem pgdir va))
            × (a ≡ pte_addr (entry k.mem pgdir va) + va % page_size)))

-- The end of `uva2ka`, by the address of the entry and the entry.
abbrev translated : (pte v : ℕ) → Result ℕ
translated pte v =
    if pte == 0 then panic else (if is_present v && is_user v then ok (pte_addr v) else ok 0)
