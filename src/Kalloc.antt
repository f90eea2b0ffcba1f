-- ===== src/Kalloc.antt =====
-- The physical page allocator, kernel/kalloc.c of "triple file system": a list of free pages that
-- is threaded through the first word of each free page.
pub mod FreeList
mod Tests
use operation_system_project.Prelude.{
  ℕ, zero, suc, ◌+◌, ◌-◌, ◌*◌, ◌/◌, ◌%◌, not, ◌||◌, ◌&&◌, ltb, leb, ◌==◌, if◌then◌else◌, Result, ok,
  panic,
}

-- PGSIZE of mmu.h and PHYSTOP of param.h.
abbrev pub page_size : ℕ
page_size = 4096

abbrev pub phys_top : ℕ
phys_top = 0x1000000

-- `kmem.freelist` (0 is the null pointer), and the word stored at each address.
pub record Kmem : Type 0 where
  pub freelist : ℕ
  pub mem : ℕ → ℕ

-- The word of four bytes 1 that `memset(v, 1, PGSIZE)` leaves.
abbrev pub junk : ℕ
junk = 0x01010101

abbrev pub fill_page : (ℕ → ℕ) → ℕ → ℕ → ℕ
fill_page mem v a = if leb v a && ltb a (v + page_size) then junk else mem a

-- `r->next = kmem.freelist`, the first word of the page at `v`.
abbrev pub store_word : (ℕ → ℕ) → ℕ → ℕ → ℕ → ℕ
store_word mem v w a = if a == v then w else mem a

abbrev pub page_round_up : ℕ → ℕ
page_round_up a = (a + page_size - 1) / page_size * page_size

-- The page at `v` in front of the free list, after `kfree` has filled it with junk.
abbrev pub freed : ℕ → Kmem → Kmem
freed v k = record { freelist = v; mem = store_word (fill_page k.mem v) v k.freelist }

-- `end` is the linker's symbol for the first address after the kernel.
module _ (end : ℕ) where
  unfoldable pub kfree : ℕ → Kmem → Result Kmem
  kfree v k =
      if not (v % page_size == 0) || ltb v end || leb phys_top v then panic else ok (freed v k)

  -- The loop of `kinit`, on fuel.
  unfoldable pub kinit_loop : ℕ → ℕ → Kmem → Result Kmem
  kinit_loop zero p k = ok k
  kinit_loop (suc f) p k =
      if leb (p + page_size) phys_top
      then (elim (kfree p k) [ ok k' ↦ kinit_loop f (p + page_size) k' | panic ↦ panic ])
      else ok k

  -- There are `phys_top / page_size` pages at most.
  unfoldable pub kinit : Kmem → Result Kmem
  kinit k = kinit_loop (phys_top / page_size) (page_round_up end) k

unfoldable pub kalloc : Kmem → ℕ × Kmem
kalloc k = let r = k.freelist in if r == 0 then (r, k) else (r, record k { freelist = k.mem r })
