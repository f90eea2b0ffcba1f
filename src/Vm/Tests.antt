-- ===== src/Vm/Tests.antt =====
-- Page tables: runs on a directory with one table and two free pages.
use operation_system_project.Prelude.{
  ℕ, ◌+◌, ◌-◌, ◌/◌, ◌≡◌, ◌≢◌, ◌<◌, refl, sym, subst, ◌∙◌, true, false, List, [], ◌∷◌, All, ◌==◌,
  if◌then◌else◌, ok, Returns, arith,
}
use operation_system_project.Kalloc.{Kmem, page_size, page_round_up}
use operation_system_project.Kalloc.FreeList.{nil, cons, IsFree}
use operation_system_project.Vm.{entry_of, page_round_down, write_word, mappages, uva2ka}
use operation_system_project.Vm.Space.{HasTable, table, IsSpace}
use operation_system_project.Vm.Range.{mappages-RangeMapped}
use operation_system_project.Vm.Pages.{RangeMapped}
use operation_system_project.Vm.Translate.{uva2ka-mappages}
use operation_system_project.Vm.Memory.{user_write, allocuvm}
use operation_system_project.Vm.Enough.{allocuvm-Grown}
use operation_system_project.Vm.Rounds.{Grown}
use operation_system_project.Vm.Process.{Chunk, Uvm, page_fault}
use operation_system_project.Vm.Fault.{Faulted, page_fault-Faulted}

-- The directory is at 0x300000, its first table at 0x301000, and the free pages are 0x200000 and
-- 0x201000.
abbrev end : ℕ
end = 0x100000

abbrev pgdir : ℕ
pgdir = 0x300000

abbrev words : ℕ → ℕ
words a = if a == 0x300000 then 0x301007 else (if a == 0x200000 then 0x201000 else 0)

abbrev one_table : Kmem
one_table = record { freelist = 0x200000; mem = words }

abbrev two_pages : List ℕ
two_pages = 0x200000 ∷ 0x201000 ∷ []

first_table : HasTable words pgdir 0
first_table = refl

one_table-IsFree : IsFree end one_table two_pages
one_table-IsFree = record {
  chain = cons (omega arith) refl (cons (omega arith) refl nil);
  pages = (omega arith, (omega arith, tt));
  distinct = ((omega arith, tt), (tt, tt));
}

only_first : (d : ℕ) → HasTable words pgdir d → d ≡ 0
only_first d h = ground arith

at_first : (d : ℕ) (P : ℕ → Type 0) → HasTable words pgdir d → P 0 → P d
at_first d P h x = subst P (sym (only_first d h)) x

one_table-IsSpace : IsSpace end one_table two_pages pgdir
one_table-IsSpace = record {
  free = one_table-IsFree;
  dir = refl;
  dir_used = (omega arith, (omega arith, tt));
  table_pos = λ d h p. at_first d (λ d. 0 < table words pgdir d) p (omega arith);
  table_dir = λ d h p. at_first d (λ d. table words pgdir d ≢ pgdir) p (omega arith);
  table_used = λ d h p.
      at_first d (λ d. All (λ y. y ≢ table words pgdir d) two_pages) p
        (omega arith, (omega arith, tt));
  tables_apart = λ d e h h' ne p p'. elim (ne (only_first d p ∙ sym (only_first e p'))) [ ];
}

mappages-RangeMapped_example :
    RangeMapped end one_table two_pages pgdir
      (page_round_down 0x2000)
      ((0x2000 + 0x1800 - 1) / page_size - 0x2000 / page_size)
      0x205000
      user_write
      (mappages pgdir 0x2000 0x1800 0x205000 user_write one_table)
mappages-RangeMapped_example =
    mappages-RangeMapped (omega arith) user_write 0x2000 0x1800 0x205000 (omega arith) (omega arith)
      (omega arith) one_table-IsSpace

abbrev mapped : Kmem
mapped = write_word (0x301000 + 8) (entry_of 0x205000 user_write) one_table

maps_a_page : mappages pgdir 0x2000 0x1000 0x205000 user_write one_table ≡ ok (true, mapped)
unfolding mappages
maps_a_page = refl

uva2ka-mappages_example : uva2ka pgdir 0x2345 mapped ≡ ok 0x205000
uva2ka-mappages_example =
    uva2ka-mappages pgdir 0x2000 0x1000 0x205000 user_write 0x2345 (omega arith) one_table-IsSpace
      (omega arith) (omega arith) (omega arith) (omega arith) (omega arith) maps_a_page
      (omega arith) (omega arith)

allocuvm-Grown_example :
    Returns
      (Grown end one_table two_pages pgdir
        (page_round_up 0)
        ((page_round_up 0x1800 - page_round_up 0) / page_size)
        0x1800)
      (allocuvm end pgdir 0 0x1800 one_table)
allocuvm-Grown_example =
    allocuvm-Grown (omega arith) 0 0x1800 two_pages (omega arith) (omega arith) one_table-IsSpace
      first_table (omega arith) (λ i h. ground arith)

-- A heap of two pages and a stack of one.
abbrev small : Uvm
small = record { sz = 0x2000; sz2 = 0x9f000; pgdir = pgdir; killed = false }

page_fault-Faulted_example :
    Returns (Faulted end small one_table two_pages) (page_fault end small one_table)
page_fault-Faulted_example =
    page_fault-Faulted (omega arith) small one_table two_pages one_table-IsSpace first_table
      (omega arith) (omega arith) (omega arith) refl (omega arith)

-- Two user pages, which follow each other in user memory only.
abbrev two_mapped : Kmem
two_mapped = write_word (0x301000 + 12) (entry_of 0x203000 user_write) mapped

abbrev moves : List Chunk
moves =
    record { dst = 0x205ff0; from = 0; len = 16 }
    ∷ record { dst = 0x203000; from = 16; len = 16 }
    ∷ []
