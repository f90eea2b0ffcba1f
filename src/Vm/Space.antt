-- ===== src/Vm/Space.antt =====
-- Page directories and their tables as an invariant of the memory: kernel/vm.c of "memory model and xv6
-- kernel modify ".
use operation_system_project.Prelude.{
  ℕ, ◌+◌, ◌*◌, ◌%◌, ◌≡◌, ◌≢◌, ◌<◌, sym, ap, ◌∙◌, true, List, All, if◌then◌else◌, arith,
}
use operation_system_project.Kalloc.{Kmem, page_size, store_word}
use operation_system_project.Kalloc.FreeList.{Chain, nil, cons, IsFree}
use operation_system_project.Vm.{pdx, ptx, pte_addr, is_present}

-- Entry `d` of the directory, and the table that it points to.
abbrev pub dir_entry : (ℕ → ℕ) → (pgdir d : ℕ) → ℕ
dir_entry mem pgdir d = mem (pgdir + 4 * d)

abbrev pub table : (ℕ → ℕ) → (pgdir d : ℕ) → ℕ
table mem pgdir d = pte_addr (dir_entry mem pgdir d)

abbrev pub HasTable : (ℕ → ℕ) → (pgdir d : ℕ) → Type 0
HasTable mem pgdir d = is_present (dir_entry mem pgdir d) ≡ true

-- The entry of the page at `va`, 0 where there is no table.
abbrev pub entry : (ℕ → ℕ) → (pgdir va : ℕ) → ℕ
entry mem pgdir va =
    if is_present (dir_entry mem pgdir (pdx va))
    then mem (table mem pgdir (pdx va) + 4 * ptx va)
    else 0

-- The directory and its tables are pages, each for itself, and none of them is one of the free
-- pages `xs`.
pub record IsSpace (end : ℕ) (k : Kmem) (xs : List ℕ) (pgdir : ℕ) : Type 0 where
  pub free : IsFree end k xs
  pub dir : pgdir % page_size ≡ 0
  pub dir_used : All (λ y. y ≢ pgdir) xs
  pub table_pos : (d : ℕ) → d < 1024 → HasTable k.mem pgdir d → 0 < table k.mem pgdir d
  pub table_dir : (d : ℕ) → d < 1024 → HasTable k.mem pgdir d → table k.mem pgdir d ≢ pgdir
  pub table_used :
      (d : ℕ) → d < 1024 → HasTable k.mem pgdir d → All (λ y. y ≢ table k.mem pgdir d) xs
  pub tables_apart :
      (d e : ℕ)
      → d < 1024
      → e < 1024
      → d ≢ e
      → HasTable k.mem pgdir d
      → HasTable k.mem pgdir e
      → table k.mem pgdir d ≢ table k.mem pgdir e

pub pdx-lt : (va : ℕ) → pdx va < 1024
pdx-lt va = omega arith

pub ptx-lt : (va : ℕ) → ptx va < 1024
ptx-lt va = omega arith

pub table_aligned : (e : ℕ) → pte_addr e % page_size ≡ 0
table_aligned e = omega arith

-- Two words of different pages.
pub words_apart :
    (p q i j : ℕ)
    → p % page_size ≡ 0
    → q % page_size ≡ 0
    → p ≢ q
    → i < 1024
    → j < 1024
    → p + 4 * i ≢ q + 4 * j
words_apart p q i j hp hq ne hi hj e = ne (omega (arith, hp, hq, hi, hj, e))

pub Chain-same :
    {mem mem' : ℕ → ℕ} {p : ℕ} {xs : List ℕ}
    → All (λ y. mem' y ≡ mem y) xs
    → Chain mem p xs
    → Chain mem' p xs
Chain-same h nil = nil
Chain-same h (cons nz e c) = cons nz (h.0 ∙ e) (Chain-same h.1 c)

pub store_self : (mem : ℕ → ℕ) (a w : ℕ) → store_word mem a w a ≡ w
store_self mem a w = ground arith

pub store_other : (mem : ℕ → ℕ) (a w b : ℕ) → b ≢ a → store_word mem a w b ≡ mem b
store_other mem a w b h = ground arith

-- Another memory with the same directory and the same links of the free pages.
module _ {end : ℕ} {k : Kmem} {xs : List ℕ} {pgdir : ℕ} (s : IsSpace end k xs pgdir) (mem' : ℕ → ℕ)
    (same : (d : ℕ) → d < 1024 → dir_entry mem' pgdir d ≡ dir_entry k.mem pgdir d)
    (links : All (λ y. mem' y ≡ k.mem y) xs) where
  back : (d : ℕ) → d < 1024 → HasTable mem' pgdir d → HasTable k.mem pgdir d
  back d h p = ap is_present (sym (same d h)) ∙ p

  same_table : (d : ℕ) → d < 1024 → table mem' pgdir d ≡ table k.mem pgdir d
  same_table d h = ap pte_addr (same d h)

  pub IsSpace-same : IsSpace end (record k { mem = mem' }) xs pgdir
  IsSpace-same = record {
    free = record {
      chain = Chain-same links s.free.chain;
      pages = s.free.pages;
      distinct = s.free.distinct;
    };
    dir = s.dir;
    dir_used = s.dir_used;
    table_pos = λ d h p. rw (same_table d h) (s.table_pos d h (back d h p));
    table_dir = λ d h p. rw (same_table d h) (s.table_dir d h (back d h p));
    table_used = λ d h p. rw (same_table d h) (s.table_used d h (back d h p));
    tables_apart = λ d e h h' ne p p'.
        rw (same_table d h, same_table e h')
          (s.tables_apart d e h h' ne (back d h p) (back e h' p'));
  }
