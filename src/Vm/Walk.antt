-- ===== src/Vm/Walk.antt =====
-- Changes of one word or one page under a directory, and `walkpgdir`: kernel/vm.c of "memory model and
-- xv6 kernel modify ".
use native.Mathlib.Decide.{ℕ_discrete}
use operation_system_project.Prelude.{
  ℕ, ◌+◌, ◌*◌, ◌%◌, ◌≡◌, ◌≢◌, ◌≤◌, ◌<◌, ◌⊎◌, refl, sym, ap, ◌∙◌, Bool, true, false, List, [], ◌∷◌,
  All, if◌then◌else◌, arith,
}
use operation_system_project.Kalloc.{Kmem, page_size, store_word, kalloc}
use operation_system_project.Kalloc.FreeList.{IsPage, IsFree, Allocated, kalloc-Allocated}
use operation_system_project.Vm.{pdx, ptx, pte_addr, is_present, zero_page, write_word}
use operation_system_project.Vm.Space.{
  dir_entry, table, HasTable, entry, IsSpace, IsSpace-same, pdx-lt, ptx-lt, table_aligned,
  words_apart, store_self, store_other,
}

pub All-pair :
    {P Q R : ℕ → Type 0} (xs : List ℕ)
    → ((x : ℕ) → P x → Q x → R x)
    → All P xs
    → All Q xs
    → All R xs
All-pair [] f h h' = tt
All-pair (x ∷ xs) f h h' = (f x h.0 h'.0, All-pair xs f h.1 h'.1)

-- The entry of `va` depends on its directory entry and its word of the table.
pub entry_same :
    (mem mem' : ℕ → ℕ) (pgdir va : ℕ)
    → dir_entry mem' pgdir (pdx va) ≡ dir_entry mem pgdir (pdx va)
    → (HasTable mem pgdir (pdx va)
        → mem' (table mem pgdir (pdx va) + 4 * ptx va)
          ≡ mem (table mem pgdir (pdx va) + 4 * ptx va))
    → entry mem' pgdir va ≡ entry mem pgdir va
entry_same mem mem' pgdir va e h = rw e (by_test (is_present (dir_entry mem pgdir (pdx va))) h)
  where
    by_test :
        (t : Bool)
        → (t ≡ true
            → mem' (table mem pgdir (pdx va) + 4 * ptx va)
              ≡ mem (table mem pgdir (pdx va) + 4 * ptx va))
        → (if t then mem' (table mem pgdir (pdx va) + 4 * ptx va) else 0)
          ≡ (if t then mem (table mem pgdir (pdx va) + 4 * ptx va) else 0)
    by_test true h = h refl
    by_test false h = refl

pub entry-table :
    (mem : ℕ → ℕ) (pgdir va : ℕ)
    → HasTable mem pgdir (pdx va)
    → entry mem pgdir va ≡ mem (table mem pgdir (pdx va) + 4 * ptx va)
entry-table mem pgdir va p = rw p refl

pub first_word :
    (y q i : ℕ) → y % page_size ≡ 0 → q % page_size ≡ 0 → i < 1024 → y ≢ q → y ≢ q + 4 * i
first_word y q i h h' l ne e = ne (omega (arith, h, h', l, e))

pub zero_page-other :
    (mem : ℕ → ℕ) (y p i : ℕ)
    → y % page_size ≡ 0
    → p % page_size ≡ 0
    → p ≢ y
    → i < 1024
    → zero_page mem y (p + 4 * i) ≡ mem (p + 4 * i)
zero_page-other mem y p i hy hp ne l = ground (arith, apart y p i hy hp ne l)
  where
    apart :
        (y p i : ℕ)
        → y % page_size ≡ 0
        → p % page_size ≡ 0
        → p ≢ y
        → i < 1024
        → (p + 4 * i < y) ⊎ (y + page_size ≤ p + 4 * i)
    apart y p i hy hp ne l = ground arith

pub zero_page_self : (mem : ℕ → ℕ) (y i : ℕ) → i < 1024 → zero_page mem y (y + 4 * i) ≡ 0
zero_page_self mem y i l = ground arith

module _ {end : ℕ} {k : Kmem} {xs : List ℕ} {pgdir : ℕ} (s : IsSpace end k xs pgdir) where
  -- A word of a table changes.
  module _ (d i w : ℕ) (hd : d < 1024) (hi : i < 1024) (p : HasTable k.mem pgdir d) where
    abbrev pub slot : ℕ
    slot = table k.mem pgdir d + 4 * i

    pub store_dir :
        (e : ℕ) → e < 1024 → dir_entry (store_word k.mem slot w) pgdir e ≡ dir_entry k.mem pgdir e
    store_dir e he = store_other k.mem slot w (pgdir + 4 * e) (
        words_apart pgdir (table k.mem pgdir d) e i s.dir (table_aligned (dir_entry k.mem pgdir d))
          (λ q. s.table_dir d hd p (sym q)) he hi)

    pub store-IsSpace : IsSpace end (write_word slot w k) xs pgdir
    store-IsSpace = IsSpace-same s (store_word k.mem slot w) store_dir (
        All-pair xs
          (λ y page ne. store_other k.mem slot w y (
            first_word y (table k.mem pgdir d) i page.aligned
              (table_aligned (dir_entry k.mem pgdir d)) hi ne))
          s.free.pages (s.table_used d hd p))

    pub store-entry_self :
        (va : ℕ) → pdx va ≡ d → ptx va ≡ i → entry (store_word k.mem slot w) pgdir va ≡ w
    store-entry_self va e e' =
        entry-table (store_word k.mem slot w) pgdir va (
          ap (λ x. is_present (dir_entry (store_word k.mem slot w) pgdir x)) e
          ∙ (ap is_present (store_dir d hd) ∙ p))
        ∙ (ap (store_word k.mem slot w) (
              ap (λ x. table (store_word k.mem slot w) pgdir (pdx va) + 4 * x) e'
              ∙ (ap (λ x. table (store_word k.mem slot w) pgdir x + 4 * i) e
                  ∙ ap (λ x. pte_addr x + 4 * i) (store_dir d hd)))
            ∙ store_self k.mem slot w)

    pub store-entry_other :
        (va : ℕ)
        → ¬ ((pdx va ≡ d) × (ptx va ≡ i))
        → entry (store_word k.mem slot w) pgdir va ≡ entry k.mem pgdir va
    store-entry_other va ne =
        entry_same k.mem (store_word k.mem slot w) pgdir va (store_dir (pdx va) (pdx-lt va)) (λ q.
          store_other k.mem slot w _ (elim (ℕ_discrete (pdx va) d) [
            | yes e ↦ λ q'. ne (e, same_index (pdx va) d (ptx va) i e q')
            | no ne' ↦
                words_apart (table k.mem pgdir (pdx va)) (table k.mem pgdir d) (ptx va) i
                  (table_aligned (dir_entry k.mem pgdir (pdx va)))
                  (table_aligned (dir_entry k.mem pgdir d))
                  (s.tables_apart (pdx va) d (pdx-lt va) hd ne' q p) (ptx-lt va) hi
          ]))
      where
        same_index :
            (x d j i : ℕ)
            → x ≡ d
            → table k.mem pgdir x + 4 * j ≡ table k.mem pgdir d + 4 * i
            → j ≡ i
        same_index x d j i e q =
            cancel (table k.mem pgdir d) j i (ap (λ y. table k.mem pgdir y + 4 * j) (sym e) ∙ q)
          where
            cancel : (t j i : ℕ) → t + 4 * j ≡ t + 4 * i → j ≡ i
            cancel t j i q = omega (arith, q)

-- A page outside the directory, its tables and the free pages.
pub record IsFresh (end : ℕ) (k : Kmem) (xs : List ℕ) (pgdir y : ℕ) : Type 0 where
  pub page : IsPage end y
  pub not_dir : y ≢ pgdir
  pub not_table : (d : ℕ) → d < 1024 → HasTable k.mem pgdir d → table k.mem pgdir d ≢ y
  pub not_free : All (λ z. z ≢ y) xs

-- A page that `kalloc` hands out.
pub kalloc-IsFresh :
    {end : ℕ} {k : Kmem} {y : ℕ} {xs : List ℕ} {pgdir : ℕ}
    → IsSpace end k (y ∷ xs) pgdir
    → ((kalloc k).0 ≡ y)
      × (IsSpace end (kalloc k).1 xs pgdir
          × (IsFresh end (kalloc k).1 xs pgdir y × ((kalloc k).1.mem ≡ k.mem)))
kalloc-IsFresh {end} {k} {y} {xs} {pgdir} s =
    (a.0, (rest (kalloc k).1 a.2 a.3, (fresh (kalloc k).1 a.3, a.3)))
  where
    a : Allocated end k (y ∷ xs) (kalloc k)
    a = kalloc-Allocated s.free

    rest : (k' : Kmem) → IsFree end k' xs → k'.mem ≡ k.mem → IsSpace end k' xs pgdir
    rest k' f e = record {
      free = f;
      dir = s.dir;
      dir_used = s.dir_used.1;
      table_pos = rw e s.table_pos;
      table_dir = rw e s.table_dir;
      table_used = rw e (λ d h p. (s.table_used d h p).1);
      tables_apart = rw e s.tables_apart;
    }

    fresh : (k' : Kmem) → k'.mem ≡ k.mem → IsFresh end k' xs pgdir y
    fresh k' e = record {
      page = s.free.pages.0;
      not_dir = s.dir_used.0;
      not_table = rw e (λ d h p q. (s.table_used d h p).0 (sym q));
      not_free = s.free.distinct.0;
    }

module _ {end : ℕ} {k : Kmem} {xs : List ℕ} {pgdir y : ℕ} (s : IsSpace end k xs pgdir)
    (f : IsFresh end k xs pgdir y) where
  pub zero_dir :
      (e : ℕ) → e < 1024 → dir_entry (zero_page k.mem y) pgdir e ≡ dir_entry k.mem pgdir e
  zero_dir e he = zero_page-other k.mem y pgdir e f.page.aligned s.dir (λ q. f.not_dir (sym q)) he

  abbrev pub zeroed : Kmem
  zeroed = record k { mem = zero_page k.mem y }

  -- A fresh page is zeroed.
  pub zero-IsSpace : IsSpace end zeroed xs pgdir
  zero-IsSpace = IsSpace-same s (zero_page k.mem y) zero_dir (
      All-pair xs
        (λ z page ne.
          ap (zero_page k.mem y) (first z)
          ∙ (zero_page-other k.mem y z 0 f.page.aligned page.aligned ne (omega arith)
              ∙ ap k.mem (sym (first z))))
        s.free.pages f.not_free)
    where
      first : (z : ℕ) → z ≡ z + 4 * 0
      first z = omega arith

  pub zero-IsFresh : IsFresh end zeroed xs pgdir y
  zero-IsFresh = record {
    page = f.page;
    not_dir = f.not_dir;
    not_table = λ d h p q.
        f.not_table d h (ap is_present (sym (zero_dir d h)) ∙ p)
          (ap pte_addr (sym (zero_dir d h)) ∙ q);
    not_free = f.not_free;
  }

  pub zero-entry : (va : ℕ) → entry (zero_page k.mem y) pgdir va ≡ entry k.mem pgdir va
  zero-entry va =
      entry_same k.mem (zero_page k.mem y) pgdir va (zero_dir (pdx va) (pdx-lt va)) (λ p.
        zero_page-other k.mem y (table k.mem pgdir (pdx va)) (ptx va) f.page.aligned
          (table_aligned (dir_entry k.mem pgdir (pdx va))) (f.not_table (pdx va) (pdx-lt va) p)
          (ptx-lt va))
