-- ===== src/Vm/Adding.antt =====
-- A round of `allocuvm`, where the table is there already: kernel/vm.c of "memory model and xv6 kernel
-- modify ".
use operation_system_project.Prelude.{
  ℕ, zero, suc, ◌+◌, ◌-◌, ◌*◌, ◌/◌, ◌%◌, ◌^◌, ◌≡◌, ◌≢◌, ◌<◌, refl, sym, ap, ◌∙◌, Bool, true, false,
  List, ◌∷◌, ◌==◌, if◌then◌else◌, ok, panic, arith,
}
use operation_system_project.Kalloc.{Kmem, page_size}
use operation_system_project.Vm.{
  pdx, ptx, pte_addr, is_present, entry_of, page_round_down, walkpgdir, set_pte, map_page,
  after_page, mappages_from, mappages,
}
use operation_system_project.Vm.Space.{dir_entry, table, HasTable, entry, IsSpace, pdx-lt, ptx-lt}
use operation_system_project.Vm.Walk.{
  store-IsSpace, store-entry_self, store-entry_other, store_dir, IsFresh, zeroed, zero_dir,
  zero-IsSpace, zero-IsFresh, zero-entry, zero_page_self, zero_page-other,
}
use operation_system_project.Vm.Mapping.{
  entered, entered-IsFresh, entered-word, set_pte-walked, same_page,
}
use operation_system_project.Vm.Memory.{user_write, map_user}

-- The page `y`, taken from in front of the free pages, is zeroed and mapped at `a`; nothing else
-- that the directory maps and no other unused page changes.
pub record IsAdded (end : ℕ) (k k' : Kmem) (xs : List ℕ) (pgdir y a : ℕ) : Type 0 where
  pub space : IsSpace end k' xs pgdir
  pub tables : (d : ℕ) → d < 1024 → dir_entry k'.mem pgdir d ≡ dir_entry k.mem pgdir d
  pub here : entry k'.mem pgdir a ≡ entry_of y user_write
  pub others :
      (b : ℕ)
      → b < 2 ^ 32
      → b / page_size ≢ a / page_size
      → entry k'.mem pgdir b ≡ entry k.mem pgdir b
  pub unused : IsFresh end k' xs pgdir y
  pub zeros : (i : ℕ) → i < 1024 → k'.mem (y + 4 * i) ≡ 0
  pub fresh : (z : ℕ) → IsFresh end k (y ∷ xs) pgdir z → IsFresh end k' xs pgdir z
  pub words :
      (z i : ℕ) → IsFresh end k (y ∷ xs) pgdir z → i < 1024 → k'.mem (z + 4 * i) ≡ k.mem (z + 4 * i)

whole_page : (a : ℕ) → a % page_size ≡ 0 → page_round_down a ≡ a
whole_page a h = omega (arith, h)

one_page :
    (a : ℕ)
    → a % page_size ≡ 0
    → a < 2 ^ 22
    → page_round_down ((a + page_size + 2 ^ 32 - 1) % 2 ^ 32) ≡ a
one_page a h h' = omega (arith, h, h')

eq_self : (a : ℕ) → (a == a) ≡ true
eq_self a = ground arith

walkpgdir-present :
    (pgdir va : ℕ) (c : Bool) (k : Kmem)
    → HasTable k.mem pgdir (pdx va)
    → walkpgdir pgdir va c k ≡ (table k.mem pgdir (pdx va) + 4 * ptx va, k)
unfolding walkpgdir
walkpgdir-present pgdir va c k p = rw p refl

module _ {end : ℕ} {k : Kmem} {xs : List ℕ} {pgdir : ℕ} (s : IsSpace end k xs pgdir) (a e : ℕ)
    (p : HasTable k.mem pgdir (pdx a)) (absent : is_present (entry k.mem pgdir a) ≡ false) where
  map_page-entered :
      (pa perm : ℕ) → entry_of pa perm ≡ e → map_page pgdir a pa perm k ≡ ok (true, entered s a e p)
  unfolding map_page
  map_page-entered pa perm q =
      ap (λ x. set_pte x (walkpgdir pgdir a true k)) q
      ∙ (ap (set_pte e) (walkpgdir-present pgdir a true k p)
          ∙ (set_pte-walked s a e p
              ∙ ap (λ t. if t then panic else ok (true, entered s a e p)) absent))

  mappages_from-entered :
      (fuel pa perm : ℕ)
      → 0 < fuel
      → entry_of pa perm ≡ e
      → mappages_from fuel pgdir a a pa perm k ≡ ok (true, entered s a e p)
  unfolding mappages_from after_page
  mappages_from-entered zero pa perm h q = elim h [ ]
  mappages_from-entered (suc fuel) pa perm h q = rw (map_page-entered pa perm q, eq_self a) refl

  mappages-entered :
      (pa perm : ℕ)
      → entry_of pa perm ≡ e
      → a % page_size ≡ 0
      → a < 2 ^ 22
      → mappages pgdir a page_size pa perm k ≡ ok (true, entered s a e p)
  unfolding mappages
  mappages-entered pa perm q h h' =
      ap
        (λ x.
          mappages_from (2 ^ 20) pgdir x (page_round_down ((a + page_size + 2 ^ 32 - 1) % 2 ^ 32))
            pa perm k)
        (whole_page a h)
      ∙ (ap (λ x. mappages_from (2 ^ 20) pgdir a x pa perm k) (one_page a h h')
          ∙ mappages_from-entered (2 ^ 20) pa perm (omega arith) q)

module _ {end : ℕ} {k k₁ : Kmem} {xs : List ℕ} {y pgdir : ℕ} (same : k₁.mem ≡ k.mem)
    (s : IsSpace end k₁ xs pgdir) (f : IsFresh end k₁ xs pgdir y)
    (new : (z : ℕ) → IsFresh end k (y ∷ xs) pgdir z → IsFresh end k₁ xs pgdir z) (a : ℕ)
    (low : a < 2 ^ 22) (aligned : a % page_size ≡ 0) (p : HasTable k.mem pgdir (pdx a))
    (absent : is_present (entry k.mem pgdir a) ≡ false) where
  pub has_table : HasTable (zeroed s f).mem pgdir (pdx a)
  has_table =
      ap is_present (zero_dir s f (pdx a) (pdx-lt a) ∙ ap (λ m. dir_entry m pgdir (pdx a)) same) ∙ p

  abbrev pub added : Kmem
  added = entered (zero-IsSpace s f) a (entry_of y user_write) has_table

  pub added-IsAdded : IsAdded end k added xs pgdir y a
  added-IsAdded = record {
    space =
        store-IsSpace (zero-IsSpace s f) (pdx a) (ptx a) (entry_of y user_write) (pdx-lt a)
          (ptx-lt a) has_table;
    tables = λ d h.
        store_dir (zero-IsSpace s f) (pdx a) (ptx a) (entry_of y user_write) (pdx-lt a) (ptx-lt a)
          has_table d h
        ∙ (zero_dir s f d h ∙ ap (λ m. dir_entry m pgdir d) same);
    here =
        store-entry_self (zero-IsSpace s f) (pdx a) (ptx a) (entry_of y user_write) (pdx-lt a)
          (ptx-lt a) has_table a refl refl;
    others = λ b hb ne.
        store-entry_other (zero-IsSpace s f) (pdx a) (ptx a) (entry_of y user_write) (pdx-lt a)
          (ptx-lt a) has_table b (λ q. ne (same_page a b (omega (arith, low)) hb q.0 q.1))
        ∙ (zero-entry s f b ∙ ap (λ m. entry m pgdir b) same);
    unused =
        entered-IsFresh (zero-IsSpace s f) a (entry_of y user_write) has_table y (zero-IsFresh s f);
    zeros = λ i h.
        entered-word (zero-IsSpace s f) a (entry_of y user_write) has_table y i (zero-IsFresh s f) h
        ∙ zero_page_self k₁.mem y i h;
    fresh = λ z g.
        entered-IsFresh (zero-IsSpace s f) a (entry_of y user_write) has_table z
          (kept_fresh z g (new z g));
    words = λ z i g h.
        entered-word (zero-IsSpace s f) a (entry_of y user_write) has_table z i
          (kept_fresh z g (new z g)) h
        ∙ (zero_page-other k₁.mem y z i f.page.aligned g.page.aligned (λ q. g.not_free.0 (sym q)) h
            ∙ ap (λ m. m (z + 4 * i)) same);
  }
    where
      kept_fresh :
          (z : ℕ)
          → IsFresh end k (y ∷ xs) pgdir z
          → IsFresh end k₁ xs pgdir z
          → IsFresh end (zeroed s f) xs pgdir z
      kept_fresh z g g' = record {
        page = g'.page;
        not_dir = g'.not_dir;
        not_table = λ d h q q'.
            g'.not_table d h (ap is_present (sym (zero_dir s f d h)) ∙ q)
              (ap pte_addr (sym (zero_dir s f d h)) ∙ q');
        not_free = g'.not_free;
      }

  pub map_user-added : map_user pgdir a y k₁ ≡ ok (true, added)
  unfolding map_user
  map_user-added =
      mappages-entered (zero-IsSpace s f) a (entry_of y user_write) has_table
        (ap is_present (zero-entry s f a ∙ ap (λ m. entry m pgdir a) same) ∙ absent) y user_write
        refl aligned low
