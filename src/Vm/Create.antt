-- ===== src/Vm/Create.antt =====
-- What `walkpgdir` does where it may make a table: kernel/vm.c of "memory model and xv6 kernel modify ".
use operation_system_project.Prelude.{
  ℕ, ◌+◌, ◌*◌, ◌≡◌, ◌≢◌, ◌<◌, inl, inr, refl, sym, subst, ap, ◌∙◌, true, false, Bool-cases, List,
  [], ◌∷◌, ◌==◌, if◌then◌else◌, arith,
}
use operation_system_project.Kalloc.{Kmem, kalloc}
use operation_system_project.Kalloc.FreeList.{kalloc-Allocated}
use operation_system_project.Vm.{
  pdx, ptx, pte_addr, is_present, zero_page, write_word, pde_slot, new_table, walkpgdir,
}
use operation_system_project.Vm.Space.{
  dir_entry, table, HasTable, entry, IsSpace, pdx-lt, words_apart, store_other,
}
use operation_system_project.Vm.Walk.{
  zero_page_self, zero_page-other, zeroed, IsFresh, kalloc-IsFresh, zero-IsSpace, zero-IsFresh,
  zero-entry, zero_dir,
}
use operation_system_project.Vm.Tables.{
  table_entry, linked, linked-HasTable, linked_table, each_table, link-IsSpace, link-entry,
}

-- What `walkpgdir` with `create` may come to: no page is left and there is no table; or the address
-- of the entry, all entries as they were, and every page that was fresh is still fresh and has
-- its words.
pub data Walked (end : ℕ) (k : Kmem) (xs : List ℕ) (pgdir va : ℕ) : ℕ × Kmem → Type 0 where
  no_memory : xs ≡ [] → entry k.mem pgdir va ≡ 0 → Walked end k xs pgdir va (0, k)
  walked :
      {k' : Kmem} {xs' : List ℕ}
      → IsSpace end k' xs' pgdir
      → HasTable k'.mem pgdir (pdx va)
      → ((b : ℕ) → entry k'.mem pgdir b ≡ entry k.mem pgdir b)
      → ((z : ℕ) → IsFresh end k xs pgdir z → IsFresh end k' xs' pgdir z)
      → ((z i : ℕ) → IsFresh end k xs pgdir z → i < 1024 → k'.mem (z + 4 * i) ≡ k.mem (z + 4 * i))
      → Walked end k xs pgdir va (table k'.mem pgdir (pdx va) + 4 * ptx va, k')

is_pos : (y : ℕ) → 0 < y → (y == 0) ≡ false
is_pos y h = ground arith

new_table-null : (pgdir va : ℕ) (r : ℕ × Kmem) → r.0 ≡ 0 → new_table pgdir va r ≡ (0, r.1)
unfolding new_table
new_table-null pgdir va r e = rw e refl

new_table-made :
    (pgdir va : ℕ) (r : ℕ × Kmem) {y : ℕ}
    → r.0 ≡ y
    → 0 < y
    → new_table pgdir va r ≡ (
      y + 4 * ptx va,
      write_word (pde_slot pgdir va) (table_entry y) (record (r.1) { mem = zero_page r.1.mem y }),
    )
unfolding new_table
new_table-made pgdir va r {y} e h = rw (e, is_pos y h) refl

module _ {end : ℕ} {pgdir : ℕ} (pos : 0 < end) where
  -- The three changes to a fresh page `y`, from the memory that `kalloc` leaves.
  module _ {k : Kmem} {xs : List ℕ} {y : ℕ} (s : IsSpace end k xs pgdir)
      (f : IsFresh end k xs pgdir y) (va : ℕ)
      (none : is_present (dir_entry k.mem pgdir (pdx va)) ≡ false) where
    absent_zeroed : is_present (dir_entry (zeroed s f).mem pgdir (pdx va)) ≡ false
    absent_zeroed = ap is_present (zero_dir s f (pdx va) (pdx-lt va)) ∙ none

    abbrev made : Kmem
    made =
        linked pos (zero-IsSpace s f) (zero-IsFresh s f) (zero_page_self k.mem y) (pdx va)
          (pdx-lt va) absent_zeroed

    made-IsFresh : (z : ℕ) → z ≢ y → IsFresh end k xs pgdir z → IsFresh end made xs pgdir z
    made-IsFresh z ne g = record {
      page = g.page;
      not_dir = g.not_dir;
      not_table =
          each_table pos (zero-IsSpace s f) (zero-IsFresh s f) (zero_page_self k.mem y) (pdx va)
            (pdx-lt va) absent_zeroed (λ t. t ≢ z)
            (λ e he p q.
              g.not_table e he (ap is_present (sym (zero_dir s f e he)) ∙ p)
                (ap pte_addr (sym (zero_dir s f e he)) ∙ q))
            (λ q. ne (sym q));
      not_free = g.not_free;
    }

    made-word :
        (z i : ℕ)
        → z ≢ y
        → IsFresh end k xs pgdir z
        → i < 1024
        → made.mem (z + 4 * i) ≡ k.mem (z + 4 * i)
    made-word z i ne g h =
        store_other (zeroed s f).mem _ _ (z + 4 * i)
          (words_apart z pgdir i (pdx va) g.page.aligned s.dir g.not_dir h (pdx-lt va))
        ∙ zero_page-other k.mem y z i f.page.aligned g.page.aligned ne h

  made-Walked :
      {k : Kmem} {xs : List ℕ} {y : ℕ} (va : ℕ) (r : ℕ × Kmem)
      → is_present (dir_entry k.mem pgdir (pdx va)) ≡ false
      → r.0 ≡ y
      → IsSpace end r.1 xs pgdir
      → IsFresh end r.1 xs pgdir y
      → r.1.mem ≡ k.mem
      → Walked end k (y ∷ xs) pgdir va (new_table pgdir va r)
  made-Walked {k} {xs} {y} va r none e s f same =
      subst (λ q. Walked end k (y ∷ xs) pgdir va q)
        (sym (new_table-made pgdir va r e (omega (arith, f.page.above, pos))))
        (subst (λ t. Walked end k (y ∷ xs) pgdir va (t + 4 * ptx va, made s f va none'))
          (linked_table pos zs zf zw (pdx va) (pdx-lt va) none'')
          (walked (link-IsSpace pos zs zf zw (pdx va) (pdx-lt va) none'')
            (linked-HasTable pos zs zf zw (pdx va) (pdx-lt va) none'')
            (λ b.
              link-entry pos zs zf zw (pdx va) (pdx-lt va) none'' b
              ∙ (zero-entry s f b ∙ ap (λ m. entry m pgdir b) same))
            (λ z g. made-IsFresh s f va none' z (λ q. g.not_free.0 (sym q)) (old z g))
            (λ z i g h.
              made-word s f va none' z i (λ q. g.not_free.0 (sym q)) (old z g) h
              ∙ ap (λ m. m (z + 4 * i)) same)))
    where
      none' : is_present (dir_entry r.1.mem pgdir (pdx va)) ≡ false
      none' = ap (λ m. is_present (dir_entry m pgdir (pdx va))) same ∙ none

      zs : IsSpace end (zeroed s f) xs pgdir
      zs = zero-IsSpace s f

      zf : IsFresh end (zeroed s f) xs pgdir y
      zf = zero-IsFresh s f

      zw : (i : ℕ) → i < 1024 → (zeroed s f).mem (y + 4 * i) ≡ 0
      zw = zero_page_self r.1.mem y

      none'' : is_present (dir_entry (zeroed s f).mem pgdir (pdx va)) ≡ false
      none'' = absent_zeroed s f va none'

      old : (z : ℕ) → IsFresh end k (y ∷ xs) pgdir z → IsFresh end r.1 xs pgdir z
      old z g = record {
        page = g.page;
        not_dir = g.not_dir;
        not_table = rw same g.not_table;
        not_free = g.not_free.1;
      }

  null-Walked :
      {k : Kmem} (va : ℕ) (r : ℕ × Kmem)
      → is_present (dir_entry k.mem pgdir (pdx va)) ≡ false
      → r.0 ≡ 0
      → r.1 ≡ k
      → Walked end k [] pgdir va (new_table pgdir va r)
  null-Walked {k} va r none e same =
      subst (λ q. Walked end k [] pgdir va q)
        (sym (new_table-null pgdir va r e ∙ ap (λ m. (0, m)) same))
        (no_memory refl
          (ap (λ t. if t then k.mem (table k.mem pgdir (pdx va) + 4 * ptx va) else 0) none))

  absent-Walked :
      {k : Kmem} (xs : List ℕ) (va : ℕ)
      → IsSpace end k xs pgdir
      → is_present (dir_entry k.mem pgdir (pdx va)) ≡ false
      → Walked end k xs pgdir va (new_table pgdir va (kalloc k))
  absent-Walked {k} [] va s none =
      let a = kalloc-Allocated s.free in null-Walked va (kalloc k) none a.0 a.1
  absent-Walked {k} (y ∷ xs) va s none =
      let a = kalloc-IsFresh s in made-Walked va (kalloc k) none a.0 a.1.0 a.1.1.0 a.1.1.1

  pub walkpgdir-Walked :
      {k : Kmem} {xs : List ℕ} (va : ℕ)
      → IsSpace end k xs pgdir
      → Walked end k xs pgdir va (walkpgdir pgdir va true k)
  unfolding walkpgdir
  walkpgdir-Walked {k} {xs} va s = elim (Bool-cases (is_present (dir_entry k.mem pgdir (pdx va)))) [
    | inl p ↦ rw p (walked s p (λ b. refl) (λ z g. g) (λ z i g h. refl))
    | inr n ↦ rw n (absent-Walked xs va s n)
  ]
