-- ===== src/Vm/Mapping.antt =====
-- A page that `mappages` maps: kernel/vm.c of "memory model and xv6 kernel modify ".
use operation_system_project.Prelude.{
  ℕ, ◌+◌, ◌*◌, ◌/◌, ◌%◌, ◌^◌, ◌≡◌, ◌≢◌, ◌<◌, inl, inr, refl, sym, subst, ap, ◌∙◌, Bool, true, false,
  Bool-cases, List, [], ◌==◌, if◌then◌else◌, Result, ok, panic, arith,
}
use operation_system_project.Prelude.Bits.{bit_or-page, bit_or-one}
use operation_system_project.Kalloc.{Kmem, page_size}
use operation_system_project.Vm.{
  pdx, ptx, pte_addr, is_present, is_user, write_word, entry_of, set_pte, map_page,
}
use operation_system_project.Vm.Space.{
  dir_entry, table, HasTable, entry, IsSpace, pdx-lt, ptx-lt, table_aligned, words_apart,
  store_other,
}
use operation_system_project.Vm.Walk.{
  entry-table, store-IsSpace, store-entry_self, store-entry_other, store_dir, IsFresh,
}
use operation_system_project.Vm.Create.{Walked, no_memory, walked, walkpgdir-Walked}

-- What a round comes to: no page is left for a table; the page is mapped already; or its entry is
-- set, the entries of all other pages are as they were, and fresh pages are left alone.
pub data PageMapped (end : ℕ) (k : Kmem) (xs : List ℕ) (pgdir a e : ℕ)
    : Result (Bool × Kmem) → Type 0 where
  no_page : xs ≡ [] → PageMapped end k xs pgdir a e (ok (false, k))
  remap : is_present (entry k.mem pgdir a) ≡ true → PageMapped end k xs pgdir a e panic
  page_mapped :
      {k' : Kmem} {xs' : List ℕ}
      → is_present (entry k.mem pgdir a) ≡ false
      → IsSpace end k' xs' pgdir
      → entry k'.mem pgdir a ≡ e
      → ((b : ℕ)
          → b < 2 ^ 32
          → b / page_size ≢ a / page_size
          → entry k'.mem pgdir b ≡ entry k.mem pgdir b)
      → ((z : ℕ) → IsFresh end k xs pgdir z → IsFresh end k' xs' pgdir z)
      → ((z i : ℕ) → IsFresh end k xs pgdir z → i < 1024 → k'.mem (z + 4 * i) ≡ k.mem (z + 4 * i))
      → PageMapped end k xs pgdir a e (ok (true, k'))

pub nonzero : (t i : ℕ) → 0 < t → (t + 4 * i == 0) ≡ false
nonzero t i h = ground arith

pub same_page :
    (a b : ℕ)
    → a < 2 ^ 32
    → b < 2 ^ 32
    → pdx b ≡ pdx a
    → ptx b ≡ ptx a
    → b / page_size ≡ a / page_size
same_page a b ha hb e e' = omega (arith, ha, hb, e, e')

module _ {end : ℕ} {pgdir : ℕ} where
  -- The entry of `a` is written.
  module _ {k : Kmem} {xs : List ℕ} (s : IsSpace end k xs pgdir) (a e : ℕ)
      (p : HasTable k.mem pgdir (pdx a)) where
    abbrev pub entered : Kmem
    entered = write_word (table k.mem pgdir (pdx a) + 4 * ptx a) e k

    pub entered-IsFresh : (z : ℕ) → IsFresh end k xs pgdir z → IsFresh end entered xs pgdir z
    entered-IsFresh z g = record {
      page = g.page;
      not_dir = g.not_dir;
      not_table = λ d h q q'.
          g.not_table d h (ap is_present (sym (dir d h)) ∙ q) (ap pte_addr (sym (dir d h)) ∙ q');
      not_free = g.not_free;
    }
      where
        dir : (d : ℕ) → d < 1024 → dir_entry entered.mem pgdir d ≡ dir_entry k.mem pgdir d
        dir = store_dir s (pdx a) (ptx a) e (pdx-lt a) (ptx-lt a) p

    pub entered-word :
        (z i : ℕ)
        → IsFresh end k xs pgdir z
        → i < 1024
        → entered.mem (z + 4 * i) ≡ k.mem (z + 4 * i)
    entered-word z i g h = store_other k.mem (table k.mem pgdir (pdx a) + 4 * ptx a) e (z + 4 * i) (
        words_apart z (table k.mem pgdir (pdx a)) i (ptx a) g.page.aligned
          (table_aligned (dir_entry k.mem pgdir (pdx a)))
          (λ q. g.not_table (pdx a) (pdx-lt a) p (sym q)) h (ptx-lt a))

    pub set_pte-walked :
        set_pte e (table k.mem pgdir (pdx a) + 4 * ptx a, k)
        ≡ (if is_present (entry k.mem pgdir a) then panic else ok (true, entered))
    unfolding set_pte
    set_pte-walked =
        rw
          (
            nonzero (table k.mem pgdir (pdx a)) (ptx a) (s.table_pos (pdx a) (pdx-lt a) p),
            entry-table k.mem pgdir a p,
          )
          refl

  PageMapped-Walked :
      {k : Kmem} {xs : List ℕ} (a e : ℕ) {r : ℕ × Kmem}
      → a < 2 ^ 32
      → Walked end k xs pgdir a r
      → PageMapped end k xs pgdir a e (set_pte e r)
  unfolding set_pte
  PageMapped-Walked a e ha (no_memory none absent) = no_page none
  PageMapped-Walked {k} {xs} a e ha (walked {k' = k'} {xs' = xs'} s p entries fresh words) =
      subst (λ r. PageMapped end k xs pgdir a e r) (sym (set_pte-walked s a e p))
        (elim (Bool-cases (is_present (entry k'.mem pgdir a))) [
          | inl q ↦ rw q (remap (ap is_present (sym (entries a)) ∙ q))
          | inr q ↦ rw q (
              page_mapped (ap is_present (sym (entries a)) ∙ q)
                (store-IsSpace s (pdx a) (ptx a) e (pdx-lt a) (ptx-lt a) p)
                (store-entry_self s (pdx a) (ptx a) e (pdx-lt a) (ptx-lt a) p a refl refl)
                (λ b hb ne.
                  store-entry_other s (pdx a) (ptx a) e (pdx-lt a) (ptx-lt a) p b
                    (λ q'. ne (same_page a b ha hb q'.0 q'.1))
                  ∙ entries b)
                (λ z g. entered-IsFresh s a e p z (fresh z g))
                (λ z i g h. entered-word s a e p z i (fresh z g) h ∙ words z i g h))
        ])

  pub map_page-PageMapped :
      {k : Kmem} {xs : List ℕ} (a pa perm : ℕ)
      → 0 < end
      → IsSpace end k xs pgdir
      → a < 2 ^ 32
      → PageMapped end k xs pgdir a (entry_of pa perm) (map_page pgdir a pa perm k)
  unfolding map_page
  map_page-PageMapped a pa perm pos s ha =
      PageMapped-Walked a (entry_of pa perm) ha (walkpgdir-Walked pos a s)

-- What an entry says.
entry_of-eq :
    (pa perm : ℕ)
    → pa % page_size ≡ 0
    → perm < page_size
    → entry_of pa perm ≡ (pa + perm) / 2 * 2 + 1
entry_of-eq pa perm h h' = rw (bit_or-page pa perm h h') (bit_or-one (pa + perm))

pub entry_of-present :
    (pa perm : ℕ) → pa % page_size ≡ 0 → perm < page_size → is_present (entry_of pa perm) ≡ true
entry_of-present pa perm h h' = rw (entry_of-eq pa perm h h') (odd (pa + perm))
  where
    odd : (x : ℕ) → is_present (x / 2 * 2 + 1) ≡ true
    odd x = ground arith

pub entry_of-user :
    (pa perm : ℕ)
    → pa % page_size ≡ 0
    → perm < page_size
    → is_user (entry_of pa perm) ≡ is_user perm
entry_of-user pa perm h h' = rw (entry_of-eq pa perm h h') (flags pa perm h)
  where
    same : (pa perm : ℕ) → pa % page_size ≡ 0 → ((pa + perm) / 2 * 2 + 1) / 4 % 2 ≡ perm / 4 % 2
    same pa perm h = omega (arith, h)

    flags : (pa perm : ℕ) → pa % page_size ≡ 0 → is_user ((pa + perm) / 2 * 2 + 1) ≡ is_user perm
    flags pa perm h = ap (λ x. x == 1) (same pa perm h)

pub entry_of-addr :
    (pa perm : ℕ) → pa % page_size ≡ 0 → perm < page_size → pte_addr (entry_of pa perm) ≡ pa
entry_of-addr pa perm h h' = rw (entry_of-eq pa perm h h') (omega (arith, h, h'))
