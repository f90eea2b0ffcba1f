-- ===== src/Vm/Translate.antt =====
-- `uva2ka` after `mappages`: kernel/vm.c of "memory model and xv6 kernel modify ".
use operation_system_project.Prelude.{
  ℕ, ◌+◌, ◌-◌, ◌*◌, ◌/◌, ◌%◌, ◌^◌, ◌≡◌, ◌≢◌, ◌≤◌, ◌<◌, refl, sym, subst, ap, ◌∙◌, Bool, true, false,
  Bool-cases, List, inl, inr, if◌then◌else◌, ok, arith,
}
use operation_system_project.Kalloc.{Kmem, page_size}
use operation_system_project.Vm.{
  pdx, ptx, pte_addr, is_present, is_user, entry_of, page_round_down, walkpgdir, mappages, uva2ka,
}
use operation_system_project.Vm.Space.{dir_entry, table, HasTable, entry, IsSpace, pdx-lt}
use operation_system_project.Vm.Walk.{entry-table}
use operation_system_project.Vm.Mapping.{nonzero, entry_of-present, entry_of-user, entry_of-addr}
use operation_system_project.Vm.Range.{mappages-RangeMapped}
use operation_system_project.Vm.Pages.{RangeMapped, range_mapped}

-- An entry that is present is one of a table.
HasTable-entry :
    (mem : ℕ → ℕ) (pgdir va : ℕ)
    → is_present (entry mem pgdir va) ≡ true
    → HasTable mem pgdir (pdx va)
HasTable-entry mem pgdir va e = elim (Bool-cases (is_present (dir_entry mem pgdir (pdx va)))) [
  | inl p ↦ p
  | inr n ↦ absurd (no_entry (entry mem pgdir va) (rw n refl) e)
]
  where
    no_entry : (x : ℕ) → x ≡ 0 → is_present x ≢ true
    no_entry x h h' = ground arith

module _ {end : ℕ} {k : Kmem} {xs : List ℕ} {pgdir : ℕ} (s : IsSpace end k xs pgdir) where
  uva2ka-entry :
      (va : ℕ)
      → is_present (entry k.mem pgdir va) ≡ true
      → uva2ka pgdir va k
        ≡ ok (if is_user (entry k.mem pgdir va) then pte_addr (entry k.mem pgdir va) else 0)
  unfolding uva2ka walkpgdir
  uva2ka-entry va p =
      let has = HasTable-entry k.mem pgdir va p in
      let e = entry-table k.mem pgdir va has in
      rw
        (
          has,
          nonzero (table k.mem pgdir (pdx va)) (ptx va) (s.table_pos (pdx va) (pdx-lt va) has),
          ap is_present (sym e) ∙ p,
        )
        (ok_if (is_user (k.mem (table k.mem pgdir (pdx va) + 4 * ptx va)))
          (pte_addr (k.mem (table k.mem pgdir (pdx va) + 4 * ptx va))))
    where
      ok_if : (t : Bool) (a : ℕ) → (if t then ok a else ok 0) ≡ ok (if t then a else 0)
      ok_if true a = refl
      ok_if false a = refl

-- The number of the page of `va` in a range.
page_index : (la va : ℕ) → ℕ
page_index la va = va / page_size - la / page_size

module _ {end : ℕ} {k k' : Kmem} {xs : List ℕ} {pgdir n pa perm : ℕ} (la : ℕ)
    (aligned : pa % page_size ≡ 0) (flags : perm < page_size) where
  entry-range :
      (va : ℕ)
      → page_round_down la ≤ va
      → page_index la va ≤ n
      → RangeMapped end k xs pgdir (page_round_down la) n pa perm (ok (true, k'))
      → entry k'.mem pgdir va ≡ entry_of (pa + page_size * page_index la va) perm
  unfolding page_index
  entry-range va low high (range_mapped gone s mapped others fresh words) =
      same_entry (page_round_down la + page_size * page_index la va) va (dir_of la va low)
        (table_of la va low)
      ∙ mapped (page_index la va) high
    where
      same_entry :
          (x y : ℕ) → pdx y ≡ pdx x → ptx y ≡ ptx x → entry k'.mem pgdir y ≡ entry k'.mem pgdir x
      same_entry x y e e' =
          ap
            (λ d.
              if is_present (dir_entry k'.mem pgdir d)
              then k'.mem (table k'.mem pgdir d + 4 * ptx y)
              else 0)
            e
          ∙ ap
              (λ i.
                if is_present (dir_entry k'.mem pgdir (pdx x))
                then k'.mem (table k'.mem pgdir (pdx x) + 4 * i)
                else 0)
              e'

      dir_of :
          (la va : ℕ)
          → page_round_down la ≤ va
          → pdx va ≡ pdx (page_round_down la + page_size * (va / page_size - la / page_size))
      dir_of la va h = omega (arith, h)

      table_of :
          (la va : ℕ)
          → page_round_down la ≤ va
          → ptx va ≡ ptx (page_round_down la + page_size * (va / page_size - la / page_size))
      table_of la va h = omega (arith, h)

  IsSpace-range :
      RangeMapped end k xs pgdir (page_round_down la) n pa perm (ok (true, k'))
      → (xs' : List ℕ) × IsSpace end k' xs' pgdir
  IsSpace-range (range_mapped {xs' = xs'} gone s mapped others fresh words) = (xs', s)

  uva2ka-range :
      (va : ℕ)
      → page_round_down la ≤ va
      → page_index la va ≤ n
      → RangeMapped end k xs pgdir (page_round_down la) n pa perm (ok (true, k'))
      → uva2ka pgdir va k' ≡ ok (if is_user perm then pa + page_size * page_index la va else 0)
  uva2ka-range va low high r =
      let e = entry-range va low high r in
      let al = still_aligned pa (page_index la va) aligned in
      uva2ka-entry (IsSpace-range r).1 va
        (ap is_present e ∙ entry_of-present (pa + page_size * page_index la va) perm al flags)
      ∙ ap ok (
          ap (λ x. if is_user x then pte_addr x else 0) e
          ∙ (ap (λ t. if t then pte_addr (entry_of (pa + page_size * page_index la va) perm) else 0)
                (entry_of-user (pa + page_size * page_index la va) perm al flags)
              ∙ ap (λ x. if is_user perm then x else 0)
                  (entry_of-addr (pa + page_size * page_index la va) perm al flags)))
    where
      still_aligned : (pa i : ℕ) → pa % page_size ≡ 0 → (pa + page_size * i) % page_size ≡ 0
      still_aligned pa i h = omega (arith, h)

-- After a `mappages` that succeeds, of a range that is not empty and ends at 2 ^ 32 at most, to
-- physical pages that are aligned and, counted from the first byte of the range's first page, end
-- at 2 ^ 32 at most as well, with flags below 4096, in a directory whose tables are pages of their
-- own, `uva2ka` of every address from the first page on up to the end of the range gives the physical
-- page that it was mapped to, if the flags have PTE_U, and the null pointer otherwise.
pub uva2ka-mappages :
    {end : ℕ} {k k' : Kmem} {xs : List ℕ} (pgdir la size pa perm va : ℕ)
    → 0 < end
    → IsSpace end k xs pgdir
    → 0 < size
    → la + size ≤ 2 ^ 32
    → pa + la % page_size + size ≤ 2 ^ 32
    → pa % page_size ≡ 0
    → perm < page_size
    → mappages pgdir la size pa perm k ≡ ok (true, k')
    → page_round_down la ≤ va
    → va < la + size
    → uva2ka pgdir va k'
      ≡ ok (if is_user perm then pa + (page_round_down va - page_round_down la) else 0)
unfolding page_index
uva2ka-mappages {end} {k} {k'} {xs} pgdir la size pa perm va pos s nonempty fits fits' aligned flags
      e low high =
    uva2ka-range la aligned flags va low (index_le la size va low high) (
      subst
        (λ r.
          RangeMapped end k xs pgdir (page_round_down la)
            ((la + size - 1) / page_size - la / page_size) pa perm r)
        e (mappages-RangeMapped pos perm la size pa nonempty fits fits' s))
    ∙ ap (λ x. ok (if is_user perm then x else 0)) (offset pa la va low)
  where
    index_le :
        (la size va : ℕ)
        → page_round_down la ≤ va
        → va < la + size
        → va / page_size - la / page_size ≤ (la + size - 1) / page_size - la / page_size
    index_le la size va h h' = omega (arith, h, h')

    offset :
        (pa la va : ℕ)
        → page_round_down la ≤ va
        → pa + page_size * (va / page_size - la / page_size)
          ≡ pa + (page_round_down va - page_round_down la)
    offset pa la va h = omega (arith, h)
