-- ===== src/Vm/Tables.antt =====
-- `walkpgdir`, also where it makes a table: kernel/vm.c of "memory model and xv6 kernel modify ".
use Prim.Native.Nat.{bit_or}
use native.Mathlib.Decide.{ℕ_discrete}
use operation_system_project.Prelude.{
  ℕ, ◌+◌, ◌*◌, ◌/◌, ◌%◌, ◌≡◌, ◌≢◌, ◌<◌, sym, subst, ap, ◌∙◌, Bool, true, false, List, All,
  if◌then◌else◌, arith,
}
use operation_system_project.Prelude.Bits.{bit_or_step, bit_or-one}
use operation_system_project.Kalloc.{Kmem, page_size}
use operation_system_project.Vm.{pdx, ptx, pte_addr, pte_p, pte_w, pte_u, is_present, write_word}
use operation_system_project.Vm.Space.{
  dir_entry, table, HasTable, entry, IsSpace, pdx-lt, ptx-lt, table_aligned, words_apart,
  store_self, store_other, Chain-same,
}
use operation_system_project.Vm.Walk.{All-pair, entry_same, entry-table, first_word, IsFresh}

-- `PADDR(pgtab) | PTE_P | PTE_W | PTE_U`
abbrev pub table_entry : ℕ → ℕ
table_entry y = bit_or (bit_or (bit_or y pte_p) pte_w) pte_u

table_entry-eq : (y : ℕ) → y % page_size ≡ 0 → table_entry y ≡ y + 7
table_entry-eq y h = rw (bit_or-one y, two (y / 2 * 2 + 1), four) (omega (arith, h))
  where
    two : (a : ℕ) → bit_or a 2 ≡ a / 4 * 4 + 2 + a % 2
    two a = omega (arith, bit_or_step a 2, bit_or-one (a / 2))

    four : (a : ℕ) → bit_or a 4 ≡ a / 8 * 8 + 4 + a % 4
    four a = omega (arith, bit_or_step a 4, two (a / 2))

table_entry-present : (y : ℕ) → y % page_size ≡ 0 → is_present (table_entry y) ≡ true
table_entry-present y h = rw (table_entry-eq y h) (odd y h)
  where
    odd : (y : ℕ) → y % page_size ≡ 0 → is_present (y + 7) ≡ true
    odd y h = ground arith

table_entry-addr : (y : ℕ) → y % page_size ≡ 0 → pte_addr (table_entry y) ≡ y
table_entry-addr y h = rw (table_entry-eq y h) (omega (arith, h))

-- A fresh page of zeros becomes the table of the directory entry `d`.
module _ {end : ℕ} {k : Kmem} {xs : List ℕ} {pgdir y : ℕ} (pos : 0 < end)
    (s : IsSpace end k xs pgdir) (f : IsFresh end k xs pgdir y)
    (zeros : (i : ℕ) → i < 1024 → k.mem (y + 4 * i) ≡ 0) (d : ℕ) (hd : d < 1024)
    (none : is_present (dir_entry k.mem pgdir d) ≡ false) where
  abbrev pub linked : Kmem
  linked = write_word (pgdir + 4 * d) (table_entry y) k

  linked_self : dir_entry linked.mem pgdir d ≡ table_entry y
  linked_self = store_self k.mem (pgdir + 4 * d) (table_entry y)

  linked_other : (e : ℕ) → e ≢ d → dir_entry linked.mem pgdir e ≡ dir_entry k.mem pgdir e
  linked_other e ne =
      store_other k.mem (pgdir + 4 * d) (table_entry y) (pgdir + 4 * e)
        (λ q. ne (cancel pgdir e d q))
    where
      cancel : (t j i : ℕ) → t + 4 * j ≡ t + 4 * i → j ≡ i
      cancel t j i q = omega (arith, q)

  pub linked-HasTable : HasTable linked.mem pgdir d
  linked-HasTable = ap is_present linked_self ∙ table_entry-present y f.page.aligned

  pub linked_table : table linked.mem pgdir d ≡ y
  linked_table = ap pte_addr linked_self ∙ table_entry-addr y f.page.aligned

  -- A property of the tables holds of the new one and of the others.
  module _ (P : ℕ → Type 0)
      (old : (e : ℕ) → e < 1024 → HasTable k.mem pgdir e → P (table k.mem pgdir e))
      (new : P y) where
    pub each_table : (e : ℕ) → e < 1024 → HasTable linked.mem pgdir e → P (table linked.mem pgdir e)
    each_table e he p = elim (ℕ_discrete e d) [
      | yes q ↦ subst P (sym (ap (table linked.mem pgdir) q ∙ linked_table)) new
      | no ne ↦
          subst P (sym (ap pte_addr (linked_other e ne)))
            (old e he (ap is_present (sym (linked_other e ne)) ∙ p))
    ]

  linked-apart :
      (e e' : ℕ)
      → e < 1024
      → e' < 1024
      → e ≢ e'
      → HasTable linked.mem pgdir e
      → HasTable linked.mem pgdir e'
      → table linked.mem pgdir e ≢ table linked.mem pgdir e'
  linked-apart e e' he he' ne p p' q = elim (ℕ_discrete e d) [
    | yes h ↦
        old e' he' p' (λ h'. ne (h ∙ sym h'))
          (sym q ∙ (ap (table linked.mem pgdir) h ∙ linked_table))
    | no h ↦ elim (ℕ_discrete e' d) [
      | yes h' ↦ old e he p h (q ∙ (ap (table linked.mem pgdir) h' ∙ linked_table))
      | no h' ↦
          s.tables_apart e e' he he' ne (ap is_present (sym (linked_other e h)) ∙ p)
            (ap is_present (sym (linked_other e' h')) ∙ p')
            (ap pte_addr (sym (linked_other e h)) ∙ (q ∙ ap pte_addr (linked_other e' h')))
    ]
  ]
    where
      old : (x : ℕ) → x < 1024 → HasTable linked.mem pgdir x → x ≢ d → table linked.mem pgdir x ≢ y
      old x hx px nx qx =
          f.not_table x hx (ap is_present (sym (linked_other x nx)) ∙ px)
            (ap pte_addr (sym (linked_other x nx)) ∙ qx)

  pub link-IsSpace : IsSpace end linked xs pgdir
  link-IsSpace = record {
    free = record {
      chain =
          Chain-same
            (All-pair xs
              (λ z page ne.
                store_other k.mem (pgdir + 4 * d) (table_entry y) z
                  (first_word z pgdir d page.aligned s.dir hd ne))
              s.free.pages s.dir_used)
            s.free.chain;
      pages = s.free.pages;
      distinct = s.free.distinct;
    };
    dir = s.dir;
    dir_used = s.dir_used;
    table_pos = each_table (λ t. 0 < t) s.table_pos (omega (arith, f.page.above, pos));
    table_dir = each_table (λ t. t ≢ pgdir) s.table_dir f.not_dir;
    table_used = each_table (λ t. All (λ z. z ≢ t) xs) s.table_used f.not_free;
    tables_apart = linked-apart;
  }

  pub link-entry : (va : ℕ) → entry linked.mem pgdir va ≡ entry k.mem pgdir va
  link-entry va = elim (ℕ_discrete (pdx va) d) [
    | yes e ↦
        entry-table linked.mem pgdir va (ap (λ x. HasTable-test x) e ∙ linked-HasTable)
        ∙ (ap (λ x. linked.mem (table linked.mem pgdir x + 4 * ptx va)) e
            ∙ (ap (λ t. linked.mem (t + 4 * ptx va)) linked_table
                ∙ (store_other k.mem (pgdir + 4 * d) (table_entry y) (y + 4 * ptx va)
                      (words_apart y pgdir (ptx va) d f.page.aligned s.dir f.not_dir (ptx-lt va) hd)
                    ∙ (zeros (ptx va) (ptx-lt va) ∙ sym (absent va e)))))
    | no ne ↦ entry_same k.mem linked.mem pgdir va (linked_other (pdx va) ne) (λ p.
        store_other k.mem (pgdir + 4 * d) (table_entry y) _ (
          words_apart (table k.mem pgdir (pdx va)) pgdir (ptx va) d
            (table_aligned (dir_entry k.mem pgdir (pdx va))) s.dir
            (s.table_dir (pdx va) (pdx-lt va) p) (ptx-lt va) hd))
  ]
    where
      HasTable-test : ℕ → Bool
      HasTable-test x = is_present (dir_entry linked.mem pgdir x)

      absent : (va : ℕ) → pdx va ≡ d → entry k.mem pgdir va ≡ 0
      absent va e =
          ap (λ t. if t then k.mem (table k.mem pgdir (pdx va) + 4 * ptx va) else 0)
            (ap (λ x. is_present (dir_entry k.mem pgdir x)) e ∙ none)
