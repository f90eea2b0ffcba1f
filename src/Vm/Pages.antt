-- ===== src/Vm/Pages.antt =====
-- A range of pages, by its first page and the others: `mappages` of kernel/vm.c, "memory model and xv6
-- kernel modify ".
use operation_system_project.Prelude.{
  ℕ, zero, suc, ◌+◌, ◌*◌, ◌/◌, ◌^◌, ◌≡◌, ◌≢◌, ◌≤◌, ◌<◌, ◌⊎◌, inl, inr, sym, subst, ap, ◌∙◌, Bool,
  true, false, List, [], ◌==◌, Result, ok, panic, ◌>>=◌, arith,
}
use operation_system_project.Kalloc.{Kmem, page_size}
use operation_system_project.Vm.{is_present, entry_of, next_page, after_page}
use operation_system_project.Vm.Space.{entry, IsSpace}
use operation_system_project.Vm.Walk.{IsFresh}
use operation_system_project.Vm.Mapping.{PageMapped, no_page, remap, page_mapped}

-- What `mappages` of the pages from `a` on, `n` more than one, comes to: the memory for tables ran
-- out; one of the pages was mapped before; or all pages have their entries, the entries of all
-- other pages are as they were, and fresh pages are left alone.
pub data RangeMapped (end : ℕ) (k : Kmem) (xs : List ℕ) (pgdir a n pa perm : ℕ)
    : Result (Bool × Kmem) → Type 0 where
  out_of_pages :
      {k' : Kmem}
      → IsSpace end k' [] pgdir
      → RangeMapped end k xs pgdir a n pa perm (ok (false, k'))
  remapped :
      (i : ℕ)
      → i ≤ n
      → is_present (entry k.mem pgdir (a + page_size * i)) ≡ true
      → RangeMapped end k xs pgdir a n pa perm panic
  range_mapped :
      {k' : Kmem} {xs' : List ℕ}
      → ((i : ℕ) → i ≤ n → is_present (entry k.mem pgdir (a + page_size * i)) ≡ false)
      → IsSpace end k' xs' pgdir
      → ((i : ℕ)
          → i ≤ n
          → entry k'.mem pgdir (a + page_size * i) ≡ entry_of (pa + page_size * i) perm)
      → ((b : ℕ)
          → b < 2 ^ 32
          → (b / page_size < a / page_size) ⊎ (a / page_size + n < b / page_size)
          → entry k'.mem pgdir b ≡ entry k.mem pgdir b)
      → ((z : ℕ) → IsFresh end k xs pgdir z → IsFresh end k' xs' pgdir z)
      → ((z i : ℕ) → IsFresh end k xs pgdir z → i < 1024 → k'.mem (z + 4 * i) ≡ k.mem (z + 4 * i))
      → RangeMapped end k xs pgdir a n pa perm (ok (true, k'))

pub no_offset : (a : ℕ) → a ≡ a + page_size * 0
no_offset a = omega arith

pub next_offset : (a j : ℕ) → a + page_size + page_size * j ≡ a + page_size * suc j
next_offset a j = omega arith

pub last_page : (a : ℕ) → (a == a + page_size * 0) ≡ true
last_page a = ground arith

pub not_last : (a n : ℕ) → (a == a + page_size * suc n) ≡ false
not_last a n = ground arith

pub next_page-eq : (a n : ℕ) → a + page_size * suc n < 2 ^ 32 → next_page a ≡ a + page_size
next_page-eq a n h = omega (arith, h)

module _ {end : ℕ} {pgdir : ℕ} (perm : ℕ) where
  module _ {k k' : Kmem} {xs xs' : List ℕ} (a n pa : ℕ) (fits : a + page_size * suc n < 2 ^ 32)
      (absent : is_present (entry k.mem pgdir a) ≡ false)
      (here : entry k'.mem pgdir a ≡ entry_of pa perm)
      (others : (b : ℕ)
        → b < 2 ^ 32
        → b / page_size ≢ a / page_size
        → entry k'.mem pgdir b ≡ entry k.mem pgdir b)
      (fresh : (z : ℕ) → IsFresh end k xs pgdir z → IsFresh end k' xs' pgdir z)
      (words : (z i : ℕ)
        → IsFresh end k xs pgdir z
        → i < 1024
        → k'.mem (z + 4 * i) ≡ k.mem (z + 4 * i)) where
    later :
        (j : ℕ)
        → j ≤ n
        → entry k'.mem pgdir (a + page_size + page_size * j)
          ≡ entry k.mem pgdir (a + page_size * suc j)
    later j h =
        others (a + page_size + page_size * j) (omega (arith, h, fits)) (λ e. omega (arith, e))
        ∙ ap (entry k.mem pgdir) (next_offset a j)

    RangeMapped-cons :
        {r : Result (Bool × Kmem)}
        → RangeMapped end k' xs' pgdir (a + page_size) n (pa + page_size) perm r
        → RangeMapped end k xs pgdir a (suc n) pa perm r
    RangeMapped-cons (out_of_pages s) = out_of_pages s
    RangeMapped-cons (remapped i h e) =
        remapped (suc i) (omega (arith, h)) (ap is_present (sym (later i h)) ∙ e)
    RangeMapped-cons (range_mapped {k' = k''} gone s mapped rest fresh' words') =
        range_mapped all_gone s all_mapped
          (λ b hb off. rest b hb (outside b off) ∙ others b hb (elsewhere b off))
          (λ z g. fresh' z (fresh z g)) (λ z i g h. words' z i (fresh z g) h ∙ words z i g h)
      where
        outside :
            (b : ℕ)
            → (b / page_size < a / page_size) ⊎ (a / page_size + suc n < b / page_size)
            → (b / page_size < (a + page_size) / page_size)
              ⊎ ((a + page_size) / page_size + n < b / page_size)
        outside b (inl h) = inl (omega (arith, h))
        outside b (inr h) = inr (omega (arith, h))

        elsewhere :
            (b : ℕ)
            → (b / page_size < a / page_size) ⊎ (a / page_size + suc n < b / page_size)
            → b / page_size ≢ a / page_size
        elsewhere b (inl h) e = omega (arith, h, e)
        elsewhere b (inr h) e = omega (arith, h, e)

        all_gone : (i : ℕ) → i ≤ suc n → is_present (entry k.mem pgdir (a + page_size * i)) ≡ false
        all_gone zero h = ap (λ x. is_present (entry k.mem pgdir x)) (sym (no_offset a)) ∙ absent
        all_gone (suc i) h =
            ap is_present (sym (later i (omega (arith, h)))) ∙ gone i (omega (arith, h))

        all_mapped :
            (i : ℕ)
            → i ≤ suc n
            → entry k''.mem pgdir (a + page_size * i) ≡ entry_of (pa + page_size * i) perm
        all_mapped zero h =
            ap (entry k''.mem pgdir) (sym (no_offset a))
            ∙ (rest a (omega (arith, fits)) (inl (omega arith))
                ∙ (here ∙ ap (λ x. entry_of x perm) (no_offset pa)))
        all_mapped (suc i) h =
            ap (entry k''.mem pgdir) (sym (next_offset a i))
            ∙ (mapped i (omega (arith, h)) ∙ ap (λ x. entry_of x perm) (next_offset pa i))

  single :
      {k k' : Kmem} {xs xs' : List ℕ} (a pa : ℕ)
      → is_present (entry k.mem pgdir a) ≡ false
      → IsSpace end k' xs' pgdir
      → entry k'.mem pgdir a ≡ entry_of pa perm
      → ((b : ℕ)
          → b < 2 ^ 32
          → b / page_size ≢ a / page_size
          → entry k'.mem pgdir b ≡ entry k.mem pgdir b)
      → ((z : ℕ) → IsFresh end k xs pgdir z → IsFresh end k' xs' pgdir z)
      → ((z i : ℕ) → IsFresh end k xs pgdir z → i < 1024 → k'.mem (z + 4 * i) ≡ k.mem (z + 4 * i))
      → RangeMapped end k xs pgdir a 0 pa perm (ok (true, k'))
  single {k} {k'} a pa absent s here others fresh words =
      range_mapped all_gone s all_mapped (λ b hb off. others b hb (elsewhere b off)) fresh words
    where
      elsewhere :
          (b : ℕ)
          → (b / page_size < a / page_size) ⊎ (a / page_size + 0 < b / page_size)
          → b / page_size ≢ a / page_size
      elsewhere b (inl h) e = omega (arith, h, e)
      elsewhere b (inr h) e = omega (arith, h, e)

      all_gone : (i : ℕ) → i ≤ 0 → is_present (entry k.mem pgdir (a + page_size * i)) ≡ false
      all_gone zero h = ap (λ x. is_present (entry k.mem pgdir x)) (sym (no_offset a)) ∙ absent
      all_gone (suc i) h = absurd (omega (arith, h))

      all_mapped :
          (i : ℕ)
          → i ≤ 0
          → entry k'.mem pgdir (a + page_size * i) ≡ entry_of (pa + page_size * i) perm
      all_mapped zero h =
          ap (entry k'.mem pgdir) (sym (no_offset a))
          ∙ (here ∙ ap (λ x. entry_of x perm) (no_offset pa))
      all_mapped (suc i) h = absurd (omega (arith, h))

  pub after_last :
      {k : Kmem} {xs : List ℕ} (a pa : ℕ) (more : Kmem → Result (Bool × Kmem))
      {r : Result (Bool × Kmem)}
      → IsSpace end k xs pgdir
      → PageMapped end k xs pgdir a (entry_of pa perm) r
      → RangeMapped end k xs pgdir a 0 pa perm (r >>= after_page true more)
  unfolding after_page
  after_last {k} a pa more s (no_page e) = out_of_pages (subst (λ xs. IsSpace end k xs pgdir) e s)
  after_last {k} a pa more s (remap e) =
      remapped 0 (omega arith) (ap (λ x. is_present (entry k.mem pgdir x)) (sym (no_offset a)) ∙ e)
  after_last a pa more s (page_mapped absent s' here others fresh words) =
      single a pa absent s' here others fresh words

  pub after_more :
      {k : Kmem} {xs : List ℕ} (a n pa : ℕ) (more : Kmem → Result (Bool × Kmem))
      {r : Result (Bool × Kmem)}
      → a + page_size * suc n < 2 ^ 32
      → IsSpace end k xs pgdir
      → ((k' : Kmem) (xs' : List ℕ)
          → IsSpace end k' xs' pgdir
          → RangeMapped end k' xs' pgdir (a + page_size) n (pa + page_size) perm (more k'))
      → PageMapped end k xs pgdir a (entry_of pa perm) r
      → RangeMapped end k xs pgdir a (suc n) pa perm (r >>= after_page false more)
  unfolding after_page
  after_more {k} a n pa more fits s rest (no_page e) =
      out_of_pages (subst (λ xs. IsSpace end k xs pgdir) e s)
  after_more {k} a n pa more fits s rest (remap e) =
      remapped 0 (omega arith) (ap (λ x. is_present (entry k.mem pgdir x)) (sym (no_offset a)) ∙ e)
  after_more a n pa more fits s rest (page_mapped absent s' here others fresh words) =
      RangeMapped-cons a n pa fits absent here others fresh words (rest _ _ s')
