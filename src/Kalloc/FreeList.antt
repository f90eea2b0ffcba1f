-- ===== src/Kalloc/FreeList.antt =====
-- The free list of kalloc.c as a list of pages: allocation, release and initialisation.
use operation_system_project.Prelude.{
  ℕ, ◌↔◌, ◌∙◌, false, ltb, not, ◌||◌, sym, leb→le, zero, suc, ◌+◌, ◌-◌, ◌*◌, ◌/◌, ◌%◌, ◌≤◌, ◌<◌,
  ◌≡◌, ◌≢◌, refl, inl, inr, List, [], ◌∷◌, leb, ◌==◌, Bool-cases, All, ok, panic, Returns, returns,
  arith,
}
use mathlib.Core.Path.{subst}
use operation_system_project.Kalloc.{
  freed, Kmem, page_size, phys_top, fill_page, store_word, page_round_up, kfree, kinit_loop, kinit,
  kalloc,
}

-- From `p` the `next` words lead through the pages `xs` to the null pointer.
pub data Chain (mem : ℕ → ℕ) : ℕ → List ℕ → Type 0 where
  nil : Chain mem 0 []
  cons : {p q : ℕ} {xs : List ℕ} → p ≢ 0 → mem p ≡ q → Chain mem q xs → Chain mem p (p ∷ xs)

-- A page of the free pool: aligned, behind the kernel and below the top of memory.
pub record IsPage (end v : ℕ) : Type 0 where
  pub aligned : v % page_size ≡ 0
  pub above : end ≤ v
  pub below : v < phys_top

-- No page occurs twice.
abbrev pub Distinct : List ℕ → Type 0
Distinct [] = Unit
Distinct (x ∷ xs) = All (λ y. y ≢ x) xs × Distinct xs

-- The allocator holds exactly the pages `xs`, the next to be handed out first.
pub record IsFree (end : ℕ) (k : Kmem) (xs : List ℕ) : Type 0 where
  pub chain : Chain k.mem k.freelist xs
  pub pages : All (IsPage end) xs
  pub distinct : Distinct xs

-- Writing inside the page at `v` keeps the first word of every other page.
kept_word :
    (mem : ℕ → ℕ) (v w p : ℕ)
    → p % page_size ≡ 0
    → v % page_size ≡ 0
    → p ≢ v
    → store_word (fill_page mem v) v w p ≡ mem p
kept_word mem v w p hp hv ne = ground arith

Chain-kfree :
    (end : ℕ) {mem : ℕ → ℕ} {p : ℕ} {xs : List ℕ} (v w : ℕ)
    → v % page_size ≡ 0
    → Chain mem p xs
    → All (IsPage end) xs
    → All (λ y. y ≢ v) xs
    → Chain (store_word (fill_page mem v) v w) p xs
Chain-kfree end v w hv nil pages fresh = nil
Chain-kfree end {mem} v w hv (cons {p} nz e c) pages fresh =
    cons nz (kept_word mem v w p pages.0.aligned hv fresh.0 ∙ e)
      (Chain-kfree end v w hv c pages.1 fresh.1)

kfree_page : {end v : ℕ} (k : Kmem) → IsPage end v → kfree end v k ≡ ok (freed v k)
unfolding kfree
kfree_page k page = ground arith

module _ {end : ℕ} {k : Kmem} {xs : List ℕ} where
  freed-IsFree :
      {v : ℕ}
      → 0 < end
      → IsFree end k xs
      → IsPage end v
      → All (λ y. y ≢ v) xs
      → IsFree end (freed v k) (v ∷ xs)
  freed-IsFree {v} pos free page fresh = record {
    chain =
        cons (omega (arith, page.above)) (ground arith)
          (Chain-kfree end v k.freelist page.aligned free.chain free.pages fresh);
    pages = (page, free.pages);
    distinct = (fresh, free.distinct);
  }

  -- `kfree` of a page of the pool that is not free already does not panic, and puts the page in
  -- front of the free pages, which are otherwise the same.
  pub kfree-IsFree :
      {v : ℕ}
      → 0 < end
      → IsFree end k xs
      → IsPage end v
      → All (λ y. y ≢ v) xs
      → Returns (λ k'. IsFree end k' (v ∷ xs)) (kfree end v k)
  kfree-IsFree pos free page fresh =
      rw (kfree_page k page) (returns (freed-IsFree pos free page fresh))

-- `kfree` panics exactly on an address that is no page of the pool.
pub kfree-panic : (end v : ℕ) (k : Kmem) → (kfree end v k ≡ panic) ↔ (¬ IsPage end v)
unfolding kfree
kfree-panic end v k = (
  λ e page. ground arith,
  λ bad. elim (Bool-cases (not (v % page_size == 0) || ltb v end || leb phys_top v)) [
    | inl rejected ↦ rw rejected
    | inr passed ↦
        absurd (bad (record { aligned = ground arith; above = ground arith; below = ground arith }))
  ],
)

-- What a call of `kalloc` gives for the free pages `xs`.
abbrev pub Allocated : ℕ → Kmem → List ℕ → ℕ × Kmem → Type 0
Allocated end k [] r = (r.0 ≡ 0) × (r.1 ≡ k)
Allocated end k (p ∷ xs) r = (r.0 ≡ p) × IsPage end p × IsFree end r.1 xs × (r.1.mem ≡ k.mem)

kalloc-Chain :
    (end : ℕ) {p : ℕ} {xs : List ℕ} {mem : ℕ → ℕ}
    → Chain mem p xs
    → All (IsPage end) xs
    → Distinct xs
    → Allocated end
        (record { freelist = p; mem = mem })
        xs
        (kalloc (record { freelist = p; mem = mem }))
unfolding kalloc
kalloc-Chain end nil pages distinct = (refl, refl)
kalloc-Chain end {mem} (cons {p} {q} {xs} nz e c) pages distinct =
    let ne : (p == 0) ≡ false = ground arith in
    rw (ne, e) (refl, pages.0, record { chain = c; pages = pages.1; distinct = distinct.1 }, refl)

-- `kalloc` hands out the first free page, keeps the others and writes no memory; if no page is
-- free it returns the null pointer and changes nothing.
pub kalloc-Allocated :
    {end : ℕ} {k : Kmem} {xs : List ℕ} → IsFree end k xs → Allocated end k xs (kalloc k)
kalloc-Allocated {end} {k} free = kalloc-Chain end free.chain free.pages free.distinct

-- The `n` pages from `base` on, the last one first.
abbrev pub pages_from : ℕ → ℕ → List ℕ
pages_from base zero = []
pages_from base (suc n) = (base + n * page_size) ∷ pages_from base n

pages_from-fresh : (base n m : ℕ) → n ≤ m → All (λ y. y ≢ base + m * page_size) (pages_from base n)
pages_from-fresh base zero m h = tt
pages_from-fresh base (suc n) m h = (omega arith, pages_from-fresh base n m (omega arith))

kinit_loop-IsFree :
    (end base : ℕ) (f i : ℕ) {k : Kmem} {p : ℕ}
    → 0 < end
    → end ≤ base
    → base % page_size ≡ 0
    → p ≡ base + i * page_size
    → phys_top < p + (f + 1) * page_size
    → p ≤ phys_top
    → IsFree end k (pages_from base i)
    → Returns
        (λ k'. IsFree end k' (pages_from base ((phys_top - base) / page_size)))
        (kinit_loop end f p k)
unfolding kinit_loop
kinit_loop-IsFree end base zero i {k} pos le al at fuel top free =
    returns (subst (λ n. IsFree end k (pages_from base n)) (omega arith) free)
kinit_loop-IsFree end base (suc f) i {k} {p} pos le al at fuel top free =
    elim (Bool-cases (leb (p + page_size) phys_top)) [
      | inl more ↦
          let fits = leb→le _ _ more in
          let page : IsPage end p = omega arith in
          rw (more, kfree_page k page)
            (kinit_loop-IsFree end base f (suc i) pos le al (omega arith) (omega arith) fits (
              subst (λ v. IsFree end (freed p k) (v ∷ pages_from base i)) at
                (freed-IsFree pos free page (
                  subst (λ v. All (λ y. y ≢ v) (pages_from base i)) (sym at)
                    (pages_from-fresh base i i (omega arith))))))
      | inr done ↦
          rw done (returns (subst (λ n. IsFree end k (pages_from base n)) (ground arith) free))
    ]

-- On a machine whose kernel ends below the top of memory `kinit` does not panic and needs no more
-- rounds than there are pages; afterwards the free pages are exactly the whole pages between the
-- kernel's end, rounded up, and the top of memory, each once.
pub kinit-IsFree :
    (end : ℕ) (k : Kmem)
    → 0 < end
    → page_round_up end ≤ phys_top
    → k.freelist ≡ 0
    → Returns
        (λ k'.
          IsFree end k'
            (pages_from (page_round_up end) ((phys_top - page_round_up end) / page_size)))
        (kinit end k)
unfolding kinit
kinit-IsFree end k pos fits empty =
    kinit_loop-IsFree end (page_round_up end) (phys_top / page_size) 0 pos (omega arith)
      (omega arith) (omega arith) (omega arith) fits
      (record { chain = subst (λ p. Chain k.mem p []) (sym empty) nil; pages = tt; distinct = tt })
