-- ===== src/Vm/Rounds.antt =====
-- The rounds of `allocuvm` where enough pages are free: kernel/vm.c of "memory model and xv6 kernel
-- modify ".
use operation_system_project.Prelude.{
  ℕ, zero, suc, ◌+◌, ◌*◌, ◌%◌, ◌^◌, ◌≡◌, ◌≤◌, ◌<◌, refl, sym, subst, ap, ◌∙◌, Bool, true, false,
  List, [], ◌∷◌, length, ltb, lt→ltb, ◌==◌, if◌then◌else◌, Result, ok, ◌>>=◌, Returns, Returns-map,
  returns, arith,
}
use operation_system_project.Args.{user_top}
use operation_system_project.Kalloc.{Kmem, page_size, kalloc}
use operation_system_project.Vm.{pdx, is_present}
use operation_system_project.Vm.Space.{HasTable, entry, IsSpace}
use operation_system_project.Vm.Walk.{IsFresh, kalloc-IsFresh}
use operation_system_project.Vm.Pages.{next_offset, no_offset}
use operation_system_project.Vm.Memory.{map_user, undo_alloc, alloc_page, alloc_from}
use operation_system_project.Vm.Adding.{IsAdded, added, added-IsAdded, map_user-added}
use operation_system_project.Vm.Growing.{IsGrown, Grown-none, Grown-cons}

-- `allocuvm` returns the new size, and the `n` pages from `a` on are added.
abbrev pub Grown : (end : ℕ) → Kmem → List ℕ → (pgdir a n newsz : ℕ) → ℕ × Kmem → Type 0
Grown end k xs pgdir a n newsz r =
    (r.0 ≡ newsz) × ((xs' : List ℕ) × IsGrown end k r.1 xs xs' pgdir a n)

not_null : (y : ℕ) → 0 < y → (y == 0) ≡ false
not_null y h = ground arith

-- An address of the low four megabytes.
low_dir : (a : ℕ) → a < 2 ^ 22 → pdx a ≡ 0
low_dir a h = omega (arith, h)

module _ (end pgdir oldsz newsz : ℕ) where
  alloc_page-taken :
      (more : Kmem → Result (ℕ × Kmem)) (a y : ℕ) (r : ℕ × Kmem) {k₂ : Kmem}
      → r.0 ≡ y
      → 0 < y
      → map_user pgdir a y r.1 ≡ ok (true, k₂)
      → alloc_page end more pgdir oldsz newsz a r ≡ more k₂
  unfolding alloc_page
  alloc_page-taken more a y r e h q =
      ap
        (λ x.
          if x == 0
          then undo_alloc end pgdir oldsz newsz r.1
          else (map_user pgdir a x r.1 >>= λ m. more m.1))
        e
      ∙ (ap
            (λ t.
              if t
              then undo_alloc end pgdir oldsz newsz r.1
              else (map_user pgdir a y r.1 >>= λ m. more m.1))
            (not_null y h)
          ∙ ap (λ u. u >>= λ m. more m.1) q)

  alloc_from-step :
      (fuel a : ℕ) (k : Kmem) (t : Bool)
      → ltb a newsz ≡ t
      → alloc_from end (suc fuel) pgdir oldsz newsz a k ≡ (
          if t
          then alloc_page end
              (alloc_from end fuel pgdir oldsz newsz (a + page_size))
              pgdir
              oldsz
              newsz
              a
              (kalloc k)
          else ok (newsz, k))
  unfolding alloc_from
  alloc_from-step fuel a k t e =
      ap
        (λ t.
          if t
          then alloc_page end (alloc_from end fuel pgdir oldsz newsz (a + page_size)) pgdir oldsz
              newsz a (kalloc k)
          else ok (newsz, k))
        e

  alloc_from-stop :
      (fuel a : ℕ) (k : Kmem)
      → newsz ≤ a
      → alloc_from end fuel pgdir oldsz newsz a k ≡ ok (newsz, k)
  unfolding alloc_from
  alloc_from-stop zero a k h = refl
  alloc_from-stop (suc fuel) a k h = alloc_from-step fuel a k false (done a newsz h)
    where
      done : (a newsz : ℕ) → newsz ≤ a → ltb a newsz ≡ false
      done a newsz h = ground arith

module _ {end : ℕ} {pgdir : ℕ} (pos : 0 < end) where
  -- A round and what follows it.
  alloc_page-Grown :
      {k : Kmem} {xs : List ℕ} {y : ℕ} (more : Kmem → Result (ℕ × Kmem)) (oldsz newsz a n : ℕ)
      (r : ℕ × Kmem)
      → r.0 ≡ y
      → IsSpace end r.1 xs pgdir
      → IsFresh end r.1 xs pgdir y
      → r.1.mem ≡ k.mem
      → a < 2 ^ 22
      → a % page_size ≡ 0
      → HasTable k.mem pgdir (pdx a)
      → is_present (entry k.mem pgdir a) ≡ false
      → ((k₂ : Kmem)
          → IsAdded end k k₂ xs pgdir y a
          → Returns (Grown end k₂ xs pgdir (a + page_size) n newsz) (more k₂))
      → Returns
          (Grown end k (y ∷ xs) pgdir a (suc n) newsz)
          (alloc_page end more pgdir oldsz newsz a r)
  alloc_page-Grown {k} {xs} {y} more oldsz newsz a n r e s f same low aligned p absent next =
      subst (λ q. Returns (Grown end k (y ∷ xs) pgdir a (suc n) newsz) q)
        (sym (
          alloc_page-taken end pgdir oldsz newsz more a y r e (omega (arith, f.page.above, pos))
            (map_user-added same s f new a low aligned p absent)))
        (Returns-map (λ q g. (g.0, (g.1.0, Grown-cons low step.unused f.page.aligned step g.1.1)))
          (next (added same s f new a low aligned p absent) step))
    where
      new : (z : ℕ) → IsFresh end k (y ∷ xs) pgdir z → IsFresh end r.1 xs pgdir z
      new z g = record {
        page = g.page;
        not_dir = g.not_dir;
        not_table = rw same g.not_table;
        not_free = g.not_free.1;
      }

      step : IsAdded end k (added same s f new a low aligned p absent) xs pgdir y a
      step = added-IsAdded same s f new a low aligned p absent

  pub alloc_from-Grown :
      (n fuel oldsz newsz a : ℕ) {k : Kmem} (xs : List ℕ)
      → n ≤ fuel
      → n ≤ length xs
      → newsz ≤ a + page_size * n
      → a + page_size * n < newsz + page_size
      → newsz ≤ user_top
      → a % page_size ≡ 0
      → IsSpace end k xs pgdir
      → HasTable k.mem pgdir 0
      → ((i : ℕ) → i < n → is_present (entry k.mem pgdir (a + page_size * i)) ≡ false)
      → Returns (Grown end k xs pgdir a n newsz) (alloc_from end fuel pgdir oldsz newsz a k)
  alloc_from-Grown zero fuel oldsz newsz a {k} xs hf hx low high top aligned s p absent =
      subst (λ q. Returns (Grown end k xs pgdir a 0 newsz) q)
        (sym (alloc_from-stop end pgdir oldsz newsz fuel a k (omega (arith, low))))
        (returns {a = (newsz, k)} (refl, (xs, Grown-none a s)))
  alloc_from-Grown (suc n) zero oldsz newsz a xs hf hx low high top aligned s p absent = elim hf [ ]
  alloc_from-Grown (suc n) (suc fuel) oldsz newsz a [] hf hx low high top aligned s p absent =
      elim hx [ ]
  alloc_from-Grown (suc n) (suc fuel) oldsz newsz a {k} (y ∷ xs) hf hx low high top aligned s p
        absent =
      subst (λ q. Returns (Grown end k (y ∷ xs) pgdir a (suc n) newsz) q) (sym unfolded)
        (alloc_page-Grown (alloc_from end fuel pgdir oldsz newsz (a + page_size)) oldsz newsz a n
          (kalloc k) (kalloc-IsFresh s).0 (kalloc-IsFresh s).1.0 (kalloc-IsFresh s).1.1.0
          (kalloc-IsFresh s).1.1.1 below aligned
          (subst (λ d. HasTable k.mem pgdir d) (sym (low_dir a below)) p)
          (ap (λ x. is_present (entry k.mem pgdir x)) (no_offset a) ∙ absent 0 (omega arith))
          (λ k₂ d.
            alloc_from-Grown n fuel oldsz newsz (a + page_size) xs (omega (arith, hf))
              (omega (arith, hx)) (omega (arith, low)) (omega (arith, high)) top
              (next_aligned a aligned) d.space (ap is_present (d.tables 0 (omega arith)) ∙ p)
              (λ i h.
                ap is_present (
                  d.others (a + page_size + page_size * i) (omega (arith, h, high, top))
                    (λ e. omega (arith, e)))
                ∙ (ap (λ x. is_present (entry k.mem pgdir x)) (next_offset a i)
                    ∙ absent (suc i) (omega (arith, h))))))
    where
      below : a < 2 ^ 22
      below = omega (arith, high, top)

      next_aligned : (a : ℕ) → a % page_size ≡ 0 → (a + page_size) % page_size ≡ 0
      next_aligned a h = omega (arith, h)

      starts_below :
          (a newsz n : ℕ)
          → a + page_size * suc n < newsz + page_size
          → newsz ≤ a + page_size * suc n
          → ltb a newsz ≡ true
      starts_below a newsz n h h' = lt→ltb a newsz (omega (arith, h))

      unfolded :
          alloc_from end (suc fuel) pgdir oldsz newsz a k
          ≡ alloc_page end
              (alloc_from end fuel pgdir oldsz newsz (a + page_size))
              pgdir
              oldsz
              newsz
              a
              (kalloc k)
      unfolded =
          alloc_from-step end pgdir oldsz newsz fuel a k true (starts_below a newsz n high low)
