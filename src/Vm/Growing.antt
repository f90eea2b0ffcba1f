-- ===== src/Vm/Growing.antt =====
-- The pages that `allocuvm` adds: kernel/vm.c of "memory model and xv6 kernel modify ".
use operation_system_project.Prelude.{
  ℕ, zero, suc, ◌+◌, ◌*◌, ◌/◌, ◌%◌, ◌^◌, ◌≡◌, ◌≢◌, ◌≤◌, ◌<◌, ◌⊎◌, inl, inr, refl, sym, ap, ◌∙◌,
  List, ◌∷◌, arith,
}
use operation_system_project.Kalloc.{Kmem, page_size}
use operation_system_project.Vm.{pte_addr, entry_of}
use operation_system_project.Vm.Space.{entry, IsSpace}
use operation_system_project.Vm.Walk.{IsFresh}
use operation_system_project.Vm.Mapping.{entry_of-addr}
use operation_system_project.Vm.Pages.{no_offset, next_offset}
use operation_system_project.Vm.Memory.{user_write}
use operation_system_project.Vm.Adding.{IsAdded}

-- The physical page of page `i` from `a` on.
abbrev pub page_at : (ℕ → ℕ) → (pgdir a i : ℕ) → ℕ
page_at mem pgdir a i = pte_addr (entry mem pgdir (a + page_size * i))

-- The `n` pages from `a` on are user pages, writable, zeroed, each with a physical page of its own
-- that was unused before; the rest of the address space and all pages still unused are as they
-- were.
pub record IsGrown (end : ℕ) (k k' : Kmem) (xs xs' : List ℕ) (pgdir a n : ℕ) : Type 0 where
  pub space : IsSpace end k' xs' pgdir
  pub mapped :
      (i : ℕ)
      → i < n
      → entry k'.mem pgdir (a + page_size * i) ≡ entry_of (page_at k'.mem pgdir a i) user_write
  pub zeros : (i j : ℕ) → i < n → j < 1024 → k'.mem (page_at k'.mem pgdir a i + 4 * j) ≡ 0
  pub apart :
      (i j : ℕ) → i < n → j < n → i ≢ j → page_at k'.mem pgdir a i ≢ page_at k'.mem pgdir a j
  pub new : (i z : ℕ) → i < n → IsFresh end k xs pgdir z → page_at k'.mem pgdir a i ≢ z
  pub others :
      (b : ℕ)
      → b < 2 ^ 32
      → (b / page_size < a / page_size) ⊎ (a / page_size + n ≤ b / page_size)
      → entry k'.mem pgdir b ≡ entry k.mem pgdir b
  pub fresh : (z : ℕ) → IsFresh end k xs pgdir z → IsFresh end k' xs' pgdir z
  pub words :
      (z i : ℕ) → IsFresh end k xs pgdir z → i < 1024 → k'.mem (z + 4 * i) ≡ k.mem (z + 4 * i)

module _ {end : ℕ} {pgdir : ℕ} where
  pub Grown-none :
      {k : Kmem} {xs : List ℕ} (a : ℕ) → IsSpace end k xs pgdir → IsGrown end k k xs xs pgdir a 0
  Grown-none a s = record {
    space = s;
    mapped = λ i h. elim h [ ];
    zeros = λ i j h h'. elim h [ ];
    apart = λ i j h h' ne. elim h [ ];
    new = λ i z h g. elim h [ ];
    others = λ b hb off. refl;
    fresh = λ z g. g;
    words = λ z i g h. refl;
  }

  module _ {k k₂ k' : Kmem} {xs xs' : List ℕ} {y a n : ℕ} (low : a < 2 ^ 22)
      (page : IsFresh end k₂ xs pgdir y) (aligned : y % page_size ≡ 0)
      (d : IsAdded end k k₂ xs pgdir y a)
      (g : IsGrown end k₂ k' xs xs' pgdir (a + page_size) n) where
    first_entry : entry k'.mem pgdir (a + page_size * 0) ≡ entry_of y user_write
    first_entry =
        ap (entry k'.mem pgdir) (sym (no_offset a))
        ∙ (g.others a (omega (arith, low)) (inl (omega arith)) ∙ d.here)

    first_page : page_at k'.mem pgdir a 0 ≡ y
    first_page = ap pte_addr first_entry ∙ entry_of-addr y user_write aligned (omega arith)

    later_page : (i : ℕ) → page_at k'.mem pgdir a (suc i) ≡ page_at k'.mem pgdir (a + page_size) i
    later_page i = ap (λ x. pte_addr (entry k'.mem pgdir x)) (sym (next_offset a i))

    pub Grown-cons : IsGrown end k k' (y ∷ xs) xs' pgdir a (suc n)
    Grown-cons = record {
      space = g.space;
      mapped = mapped;
      zeros = zeros;
      apart = apart;
      new = new;
      others = λ b hb off. g.others b hb (outside b off) ∙ d.others b hb (elsewhere b off);
      fresh = λ z h. g.fresh z (d.fresh z h);
      words = λ z i h l. g.words z i (d.fresh z h) l ∙ d.words z i h l;
    }
      where
        mapped :
            (i : ℕ)
            → i < suc n
            → entry k'.mem pgdir (a + page_size * i)
              ≡ entry_of (page_at k'.mem pgdir a i) user_write
        mapped zero h = first_entry ∙ ap (λ x. entry_of x user_write) (sym first_page)
        mapped (suc i) h =
            ap (entry k'.mem pgdir) (sym (next_offset a i))
            ∙ (g.mapped i (omega (arith, h)) ∙ ap (λ x. entry_of x user_write) (sym (later_page i)))

        zeros : (i j : ℕ) → i < suc n → j < 1024 → k'.mem (page_at k'.mem pgdir a i + 4 * j) ≡ 0
        zeros zero j h l =
            ap (λ x. k'.mem (x + 4 * j)) first_page ∙ (g.words y j page l ∙ d.zeros j l)
        zeros (suc i) j h l =
            ap (λ x. k'.mem (x + 4 * j)) (later_page i) ∙ g.zeros i j (omega (arith, h)) l

        apart :
            (i j : ℕ)
            → i < suc n
            → j < suc n
            → i ≢ j
            → page_at k'.mem pgdir a i ≢ page_at k'.mem pgdir a j
        apart zero zero h h' ne e = ne refl
        apart zero (suc j) h h' ne e =
            g.new j y (omega (arith, h')) page (sym (later_page j) ∙ (sym e ∙ first_page))
        apart (suc i) zero h h' ne e =
            g.new i y (omega (arith, h)) page (sym (later_page i) ∙ (e ∙ first_page))
        apart (suc i) (suc j) h h' ne e =
            g.apart i j (omega (arith, h)) (omega (arith, h')) (λ q. ne (ap suc q))
              (sym (later_page i) ∙ (e ∙ later_page j))

        new : (i z : ℕ) → i < suc n → IsFresh end k (y ∷ xs) pgdir z → page_at k'.mem pgdir a i ≢ z
        new zero z h f e = f.not_free.0 (sym first_page ∙ e)
        new (suc i) z h f e = g.new i z (omega (arith, h)) (d.fresh z f) (sym (later_page i) ∙ e)

        outside :
            (b : ℕ)
            → (b / page_size < a / page_size) ⊎ (a / page_size + suc n ≤ b / page_size)
            → (b / page_size < (a + page_size) / page_size)
              ⊎ ((a + page_size) / page_size + n ≤ b / page_size)
        outside b (inl h) = inl (omega (arith, h))
        outside b (inr h) = inr (omega (arith, h))

        elsewhere :
            (b : ℕ)
            → (b / page_size < a / page_size) ⊎ (a / page_size + suc n ≤ b / page_size)
            → b / page_size ≢ a / page_size
        elsewhere b (inl h) e = omega (arith, h, e)
        elsewhere b (inr h) e = omega (arith, h, e)
