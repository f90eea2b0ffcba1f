-- ===== src/Proc/Life/Pids.antt =====
-- Process identifiers: no two slots in use share one, through `allocproc`, `fork` and the routines
-- that change states.
use native.Mathlib.Decide.{ℕ_discrete}
use mathlib.Core.Path.{subst}
use operation_system_project.Prelude.{
  ℕ, ◌+◌, ◌<◌, ◌≡◌, refl, sym, ap, ◌∙◌, ◌⊎◌, inl, inr, true, false, Option, none, some, length,
  ◌==◌, modify, Bool-cases, length-modify, arith,
}
use operation_system_project.Proc.{Proc, Table, slot, embryo}
use operation_system_project.Proc.Life.{
  take_slot, give_page, drop_slot, alloc_slot, Services, Kernel, set_slot, is_unused, find_slot,
  give_stack, allocproc,
}
use operation_system_project.Proc.Life.Slots.{
  slot-modify_self, slot-modify_ne, Found, find_slot-Found,
}

abbrev pub InUse : Table → ℕ → Type 0
InUse t j = is_unused (slot t j) ≡ false

-- The pids of the slots in use are distinct and below the next one to be given out.
pub record IsPids (t : Table) (next : ℕ) : Type 0 where
  pub below : (j : ℕ) → InUse t j → (slot t j).pid < next
  pub distinct : (i j : ℕ) → InUse t i → InUse t j → (slot t i).pid ≡ (slot t j).pid → i ≡ j

-- Every slot in use afterwards was in use before, with the same pid.
abbrev pub KeepsPids : Table → Table → Type 0
KeepsPids t t' = (j : ℕ) → InUse t' j → InUse t j × ((slot t' j).pid ≡ (slot t j).pid)

pub IsPids-keep : {t t' : Table} {next : ℕ} → KeepsPids t t' → IsPids t next → IsPids t' next
IsPids-keep keep p = record {
  below = λ j u. let (u', e) = keep j u in omega (arith, p.below j u');
  distinct = λ i j u v same.
      let (u', e) = keep i u in let (v', f) = keep j v in p.distinct i j u' v' (omega arith);
}

-- A change of one slot that keeps its pid and puts it to no new use.
pub KeepsPids-modify :
    (t : Table) (i : ℕ) (f : Proc → Proc)
    → i < length t
    → (is_unused (f (slot t i)) ≡ false → is_unused (slot t i) ≡ false)
    → (f (slot t i)).pid ≡ (slot t i).pid
    → KeepsPids t (modify t i f)
KeepsPids-modify t i f h used same j u = elim (ℕ_discrete i j) [
  | yes e ↦
      subst (λ m. InUse t m × ((slot (modify t i f) m).pid ≡ (slot t m).pid)) e
        (
          used (
              ap is_unused (sym (slot-modify_self t i f h))
              ∙ subst (InUse (modify t i f)) (sym e) u),
          ap (λ (p : Proc). p.pid) (slot-modify_self t i f h) ∙ same,
        )
  | no ne ↦ (
    ap is_unused (sym (slot-modify_ne t i j f ne)) ∙ u,
    ap (λ (p : Proc). p.pid) (slot-modify_ne t i j f ne),
  )
]

-- A slot in use after a slot is taken: the taken one, or another that was in use.
taken_cases :
    (t : Table) (i next j : ℕ)
    → i < length t
    → InUse (modify t i (take_slot next)) j
    → ((j ≡ i) × ((slot (modify t i (take_slot next)) j).pid ≡ next))
      ⊎ (InUse t j × ((slot (modify t i (take_slot next)) j).pid ≡ (slot t j).pid))
taken_cases t i next j h u = elim (ℕ_discrete i j) [
  | yes e ↦ inl (
    sym e,
    subst (λ m. (slot (modify t i (take_slot next)) m).pid ≡ next) e
        (ap (λ (p : Proc). p.pid) (slot-modify_self t i (take_slot next) h)),
  )
  | no ne ↦
      let same = slot-modify_ne t i j (take_slot next) ne in
      inr (ap is_unused (sym same) ∙ u, ap (λ (p : Proc). p.pid) same)
]

IsPids-take :
    {t : Table} {next : ℕ} (i : ℕ)
    → i < length t
    → IsPids t next
    → IsPids (modify t i (take_slot next)) (next + 1)
IsPids-take {t} {next} i h p = record {
  below = λ j u. elim (taken_cases t i next j h u) [
    | inl (e, own) ↦ omega arith
    | inr (old, own) ↦ omega (arith, p.below j old)
  ];
  distinct = λ a b u v same. elim (taken_cases t i next a h u) [
    | inl (e, own) ↦ elim (taken_cases t i next b h v) [
      | inl (e', own') ↦ e ∙ sym e'
      | inr (old', own') ↦ absurd (omega (arith, p.below b old'))
    ]
    | inr (old, own) ↦ elim (taken_cases t i next b h v) [
      | inl (e', own') ↦ absurd (omega (arith, p.below a old))
      | inr (old', own') ↦ p.distinct a b old old' (sym own ∙ same ∙ own')
    ]
  ];
}

pub KeepsPids-trans : (t u v : Table) → KeepsPids t u → KeepsPids u v → KeepsPids t v
KeepsPids-trans t u v f g j h = let (h', e) = g j h in let (h'', e') = f j h' in (h'', e ∙ e')

-- A slot that is taken and given up again.
KeepsPids-give_up :
    (t : Table) (i next page : ℕ)
    → i < length t
    → KeepsPids t (modify (modify (modify t i (take_slot next)) i (give_page page)) i drop_slot)
KeepsPids-give_up t i next page h j u = elim (ℕ_discrete i j) [
  | yes e ↦ absurd (gone (subst (InUse (modify t'' i drop_slot)) (sym e) u))
  | no ne ↦
      let same =
        slot-modify_ne t'' i j drop_slot ne
        ∙ slot-modify_ne t' i j (give_page page) ne
        ∙ slot-modify_ne t i j (take_slot next) ne in
      (ap is_unused (sym same) ∙ u, ap (λ (p : Proc). p.pid) same)
]
  where
    t' : Table
    t' = modify t i (take_slot next)

    t'' : Table
    t'' = modify t' i (give_page page)

    inside : i < length t''
    inside = omega (arith, length-modify t' i (give_page page), length-modify t i (take_slot next))

    gone : InUse (modify t'' i drop_slot) i → ⊥
    gone v = cc (ap is_unused (slot-modify_self t'' i drop_slot inside), v)

module _ (s : Services) where
  open s use {World, kalloc, kfree, copyuvm, filedup, idup}

  -- What `allocproc` gives: nothing new in use, or a slot that was unused with a fresh pid.
  abbrev pub Allocated : Kernel World → Option ℕ × Kernel World → Type 0
  Allocated k (none, k') = IsPids k'.table k'.nextpid × KeepsPids k.table k'.table
  Allocated k (some i, k') =
      IsPids k'.table k'.nextpid
      × (is_unused (slot k.table i) ≡ true)
      × (i < length k'.table)
      × ((slot k'.table i).state ≡ embryo)
      × ((slot k'.table i).pid ≡ k.nextpid)

  give_stack-Allocated :
      (k : Kernel World) (i : ℕ)
      → i < length k.table
      → is_unused (slot k.table i) ≡ true
      → IsPids k.table k.nextpid
      → Allocated k
          (give_stack s i (set_slot (record k { nextpid = k.nextpid + 1 }) i (take_slot k.nextpid)))
  unfolding give_stack
  give_stack-Allocated k i h free p = elim (Bool-cases (page == 0)) [
    | inl fail ↦ rw fail (IsPids-keep back taken, KeepsPids-give_up k.table i k.nextpid page h)
    | inr got ↦ rw got (
      IsPids-keep (KeepsPids-modify t' i (give_page page) h' (λ u. u) refl) taken,
      free,
      inside,
      ap (λ (p : Proc). p.state) self,
      ap (λ (p : Proc). p.pid) self,
    )
  ]
    where
      page : ℕ
      page = (kalloc k.world).0

      t' : Table
      t' = modify k.table i (take_slot k.nextpid)

      t'' : Table
      t'' = modify t' i (give_page page)

      h' : i < length t'
      h' = omega (arith, length-modify k.table i (take_slot k.nextpid))

      inside : i < length t''
      inside = omega (arith, h', length-modify t' i (give_page page))

      taken : IsPids t' (k.nextpid + 1)
      taken = IsPids-take i h p

      back : KeepsPids t' (modify t'' i drop_slot)
      back =
          KeepsPids-trans t' t'' _ (KeepsPids-modify t' i (give_page page) h' (λ u. u) refl)
            (KeepsPids-modify t'' i drop_slot inside (λ u. cc) refl)

      self : slot t'' i ≡ give_page page (take_slot k.nextpid (slot k.table i))
      self =
          slot-modify_self t' i (give_page page) h'
          ∙ ap (give_page page) (slot-modify_self k.table i (take_slot k.nextpid) h)

  alloc_slot-Allocated :
      (k : Kernel World) (r : Option ℕ)
      → IsPids k.table k.nextpid
      → Found is_unused k.table 0 r
      → Allocated k (alloc_slot s k r)
  unfolding alloc_slot
  alloc_slot-Allocated k none p f = (p, λ j h. (h, refl))
  alloc_slot-Allocated k (some i) p (m, at, lt, free, before) =
      let e : m ≡ i = omega arith in
      give_stack-Allocated k i (omega arith) (subst (λ n. is_unused (slot k.table n) ≡ true) e free)
        p

  -- `allocproc` keeps the pids of the slots in use distinct and below the next one.
  pub allocproc-Allocated :
      (k : Kernel World) → IsPids k.table k.nextpid → Allocated k (allocproc s k)
  unfolding allocproc
  allocproc-Allocated k p =
      alloc_slot-Allocated k (find_slot is_unused k.table 0) p (find_slot-Found is_unused k.table 0)
