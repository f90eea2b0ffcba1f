-- ===== src/Args/Bounds.antt =====
-- Where the blocks and strings that system calls accept lie.
use operation_system_project.Prelude.{
  ℕ, ◌+◌, ◌^◌, ◌≡◌, ◌≤◌, ◌<◌, ◌⊎◌, inl, inr, Bool, true, false, Bool-cases, ◌||◌, ◌&&◌, Option,
  none, some, ltb, leb, if◌then◌else◌, arith,
}
use operation_system_project.Kalloc.{page_size}
use operation_system_project.Args.{
  User, user_top, add_uint, argint, bad_block, checked_block, argptr,
}

-- The block is part of the heap, or of the stack.
pub record IsUserBlock (p : User) (i size : ℕ) : Type 0 where
  pub above_first_page : page_size ≤ i
  pub below_top : i + size ≤ user_top
  pub in_heap_or_stack : (i + size ≤ p.sz) ⊎ (p.sz2 ≤ i)

no_wrap : (i size : ℕ) → i + size < 2 ^ 32 → add_uint i size ≡ i + size
no_wrap i size h = omega arith

-- The tests of `argptr`, with the end of the block computed.
in_place :
    (sz sz2 i size e : ℕ)
    → e ≡ i + size
    → ((leb sz i && ltb i sz2) || (ltb sz e && ltb i sz2) || ltb i page_size || ltb user_top e)
      ≡ false
    → (page_size ≤ i) × (i + size ≤ user_top) × ((i + size ≤ sz) ⊎ (sz2 ≤ i))
in_place sz sz2 i size e h t = elim (Bool-cases (ltb i sz2)) [
  | inl b ↦ (ground arith, ground arith, inl (ground arith))
  | inr b ↦ (ground arith, ground arith, inr (ground arith))
]

none_ne_some :
    (b : Bool) (j i : ℕ) → b ≡ true → ¬ (◌≡◌ {A = Option ℕ} (if b then none else some j) (some i))
none_ne_some b j i bad e = ground arith

accepted :
    (b : Bool) (j i : ℕ)
    → b ≡ false
    → ◌≡◌ {A = Option ℕ} (if b then none else some j) (some i)
    → j ≡ i
accepted b j i good e = ground arith

checked_block-IsUserBlock :
    (p : User) (size i : ℕ) (o : Option ℕ)
    → i + size < 2 ^ 32
    → checked_block p size o ≡ some i
    → IsUserBlock p i size
unfolding checked_block bad_block
checked_block-IsUserBlock p size i none h e = cc
checked_block-IsUserBlock p size i (some j) h e = elim (Bool-cases (bad_block p j size)) [
  | inl bad ↦ absurd (none_ne_some (bad_block p j size) j i bad e)
  | inr good ↦
      let ij = accepted (bad_block p j size) j i good e in
      let (above, below, where_) =
        in_place p.sz p.sz2 i size _ (no_wrap i size h) (rw ij at good) in
      record { above_first_page = above; below_top = below; in_heap_or_stack = where_ }
]

-- A pointer that `argptr` accepts points to a block of the heap, above the first page, or of the
-- stack, if the block does not wrap around the end of the address space.
pub argptr-IsUserBlock :
    (p : User) (n size : ℕ) {i : ℕ}
    → i + size < 2 ^ 32
    → argptr p n size ≡ some i
    → IsUserBlock p i size
unfolding argptr
argptr-IsUserBlock p n size {i} h e = checked_block-IsUserBlock p size i (argint p n) h e

wrapped : (i size : ℕ) → i + size ≡ 2 ^ 32 → add_uint i size ≡ 0
wrapped i size e = omega arith

-- A block that wraps around is accepted wherever it starts above the heap's gap.
pub checked_block_wraps :
    (p : User) (size i : ℕ)
    → p.sz2 ≤ i
    → page_size ≤ i
    → i + size ≡ 2 ^ 32
    → checked_block p size (some i) ≡ some i
unfolding checked_block bad_block
checked_block_wraps p size i h l e = rw (wrapped i size e) (ground arith)
