-- ===== src/Fs/Mirror.antt =====
-- The three copies of a block of a mirrored file whose blocks are on the disk already.
use operation_system_project.Prelude.{
  ℕ, ◌+◌, ◌≡◌, ◌<◌, List, get_or, ltb, ◌==◌, true, Result, ap, ◌∙◌, ok, arith,
}
use operation_system_project.Fs.{
  and_then, Inode, update, Block, change, bwrite, splice, Fs, M, ndirect,
}
use operation_system_project.Fs.Blocks.{get_addr, addr_or_alloc, mbmap_direct, mbmap}
use operation_system_project.Fs.Write.{write_block}

-- `ip->addrs[i]`.
abbrev pub addr : Inode → ℕ → ℕ
addr ip i = get_or ip.addrs i 0

-- The three addresses from `bn` on are direct ones and belong to three disk blocks.
pub record IsMapped (ip : Inode) (bn : ℕ) : Type 0 where
  pub direct : bn + 2 < ndirect
  pub first : 0 < addr ip bn
  pub second : 0 < addr ip (bn + 1)
  pub third : 0 < addr ip (bn + 2)
  pub apart12 : ¬ (addr ip bn ≡ addr ip (bn + 1))
  pub apart13 : ¬ (addr ip bn ≡ addr ip (bn + 2))
  pub apart23 : ¬ (addr ip (bn + 1) ≡ addr ip (bn + 2))

direct_test : (bn : ℕ) → bn + 2 < ndirect → ltb bn ndirect ≡ true
direct_test bn h = ground arith

-- A command that returns, and what follows it.
pub after :
    {A B : Type 0} {r : Result (A × Fs)} {a : A} {s : Fs} {z : Result (B × Fs)} (f : A → M B)
    → r ≡ ok (a, s)
    → f a s ≡ z
    → and_then r f ≡ z
after f e e' = ap (λ r. and_then r f) e ∙ e'

-- The state with block `a` set to `d`, in its buffer and on the disk.
abbrev pub put : Fs → ℕ → Block → Fs
put s a d = record s { cached = update s.cached a d; disk = update s.disk a d }

pub eq_self : (a : ℕ) → (a == a) ≡ true
eq_self a = ground arith

pub write_block-put :
    (o m : ℕ) (src : List ℕ) (a : ℕ) (s : Fs)
    → write_block o m src a s ≡ ok (tt, put s a (splice o m src (s.cached a)))
unfolding write_block change bwrite
write_block-put o m src a s = rw (eq_self a)

module _ (balloc : M ℕ) where
  pub addr_or_alloc_mapped :
      (s : Fs) (i : ℕ) → 0 < addr s.inode i → addr_or_alloc balloc i s ≡ ok (addr s.inode i, s)
  unfolding addr_or_alloc get_addr
  addr_or_alloc_mapped s i h = ground arith

  module _ (s : Fs) (bn : ℕ) (h : IsMapped s.inode bn) where
    pub mbmap-first : mbmap balloc bn 0 s ≡ ok (addr s.inode bn, s)
    unfolding mbmap mbmap_direct
    mbmap-first = rw (direct_test bn h.direct, addr_or_alloc_mapped s bn h.first)

    pub mbmap-second : mbmap balloc bn 1 s ≡ ok (addr s.inode (bn + 1), s)
    unfolding mbmap mbmap_direct
    mbmap-second = rw (
      direct_test bn h.direct,
      addr_or_alloc_mapped s bn h.first,
      addr_or_alloc_mapped s (bn + 1) h.second,
    )

    pub mbmap-third : mbmap balloc bn 2 s ≡ ok (addr s.inode (bn + 2), s)
    unfolding mbmap mbmap_direct
    mbmap-third = rw (
      direct_test bn h.direct,
      addr_or_alloc_mapped s bn h.first,
      addr_or_alloc_mapped s (bn + 2) h.third,
    )
