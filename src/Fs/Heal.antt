-- ===== src/Fs/Heal.antt =====
-- What a round of `readi` does to the three copies of a block of a mirrored file.
use operation_system_project.Prelude.{
  ℕ, ◌+◌, ◌≡◌, ◌%◌, Bool, true, false, refl, List, ◌==◌, Result, ok, arith,
}
use operation_system_project.Fs.{
  Block, Fs, M, block_size, splice, slice, update, bread, change, bwrite, pure, and_then,
}
use operation_system_project.Fs.Data.{
  Diffs, compare_copies, mirror_base, copy_from, repair_copies, read_round,
}
use operation_system_project.Fs.Mirror.{
  addr, IsMapped, after, put, eq_self, mbmap-first, mbmap-second, mbmap-third,
}

-- The block of copy `k`, as `readi` finds it.
abbrev pub copy_of : Fs → (bn k : ℕ) → Block
copy_of s bn k = s.cached (addr s.inode (bn + k))

-- The flags after the comparisons of the round at `off`.
abbrev pub flags_of : Fs → (n off : ℕ) → Diffs → Diffs
flags_of s n off f =
    compare_copies n f (s.cached (addr s.inode (mirror_base off))) (copy_of s (mirror_base off) 1)
      (copy_of s (mirror_base off) 2)

-- The two other copies agree, and neither agrees with copy 1, 2 or 3.
abbrev pub FirstOutvoted : Diffs → Type 0
FirstOutvoted f = (f.diff12 ≡ true) × (f.diff13 ≡ true) × (f.diff23 ≡ false)

abbrev pub SecondOutvoted : Diffs → Type 0
SecondOutvoted f = (f.diff12 ≡ true) × (f.diff13 ≡ false) × (f.diff23 ≡ true)

abbrev pub ThirdOutvoted : Diffs → Type 0
ThirdOutvoted f = (f.diff12 ≡ false) × (f.diff13 ≡ true) × (f.diff23 ≡ true)

-- The outcome of the vote.
pub data Vote (f : Diffs) : Type 0 where
  against_first : FirstOutvoted f → Vote f
  against_second : SecondOutvoted f → Vote f
  against_third : ThirdOutvoted f → Vote f
  no_majority : ¬ FirstOutvoted f → ¬ SecondOutvoted f → ¬ ThirdOutvoted f → Vote f

pub vote : (f : Diffs) → Vote f
vote f = by_flags f.diff12 f.diff13 f.diff23 refl refl refl
  where
    by_flags : (b c d : Bool) → f.diff12 ≡ b → f.diff13 ≡ c → f.diff23 ≡ d → Vote f
    by_flags true true false e₁ e₂ e₃ = against_first (e₁, e₂, e₃)
    by_flags true false true e₁ e₂ e₃ = against_second (e₁, e₂, e₃)
    by_flags false true true e₁ e₂ e₃ = against_third (e₁, e₂, e₃)
    by_flags true true true e₁ e₂ e₃ = no_majority (ground arith) (ground arith) (ground arith)
    by_flags true false false e₁ e₂ e₃ = no_majority (ground arith) (ground arith) (ground arith)
    by_flags false true false e₁ e₂ e₃ = no_majority (ground arith) (ground arith) (ground arith)
    by_flags false false true e₁ e₂ e₃ = no_majority (ground arith) (ground arith) (ground arith)
    by_flags false false false e₁ e₂ e₃ = no_majority (ground arith) (ground arith) (ground arith)

ne_test : (a b : ℕ) → ¬ (a ≡ b) → (a == b) ≡ false
ne_test a b h = ground arith

module _ (balloc : M ℕ) (s : Fs) (off : ℕ) (h : IsMapped s.inode (mirror_base off)) where
  read_round-repair_copies :
      (n m : ℕ) (f : Diffs) {z : Result ((List ℕ × Diffs) × Fs)}
      → and_then
          (repair_copies balloc
            (flags_of s n off f)
            (mirror_base off)
            (addr s.inode (mirror_base off + 1))
            (addr s.inode (mirror_base off + 2))
            (off % block_size)
            m
            s)
          (λ _.
            pure (slice (off % block_size) m (copy_of s (mirror_base off) 2), flags_of s n off f))
        ≡ z
      → read_round balloc n off m f s ≡ z
  unfolding read_round bread
  read_round-repair_copies n m f e =
      let bn = mirror_base off in
      after _ (mbmap-first balloc s bn h) (
        after _ (mbmap-first balloc s bn h) (
          after _ (mbmap-second balloc s bn h) (
            after _ (mbmap-third balloc s bn h)
              (after _ (mbmap-second balloc s bn h) (after _ (mbmap-third balloc s bn h) e)))))

  repair_copies-none :
      (f : Diffs) (bn a₂ a₃ o m : ℕ)
      → ¬ FirstOutvoted f
      → ¬ SecondOutvoted f
      → ¬ ThirdOutvoted f
      → repair_copies balloc f bn a₂ a₃ o m s ≡ ok (tt, s)
  unfolding repair_copies
  repair_copies-none f bn a₂ a₃ o m n₁ n₂ n₃ = by_flags f.diff12 f.diff13 f.diff23 refl refl refl
    where
      by_flags :
          (b c d : Bool)
          → f.diff12 ≡ b
          → f.diff13 ≡ c
          → f.diff23 ≡ d
          → repair_copies balloc f bn a₂ a₃ o m s ≡ ok (tt, s)
      by_flags true true true e₁ e₂ e₃ = rw (e₁, e₂, e₃)
      by_flags true true false e₁ e₂ e₃ = absurd (n₁ (e₁, e₂, e₃))
      by_flags true false true e₁ e₂ e₃ = absurd (n₂ (e₁, e₂, e₃))
      by_flags false true true e₁ e₂ e₃ = absurd (n₃ (e₁, e₂, e₃))
      by_flags true false false e₁ e₂ e₃ = rw (e₁, e₂, e₃)
      by_flags false true false e₁ e₂ e₃ = rw (e₁, e₂, e₃)
      by_flags false false true e₁ e₂ e₃ = rw (e₁, e₂, e₃)
      by_flags false false false e₁ e₂ e₃ = rw (e₁, e₂, e₃)

  module _ (n m : ℕ) (f : Diffs) where
    -- For three mapped blocks: a round of `readi` that finds the first copy outvoted puts the third copy's bytes in it, in
    -- its buffer and on the disk, changes nothing else, and returns the third copy's bytes.
    pub read_round-first :
        FirstOutvoted (flags_of s n off f)
        → read_round balloc n off m f s
          ≡ ok (
            (slice (off % block_size) m (copy_of s (mirror_base off) 2), flags_of s n off f),
            put s (addr s.inode (mirror_base off)) (
                splice
                  (off % block_size)
                  m
                  (slice (off % block_size) m (copy_of s (mirror_base off) 2))
                  (s.cached (addr s.inode (mirror_base off)))),
          )
    unfolding repair_copies copy_from bread change bwrite
    read_round-first v = read_round-repair_copies n m f (
        rw (
          v.0,
          v.1,
          v.2,
          mbmap-first balloc s (mirror_base off) h,
          eq_self (addr s.inode (mirror_base off)),
        ))

    -- For three mapped blocks: a round of `readi` that finds the second copy outvoted puts the third copy's bytes in it, in
    -- its buffer and on the disk, changes nothing else, and returns the third copy's bytes.
    pub read_round-second :
        SecondOutvoted (flags_of s n off f)
        → read_round balloc n off m f s
          ≡ ok (
            (slice (off % block_size) m (copy_of s (mirror_base off) 2), flags_of s n off f),
            put s (addr s.inode (mirror_base off + 1)) (
                splice
                  (off % block_size)
                  m
                  (slice (off % block_size) m (copy_of s (mirror_base off) 2))
                  (copy_of s (mirror_base off) 1)),
          )
    unfolding repair_copies copy_from bread change bwrite
    read_round-second v = read_round-repair_copies n m f (
        rw (
          v.0,
          v.1,
          v.2,
          mbmap-second balloc s (mirror_base off) h,
          eq_self (addr s.inode (mirror_base off + 1)),
        ))

    -- For three mapped blocks: a round of `readi` that finds the third copy outvoted puts the second copy's bytes in its
    -- buffer only: on the disk the third copy stays as it is, and the block that is written is the
    -- second copy's, as it was in its buffer. The bytes returned are the third copy's old ones.
    pub read_round-third :
        ThirdOutvoted (flags_of s n off f)
        → read_round balloc n off m f s
          ≡ ok (
            (slice (off % block_size) m (copy_of s (mirror_base off) 2), flags_of s n off f),
            record s {
              cached = update s.cached (addr s.inode (mirror_base off + 2)) (
                  splice
                    (off % block_size)
                    m
                    (slice (off % block_size) m (copy_of s (mirror_base off) 1))
                    (copy_of s (mirror_base off) 2));
              disk =
                  update s.disk
                    (addr s.inode (mirror_base off + 1))
                    (copy_of s (mirror_base off) 1);
            },
          )
    unfolding repair_copies copy_from bread change bwrite
    read_round-third v = read_round-repair_copies n m f (
        rw (
          v.0,
          v.1,
          v.2,
          mbmap-third balloc s (mirror_base off) h,
          ne_test (addr s.inode (mirror_base off + 1)) (addr s.inode (mirror_base off + 2))
              h.apart23,
        ))

    -- For three mapped blocks of which none is outvoted, as where all three differ, a round of
    -- `readi` changes nothing and returns the third copy's bytes.
    pub read_round-unchanged :
        ¬ FirstOutvoted (flags_of s n off f)
        → ¬ SecondOutvoted (flags_of s n off f)
        → ¬ ThirdOutvoted (flags_of s n off f)
        → read_round balloc n off m f s
          ≡ ok ((slice (off % block_size) m (copy_of s (mirror_base off) 2), flags_of s n off f), s)
    unfolding repair_copies
    read_round-unchanged n₁ n₂ n₃ = read_round-repair_copies n m f (
        rw (
          repair_copies-none (flags_of s n off f) (mirror_base off)
            (addr s.inode (mirror_base off + 1)) (addr s.inode (mirror_base off + 2))
            (off % block_size) m n₁ n₂ n₃))
