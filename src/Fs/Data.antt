-- ===== src/Fs/Data.antt =====
-- Reading and writing the data of a file: `readi` and `writei`, kernel/fs.c of "triple file system",
-- plain files and mirrored ones.
use operation_system_project.Prelude.{
  ℕ, zero, suc, ◌+◌, ◌-◌, ◌*◌, ◌/◌, ◌%◌, ◌^◌, Bool, false, not, ◌||◌, ◌&&◌, Option, none, some,
  List, [], ◌++◌, ltb, ◌==◌, if◌then◌else◌, min, ok,
}
use operation_system_project.Str.{strncmp_differs}
use operation_system_project.Fs.{
  Block, Inode, M, pure, ◌>>=◌, ◌>>◌, block_size, ndirect, nindirect, t_dev, t_mirrored, bread,
  change, bwrite, slice, splice,
}
use operation_system_project.Fs.Blocks.{bmap, mbmap}

-- `diff12`, `diff13` and `diff23`, which live as long as the call.
pub record Diffs : Type 0 where
  pub diff12 : Bool
  pub diff13 : Bool
  pub diff23 : Bool

abbrev pub no_diffs : Diffs
no_diffs = record { diff12 = false; diff13 = false; diff23 = false }

-- The flags after the three comparisons of a round; none is ever cleared.
unfoldable pub compare_copies : ℕ → Diffs → (b₁ b₂ b₃ : Block) → Diffs
compare_copies n f b₁ b₂ b₃ = record {
  diff12 = strncmp_differs b₁ b₂ n || f.diff12;
  diff23 = strncmp_differs b₂ b₃ n || f.diff23;
  diff13 = strncmp_differs b₁ b₃ n || f.diff13;
}

-- `m`, the bytes of a round.
abbrev pub round_bytes : (n tot off : ℕ) → ℕ
round_bytes n tot off = min (n - tot) (block_size - off % block_size)

-- `offset`, the first of the three file blocks of a mirrored block.
abbrev pub mirror_base : ℕ → ℕ
mirror_base off = off / block_size * 3

abbrev pub all_differ : Diffs → Bool
all_differ f = f.diff12 && f.diff23 && f.diff13

-- `off > ip->logical_size || off + n < off` in `uint` arithmetic.
abbrev pub bad_range : Inode → ℕ → ℕ → Bool
bad_range ip off n = ltb ip.logical_size off || ltb ((off + n) % 2 ^ 32) off

abbrev pub max_bytes : ℕ
max_bytes = (ndirect + nindirect) * block_size

-- The rest of the loop after a round.
unfoldable pub after_round : (Diffs → M (Option (List ℕ))) → List ℕ × Diffs → M (Option (List ℕ))
after_round more (bytes, f') =
    if all_differ f'
    then pure none
    else (do rest ← more f'; pure (elim rest [ none ↦ none | some bs ↦ some (bytes ++ bs) ]))

module _ (balloc : M ℕ) where
  -- `bp = bread(mbmap(..)); memmove(bp->data + o, from->data + o, m)`; the address of `bp`.
  unfoldable pub copy_from : (bn mbn from o m : ℕ) → M ℕ
  unfolding bread change
  copy_from bn mbn from o m = do
    a ← mbmap balloc bn mbn
    d ← bread from
    change a (splice o m (slice o m d))
    pure a

  -- The three repairs of a round, by the flags: the second, the first and the third copy.
  unfoldable pub repair_copies : Diffs → (bn a₂ a₃ o m : ℕ) → M (Unit {0})
  unfolding copy_from bwrite
  repair_copies f bn a₂ a₃ o m = do
    if f.diff12 && f.diff23 && not f.diff13 then copy_from bn 1 a₃ o m >>= bwrite else pure tt
    if f.diff13 && f.diff12 && not f.diff23 then copy_from bn 0 a₃ o m >>= bwrite else pure tt
    if f.diff23 && f.diff13 && not f.diff12
        then copy_from bn 2 a₂ o m >>= (λ a. bwrite a₂)
        else pure tt

  -- A round of the mirrored loop of `readi`: the bytes left in `dst` and the flags. The calls for
  -- the addresses that are printed are made too.
  unfoldable pub read_round : (n off m : ℕ) → Diffs → M (List ℕ × Diffs)
  unfolding bread repair_copies compare_copies
  read_round n off m f = do
    a₁ ← mbmap balloc (mirror_base off) 0
    b₁ ← bread a₁
    _ ← mbmap balloc (mirror_base off) 0
    _ ← mbmap balloc (mirror_base off) 1
    _ ← mbmap balloc (mirror_base off) 2
    a₂ ← mbmap balloc (mirror_base off) 1
    b₂ ← bread a₂
    a₃ ← mbmap balloc (mirror_base off) 2
    b₃ ← bread a₃
    let f' = compare_copies n f b₁ b₂ b₃
    repair_copies f' (mirror_base off) a₂ a₃ (off % block_size) m
    pure (slice (off % block_size) m b₃, f')

  -- The mirrored loop, with `fuel` rounds; `none` stands for -1.
  unfoldable pub read_mirrored : ℕ → (n tot off : ℕ) → Diffs → M (Option (List ℕ))
  read_mirrored zero n tot off f = pure (some [])
  read_mirrored (suc fuel) n tot off f =
      let m = round_bytes n tot off in
      let more = read_mirrored fuel n (tot + m) (off + m) in
      if ltb tot n then read_round n off m f >>= after_round more else pure (some [])

  -- The loop of a plain file.
  unfoldable pub read_plain : ℕ → (n tot off : ℕ) → M (List ℕ)
  unfolding bread
  read_plain zero n tot off = pure []
  read_plain (suc fuel) n tot off =
      let m = round_bytes n tot off in
      let more = read_plain fuel n (tot + m) (off + m) in
      if ltb tot n
      then (do
        a ← bmap balloc (off / block_size)
        b ← bread a
        rest ← more
        pure (slice (off % block_size) m b ++ rest))
      else pure []

  -- `readi`; `device` is `devsw[major].read` where the major number has one. The bytes are those
  -- left at `dst`, as many as the return value; `none` stands for -1. Each round moves a byte at
  -- least, so `n` rounds are enough.
  unfoldable pub readi :
      (device : ℕ → Option (ℕ → M (Option (List ℕ)))) → (off n : ℕ) → M (Option (List ℕ))
  unfolding read_mirrored read_plain
  readi device off n s =
      let ip = s.inode in
      let n' = if ltb ip.logical_size (off + n) then ip.logical_size - off else n in
      if ip.kind == t_dev
      then (elim (device ip.major) [ none ↦ ok (none, s) | some read ↦ read n s ])
      else (if bad_range ip off n
          then ok (none, s)
          else (if ip.kind == t_mirrored
              then read_mirrored n' n' 0 off no_diffs s
              else (do bytes ← read_plain n' n' 0 off; pure (some bytes)) s))
