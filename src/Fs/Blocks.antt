-- ===== src/Fs/Blocks.antt =====
-- Which disk block holds a block of a file: `bmap` and `mbmap`, kernel/fs.c of "triple file system".
-- `balloc` is the command that finds a free block.
use operation_system_project.Prelude.{
  ℕ, ◌+◌, ◌-◌, ◌*◌, ◌/◌, ◌%◌, get_or, set, ltb, leb, ◌==◌, if◌then◌else◌, ok,
}
use operation_system_project.Fs.{
  Block, M, pure, ◌>>=◌, ◌>>◌, fault, ndirect, nindirect, bread, change, bwrite,
}

-- Entry `i` of a block of `uint`, least byte first.
unfoldable pub word_at : Block → ℕ → ℕ
word_at d i =
    get_or d (4 * i) 0
    + 256 * get_or d (4 * i + 1) 0
    + 65536 * get_or d (4 * i + 2) 0
    + 16777216 * get_or d (4 * i + 3) 0

unfoldable pub set_word : ℕ → ℕ → Block → Block
set_word i w d =
    set
      (set (set (set d (4 * i) (w % 256)) (4 * i + 1) (w / 256 % 256)) (4 * i + 2)
        (w / 65536 % 256))
      (4 * i + 3) (w / 16777216 % 256)

-- `ip->addrs[i]` and a write to it.
unfoldable pub get_addr : ℕ → M ℕ
get_addr i s = ok (get_or s.inode.addrs i 0, s)

unfoldable pub set_addr : ℕ → ℕ → M (Unit {0})
set_addr i a s = ok (tt, record s { inode = record (s.inode) { addrs = set s.inode.addrs i a } })

module _ (balloc : M ℕ) where
  -- `if((addr = ip->addrs[i]) == 0) ip->addrs[i] = addr = balloc(ip->dev)`
  unfoldable pub addr_or_alloc : ℕ → M ℕ
  unfolding get_addr set_addr
  addr_or_alloc i = do
    a ← get_addr i
    if a == 0 then (do a' ← balloc; set_addr i a'; pure a') else pure a

  -- The same for entry `i` of the indirect block `ind`. An index past the block, which C leaves
  -- undefined, is a panic here.
  unfoldable pub entry_or_alloc : ℕ → ℕ → M ℕ
  unfolding bread change bwrite
  entry_or_alloc ind i =
      if leb nindirect i
      then fault
      else (bread ind >>= λ d.
          (if word_at d i == 0
            then (do a' ← balloc; change ind (set_word i a'); bwrite ind; pure a')
            else pure (word_at d i)))

  unfoldable pub bmap : ℕ → M ℕ
  unfolding addr_or_alloc entry_or_alloc
  bmap bn =
      if ltb bn ndirect
      then addr_or_alloc bn
      else (if ltb (bn - ndirect) nindirect
          then (do ind ← addr_or_alloc ndirect; entry_or_alloc ind (bn - ndirect))
          else fault)

  -- The direct part of `mbmap`: the first copy's slot, and then that of the copy asked for.
  unfoldable pub mbmap_direct : ℕ → ℕ → M ℕ
  unfolding addr_or_alloc
  mbmap_direct bn mbn = do
    a ← addr_or_alloc bn
    a' ← if mbn == 1 then addr_or_alloc (bn + 1) else pure a
    if mbn == 2 then addr_or_alloc (bn + 2) else pure a'

  unfoldable pub mbmap : ℕ → ℕ → M ℕ
  unfolding mbmap_direct addr_or_alloc entry_or_alloc
  mbmap bn mbn =
      if ltb bn ndirect
      then mbmap_direct bn mbn
      else (if ltb (bn - ndirect) nindirect
          then (addr_or_alloc ndirect >>= λ ind.
              if ltb mbn 3 then entry_or_alloc ind (bn - ndirect + mbn) else pure ind)
          else fault)
