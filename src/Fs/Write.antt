-- ===== src/Fs/Write.antt =====
-- Writing the data of a file: `writei`, kernel/fs.c of "triple file system".
-- `balloc` finds a free block and `iupdate` writes the inode to the disk.
use operation_system_project.Prelude.{
  ℕ, zero, suc, ◌+◌, ◌-◌, ◌/◌, ◌%◌, ◌^◌, Option, none, some, List, drop, ltb, ◌==◌, ◌&&◌,
  if◌then◌else◌, ok,
}
use operation_system_project.Fs.{
  M, pure, ◌>>=◌, ◌>>◌, block_size, t_dev, t_mirrored, change, bwrite, splice,
}
use operation_system_project.Fs.Blocks.{bmap, mbmap}
use operation_system_project.Fs.Data.{round_bytes, mirror_base, bad_range, max_bytes}

-- `bp = bread(addr); memmove(bp->data + o, src, m); bwrite(bp)`
unfoldable pub write_block : (o m : ℕ) → List ℕ → ℕ → M (Unit {0})
unfolding change bwrite
write_block o m src a = do change a (splice o m src); bwrite a

-- The size after a write of `n` bytes up to `off`; it only grows.
unfoldable pub grow_size : (iupdate : M (Unit {0})) (n off : ℕ) → M (Unit {0})
grow_size iupdate n off s =
    if ltb 0 n && ltb s.inode.logical_size off
    then iupdate (record s { inode = record (s.inode) { logical_size = off } })
    else ok (tt, s)

module _ (balloc : M ℕ) where
  -- A round of the mirrored loop of `writei`, the calls for the addresses that are printed first.
  unfoldable pub write_round : (off m : ℕ) → List ℕ → M (Unit {0})
  unfolding write_block
  write_round off m src = do
    _ ← mbmap balloc (mirror_base off) 0
    _ ← mbmap balloc (mirror_base off) 1
    _ ← mbmap balloc (mirror_base off) 2
    mbmap balloc (mirror_base off) 0 >>= write_block (off % block_size) m src
    mbmap balloc (mirror_base off) 1 >>= write_block (off % block_size) m src
    mbmap balloc (mirror_base off) 2 >>= write_block (off % block_size) m src

  unfoldable pub write_mirrored : ℕ → (n tot off : ℕ) → List ℕ → M (Unit {0})
  unfolding write_round
  write_mirrored zero n tot off src = pure tt
  write_mirrored (suc fuel) n tot off src =
      let m = round_bytes n tot off in
      let more = write_mirrored fuel n (tot + m) (off + m) (drop m src) in
      if ltb tot n then write_round off m src >> more else pure tt

  unfoldable pub write_plain : ℕ → (n tot off : ℕ) → List ℕ → M (Unit {0})
  unfolding write_block
  write_plain zero n tot off src = pure tt
  write_plain (suc fuel) n tot off src =
      let m = round_bytes n tot off in
      let more = write_plain fuel n (tot + m) (off + m) (drop m src) in
      if ltb tot n
      then bmap balloc (off / block_size) >>= write_block (off % block_size) m src >> more
      else pure tt

  -- `writei`; `device` is `devsw[major].write` where the major number has one, and `none` stands
  -- for -1. Each round moves a byte at least, so `n` rounds are enough.
  unfoldable pub writei :
      (iupdate : M (Unit {0})) (device : ℕ → Option (List ℕ → ℕ → M (Option ℕ)))
      → (src : List ℕ) (off n : ℕ) → M (Option ℕ)
  unfolding write_mirrored write_plain grow_size
  writei iupdate device src off n s =
      let ip = s.inode in
      let n' = if ltb max_bytes (off + n) then (max_bytes + 2 ^ 32 - off) % 2 ^ 32 else n in
      let loop =
        if ip.kind == t_mirrored
        then write_mirrored n' n' 0 off src
        else write_plain n' n' 0 off src in
      if ip.kind == t_dev
      then (elim (device ip.major) [ none ↦ ok (none, s) | some write ↦ write src n s ])
      else (if bad_range ip off n
          then ok (none, s)
          else ((loop >> iupdate >> grow_size iupdate n' (off + n') >> pure (some n')) s))
