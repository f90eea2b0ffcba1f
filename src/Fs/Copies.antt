-- ===== src/Fs/Copies.antt =====
-- What a round of `writei` leaves in the three copies of a block of a mirrored file.
use operation_system_project.Prelude.{
  Returns-of_eq, ℕ, ◌+◌, ◌≡◌, ◌%◌, refl, List, ok, arith, Returns,
}
use operation_system_project.Fs.{Fs, M, block_size, splice}
use operation_system_project.Fs.Data.{mirror_base}
use operation_system_project.Fs.Write.{write_round}
use operation_system_project.Fs.Mirror.{
  addr, IsMapped, after, put, write_block-put, mbmap-first, mbmap-second, mbmap-third,
}

-- Block `a` has the bytes of `src` from `o` on, in its buffer and on the disk.
pub record HasCopy (s s' : Fs) (o m : ℕ) (src : List ℕ) (a : ℕ) : Type 0 where
  pub in_buffer : s'.cached a ≡ splice o m src (s.cached a)
  pub on_disk : s'.disk a ≡ splice o m src (s.cached a)

-- The inode is the same, the three blocks have the bytes, and no other block has changed.
pub record IsWritten (s s' : Fs) (bn o m : ℕ) (src : List ℕ) : Type 0 where
  pub same_inode : s'.inode ≡ s.inode
  pub first : HasCopy s s' o m src (addr s.inode bn)
  pub second : HasCopy s s' o m src (addr s.inode (bn + 1))
  pub third : HasCopy s s' o m src (addr s.inode (bn + 2))
  pub others :
      (b : ℕ)
      → ¬ (b ≡ addr s.inode bn)
      → ¬ (b ≡ addr s.inode (bn + 1))
      → ¬ (b ≡ addr s.inode (bn + 2))
      → (s'.cached b ≡ s.cached b) × (s'.disk b ≡ s.disk b)

-- The state after the three writes.
abbrev pub put_copies : Fs → (bn o m : ℕ) → List ℕ → Fs
put_copies s bn o m src =
    let s₁ = put s (addr s.inode bn) (splice o m src (s.cached (addr s.inode bn))) in
    let s₂ = put s₁ (addr s.inode (bn + 1)) (splice o m src (s₁.cached (addr s.inode (bn + 1)))) in
    put s₂ (addr s.inode (bn + 2)) (splice o m src (s₂.cached (addr s.inode (bn + 2))))

module _ (balloc : M ℕ) (s : Fs) (off m : ℕ) (src : List ℕ)
    (h : IsMapped s.inode (mirror_base off)) where
  pub write_round-put_copies :
      write_round balloc off m src s
      ≡ ok (tt, put_copies s (mirror_base off) (off % block_size) m src)
  unfolding write_round
  write_round-put_copies =
      let bn = mirror_base off in
      let o = off % block_size in
      let a₁ = addr s.inode bn in
      let a₂ = addr s.inode (bn + 1) in
      let a₃ = addr s.inode (bn + 2) in
      let s₁ = put s a₁ (splice o m src (s.cached a₁)) in
      let s₂ = put s₁ a₂ (splice o m src (s₁.cached a₂)) in
      after _ (mbmap-first balloc s bn h) (
        after _ (mbmap-second balloc s bn h) (
          after _ (mbmap-third balloc s bn h) (
            after _ (after _ (mbmap-first balloc s bn h) (write_block-put o m src a₁ s)) (
              after _ (after _ (mbmap-second balloc s₁ bn h) (write_block-put o m src a₂ s₁))
                (after _ (mbmap-third balloc s₂ bn h) (write_block-put o m src a₃ s₂))))))

pub put_copies-IsWritten :
    (s : Fs) (bn o m : ℕ) (src : List ℕ)
    → IsMapped s.inode bn
    → IsWritten s (put_copies s bn o m src) bn o m src
put_copies-IsWritten s bn o m src h =
    let apart12 = h.apart12 in
    let apart13 = h.apart13 in
    let apart23 = h.apart23 in
    record {
      same_inode = refl;
      first = record { in_buffer = ground arith; on_disk = ground arith };
      second = record { in_buffer = ground arith; on_disk = ground arith };
      third = record { in_buffer = ground arith; on_disk = ground arith };
      others = λ b n₁ n₂ n₃. (ground arith, ground arith);
    }

-- A round of `writei` on a mirrored file whose three blocks are mapped by direct addresses,
-- among the first 12, returns and leaves the bytes in all three copies, in the buffers and on the
-- disk; no other block changes, and neither does the inode.
pub write_round-IsWritten :
    (balloc : M ℕ) (s : Fs) (off m : ℕ) (src : List ℕ)
    → IsMapped s.inode (mirror_base off)
    → Returns
        (λ r. IsWritten s r.1 (mirror_base off) (off % block_size) m src)
        (write_round balloc off m src s)
write_round-IsWritten balloc s off m src h =
    Returns-of_eq (write_round-put_copies balloc s off m src h)
      (put_copies-IsWritten s (mirror_base off) (off % block_size) m src h)
