-- ===== src/Fs/OneBlock.antt =====
-- `readi` of bytes that lie in one block of a mirrored file.
use operation_system_project.Prelude.{
  sym, ap, Returns-map, ℕ, zero, suc, ◌+◌, ◌-◌, ◌≡◌, ◌%◌, ◌^◌, ◌≤◌, Bool, true, false, refl, ◌<◌,
  List, [], append-nil, Option, none, some, ltb, ◌==◌, min, if◌then◌else◌, ok, arith, Returns,
  Returns-of_eq,
}
use mathlib.Core.Path.{subst}
use operation_system_project.Fs.{Fs, Inode, M, block_size, t_dev, t_mirrored, slice}
use operation_system_project.Fs.Data.{
  Diffs, no_diffs, mirror_base, all_differ, bad_range, read_round, after_round, read_mirrored,
  readi,
}
use operation_system_project.Fs.Agree.{IsRead, flags-IsRead}
use operation_system_project.Fs.Mirror.{addr, IsMapped, after}
use operation_system_project.Fs.Heal.{
  copy_of, flags_of, vote, against_first, against_second, against_third, no_majority,
  read_round-first, read_round-second, read_round-third, read_round-unchanged,
}

all_in_round :
    (off k : ℕ)
    → off % block_size + suc k ≤ block_size
    → min (suc k - 0) (block_size - off % block_size) ≡ suc k
all_in_round off k h = omega arith

first_round : (k : ℕ) → ltb 0 (suc k) ≡ true
first_round k = ground arith

not_device : (ip : Inode) → ip.kind ≡ t_mirrored → (ip.kind == t_dev) ≡ false
not_device ip h = ground arith

mirrored : (ip : Inode) → ip.kind ≡ t_mirrored → (ip.kind == t_mirrored) ≡ true
mirrored ip h = ground arith

no_clamp : (size e : ℕ) → e ≤ size → ltb size e ≡ false
no_clamp size e h = ground arith

in_range :
    (ip : Inode) (off n : ℕ)
    → off + n ≤ ip.logical_size
    → off + n < 2 ^ 32
    → bad_range ip off n ≡ false
in_range ip off n h small = ground arith

module _ (balloc : M ℕ) where
  -- After `n` bytes the loop stops.
  read_mirrored-done :
      (fuel n tot off : ℕ) (f : Diffs) (s : Fs)
      → n ≤ tot
      → read_mirrored balloc fuel n tot off f s ≡ ok (some [], s)
  unfolding read_mirrored
  read_mirrored-done zero n tot off f s h = refl
  read_mirrored-done (suc fuel) n tot off f s h = rw (test n tot h)
    where
      test : (n tot : ℕ) → n ≤ tot → ltb tot n ≡ false
      test n tot h = ground arith

  -- A round returns whatever the flags are, and then leaves the third copy's bytes in `dst`.
  read_round-third_copy :
      (s : Fs) (n off m : ℕ) (f : Diffs)
      → IsMapped s.inode (mirror_base off)
      → (s' : Fs) × (read_round balloc n off m f s
          ≡ ok (
            (slice (off % block_size) m (copy_of s (mirror_base off) 2), flags_of s n off f),
            s',
          ))
  read_round-third_copy s n off m f h = elim (vote (flags_of s n off f)) [
    | against_first v ↦ (_, read_round-first balloc s off h n m f v)
    | against_second v ↦ (_, read_round-second balloc s off h n m f v)
    | against_third v ↦ (_, read_round-third balloc s off h n m f v)
    | no_majority n₁ n₂ n₃ ↦ (_, read_round-unchanged balloc s off h n m f n₁ n₂ n₃)
  ]

  after_round-last :
      (more : Diffs → M (Option (List ℕ))) (bytes : List ℕ) (g : Diffs) (s : Fs)
      → more g s ≡ ok (some [], s)
      → after_round more (bytes, g) s ≡ ok (if all_differ g then none else some bytes, s)
  unfolding after_round
  after_round-last more bytes g s e = by_test (all_differ g) refl
    where
      by_test :
          (b : Bool)
          → all_differ g ≡ b
          → after_round more (bytes, g) s ≡ ok (if all_differ g then none else some bytes, s)
      by_test true e' = rw e'
      by_test false e' = rw (e', e, append-nil bytes)

  -- The one round and what follows it.
  read_mirrored-one :
      (s : Fs) (off k : ℕ) (f : Diffs)
      → off % block_size + suc k ≤ block_size
      → IsMapped s.inode (mirror_base off)
      → Returns
          (λ r. r.0 ≡ (
            if all_differ (flags_of s (suc k) off f)
            then none
            else some (slice (off % block_size) (suc k) (copy_of s (mirror_base off) 2))))
          (read_mirrored balloc (suc k) (suc k) 0 off f s)
  unfolding read_mirrored
  read_mirrored-one s off k f fits h =
      let round = read_round-third_copy s (suc k) off (suc k) f h in
      rw (all_in_round off k fits, first_round k)
        (Returns-of_eq
          (after _ round.1 (
            after_round-last _ _ (flags_of s (suc k) off f) round.0 (
              read_mirrored-done k (suc k) (0 + suc k) (off + suc k) (flags_of s (suc k) off f)
                round.0 (omega arith))))
          refl)

  pub readi-flags_of :
      (device : ℕ → Option (ℕ → M (Option (List ℕ)))) (s : Fs) (off n : ℕ)
      → s.inode.kind ≡ t_mirrored
      → 0 < n
      → off % block_size + n ≤ block_size
      → off + n ≤ s.inode.logical_size
      → off + n < 2 ^ 32
      → IsMapped s.inode (mirror_base off)
      → Returns
          (λ r. r.0 ≡ (
            if all_differ (flags_of s n off no_diffs)
            then none
            else some (slice (off % block_size) n (copy_of s (mirror_base off) 2))))
          (readi balloc device off n s)
  unfolding readi
  readi-flags_of device s off zero kind pos fits inside small h = elim pos [ ]
  readi-flags_of device s off (suc k) kind pos fits inside small h =
      rw
        (
          not_device s.inode kind,
          mirrored s.inode kind,
          no_clamp s.inode.logical_size (off + suc k) inside,
          in_range s.inode off (suc k) inside small,
        )
        (read_mirrored-one s off k no_diffs fits h)

  -- `readi` of at least one byte of a mirrored file, up to its end and below 2 ^ 32, within one
  -- block whose three copies are mapped by direct addresses, among the first 12, returns. It fails
  -- if no two of the copies agree in their first `n` bytes, compared as strings that a byte 0
  -- ends, and otherwise returns the bytes of the third copy, outvoted or not.
  pub readi-one_block :
      (device : ℕ → Option (ℕ → M (Option (List ℕ)))) (s : Fs) (off n : ℕ)
      → s.inode.kind ≡ t_mirrored
      → 0 < n
      → off % block_size + n ≤ block_size
      → off + n ≤ s.inode.logical_size
      → off + n < 2 ^ 32
      → IsMapped s.inode (mirror_base off)
      → Returns
          (λ r.
            IsRead n
              (copy_of s (mirror_base off) 0)
              (copy_of s (mirror_base off) 1)
              (copy_of s (mirror_base off) 2)
              (slice (off % block_size) n (copy_of s (mirror_base off) 2))
              r.0)
          (readi balloc device off n s)
  readi-one_block device s off n kind pos fits inside small h =
      let verdict =
        flags-IsRead n (s.cached (addr s.inode (mirror_base off))) (copy_of s (mirror_base off) 1)
          (copy_of s (mirror_base off) 2)
          (slice (off % block_size) n (copy_of s (mirror_base off) 2)) in
      Returns-map
        (λ r e.
          subst
            (IsRead n (copy_of s (mirror_base off) 0) (copy_of s (mirror_base off) 1)
              (copy_of s (mirror_base off) 2)
              (slice (off % block_size) n (copy_of s (mirror_base off) 2)))
            (sym e)
            (subst
              (λ b.
                IsRead n b (copy_of s (mirror_base off) 1) (copy_of s (mirror_base off) 2)
                  (slice (off % block_size) n (copy_of s (mirror_base off) 2))
                  (if all_differ (flags_of s n off no_diffs)
                    then none
                    else some (slice (off % block_size) n (copy_of s (mirror_base off) 2))))
              (ap (λ k. s.cached (addr s.inode k)) (omega arith)) verdict))
        (readi-flags_of device s off n kind pos fits inside small h)
