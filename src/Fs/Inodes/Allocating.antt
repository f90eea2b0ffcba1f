-- ===== src/Fs/Inodes/Allocating.antt =====
-- The inode that `ialloc` finds and marks: kernel/fs.c of "triple file system".
use native.Mathlib.Decide.{ℕ_discrete}
use operation_system_project.Prelude.{
  ℕ, zero, suc, inl, inr, ◌+◌, ◌^◌, ◌≡◌, ◌≤◌, ◌<◌, refl, sym, subst, ap, ◌∙◌, Bool, true, false,
  Bool-cases, ltb, ltb→lt, ◌==◌, if◌then◌else◌, Result, ok, panic, All, replicate, arith,
}
use operation_system_project.Fs.{Fs, M, pure, fault, ◌>>◌, bread}
use operation_system_project.Fs.Mirror.{after}
use operation_system_project.Fs.Bitmap.{readsb}
use operation_system_project.Fs.Bitmap.Alloc.{super, IsSized}
use operation_system_project.Fs.Inodes.{new_dinode, store_dinode, try_inode, ialloc_from, ialloc}
use operation_system_project.Fs.Inodes.Encoding.{IsFitting}
use operation_system_project.Fs.Inodes.Updating.{
  inode_of, IsStored, put_dinode, store_dinode-put, put_dinode-IsStored,
}

-- What `ialloc` may come to.
pub data Claimed (n kind : ℕ) (s : Fs) : Result (ℕ × Fs) → Type 0 where
  no_inode : ((i : ℕ) → 1 ≤ i → i < n → 0 < (inode_of s i).kind) → Claimed n kind s panic
  claimed :
      (i : ℕ) {s' : Fs}
      → 1 ≤ i
      → i < n
      → (inode_of s i).kind ≡ 0
      → ((j : ℕ) → 1 ≤ j → j < i → 0 < (inode_of s j).kind)
      → IsStored s s' i (new_dinode kind)
      → Claimed n kind s (ok (i, s'))

pub zeros-All : (n : ℕ) → All (λ a. a < 2 ^ 32) (replicate n 0)
zeros-All zero = tt
zeros-All (suc n) = (omega arith, zeros-All n)

new_dinode-IsFitting : (kind : ℕ) → kind < 65536 → IsFitting (new_dinode kind)
new_dinode-IsFitting kind h = record {
  kind = h;
  major = omega arith;
  minor = omega arith;
  nlink = omega arith;
  logical_size = omega arith;
  addrs = zeros-All 13;
  slots = refl;
}

try_inode-free :
    (more : M ℕ) (i kind : ℕ) (s : Fs)
    → ((inode_of s i).kind == 0) ≡ true
    → try_inode more i kind s ≡ ok (i, put_dinode i (new_dinode kind) s)
unfolding try_inode bread
try_inode-free more i kind s e =
    ap (λ t. (if t then store_dinode i (new_dinode kind) >> pure i else more) s) e
    ∙ after (λ u. pure i) (store_dinode-put i (new_dinode kind) s) refl

try_inode-taken :
    (more : M ℕ) (i kind : ℕ) (s : Fs)
    → ((inode_of s i).kind == 0) ≡ false
    → try_inode more i kind s ≡ more s
unfolding try_inode bread
try_inode-taken more i kind s e =
    ap (λ t. (if t then store_dinode i (new_dinode kind) >> pure i else more) s) e

ialloc_from-step :
    (s : Fs) (fuel i kind n : ℕ) (t : Bool)
    → ltb i n ≡ t
    → ialloc_from (suc fuel) i kind n s
      ≡ (if t then try_inode (ialloc_from fuel (i + 1) kind n) i kind else fault) s
unfolding ialloc_from
ialloc_from-step s fuel i kind n t e =
    ap (λ t. (if t then try_inode (ialloc_from fuel (i + 1) kind n) i kind else fault) s) e

module _ (kind n : ℕ) (s : Fs) (small : kind < 65536) (sized : IsSized s) where
  -- The inodes from 1 up to `i` are taken.
  abbrev AllTaken : ℕ → Type 0
  AllTaken i = (j : ℕ) → 1 ≤ j → j < i → 0 < (inode_of s j).kind

  one_more : (i : ℕ) → ((inode_of s i).kind == 0) ≡ false → AllTaken i → AllTaken (i + 1)
  one_more i e before j low high = elim (ℕ_discrete j i) [
    | yes q ↦ subst (λ k. 0 < (inode_of s k).kind) (sym q) (positive (inode_of s i).kind e)
    | no ne ↦ before j low (omega (arith, ne, high))
  ]
    where
      positive : (k : ℕ) → (k == 0) ≡ false → 0 < k
      positive k e = ground arith

  ialloc_from-Claimed :
      (fuel i : ℕ)
      → 1 ≤ i
      → AllTaken i
      → n ≤ i + fuel
      → Claimed n kind s (ialloc_from fuel i kind n s)
  unfolding ialloc_from
  ialloc_from-Claimed zero i pos before enough =
      no_inode (λ j low high. before j low (omega (arith, high, enough)))
  ialloc_from-Claimed (suc fuel) i pos before enough = elim (Bool-cases (ltb i n)) [
    | inl e ↦
        subst (λ r. Claimed n kind s r) (sym (ialloc_from-step s fuel i kind n true e))
          (elim (Bool-cases ((inode_of s i).kind == 0)) [
            | inl q ↦
                subst (λ r. Claimed n kind s r) (sym (try_inode-free _ i kind s q))
                  (claimed i pos (ltb→lt i n e) (is_zero (inode_of s i).kind q) before (
                    put_dinode-IsStored i (new_dinode kind) s (new_dinode-IsFitting kind small)
                      sized))
            | inr q ↦
                subst (λ r. Claimed n kind s r) (sym (try_inode-taken _ i kind s q))
                  (ialloc_from-Claimed fuel (i + 1) (omega (arith, pos)) (one_more i q before)
                    (omega (arith, enough)))
          ])
    | inr e ↦
        subst (λ r. Claimed n kind s r) (sym (ialloc_from-step s fuel i kind n false e))
          (no_inode (λ j low high. before j low (past i j e high)))
  ]
    where
      is_zero : (k : ℕ) → (k == 0) ≡ true → k ≡ 0
      is_zero k e = ground arith

      past : (i j : ℕ) → ltb i n ≡ false → j < n → j < i
      past i j e h = ground arith

-- `ialloc` of a type of 16 bits, with blocks of the block size in the buffers, returns the first
-- inode from 1 on whose type is 0 and makes it, in its buffer and on the disk, an inode of that
-- type with zeros in all other fields; no other inode and no other block changes. If it panics,
-- no inode from 1 on below the number of inodes has the type 0.
pub ialloc-Claimed :
    (kind : ℕ) (s : Fs)
    → kind < 65536
    → IsSized s
    → Claimed (super s).ninodes kind s (ialloc kind s)
unfolding ialloc readsb bread
ialloc-Claimed kind s small sized =
    ialloc_from-Claimed kind (super s).ninodes s small sized (super s).ninodes 1 (omega arith)
      (λ j low high. absurd (omega (arith, low, high))) (omega arith)
