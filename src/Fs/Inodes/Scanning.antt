-- ===== src/Fs/Inodes/Scanning.antt =====
-- The loop of `iget` over the cache of inodes, kernel/fs.c of "triple file system".
use operation_system_project.Prelude.{
  ℕ, zero, suc, ◌+◌, ◌≡◌, ◌<◌, ◌⊎◌, refl, inl, inr, true, false, Bool-cases, Option, none, some,
  List, [], ◌∷◌, length, arith,
}
use operation_system_project.Fs.{Inode}
use operation_system_project.Fs.Inodes.Cache.{
  slot, blank_inode, Scan, cached, vacant, is_copy, note_empty, scan_inodes,
}

-- No entry is a copy of the inode.
abbrev pub HasNoCopy : (dev inum : ℕ) → List Inode → Type 0
HasNoCopy dev inum t = (k : ℕ) → is_copy (slot t k) dev inum ≡ false

-- What the loop may come to at `i`, with the empty entry so far.
pub data Scanned (dev inum i : ℕ) (empty : Option ℕ) (t : List Inode) : Scan → Type 0 where
  is_cached :
      (m k : ℕ)
      → m ≡ i + k
      → k < length t
      → is_copy (slot t k) dev inum ≡ true
      → Scanned dev inum i empty t (cached m)
  is_kept :
      (m : ℕ) → empty ≡ some m → HasNoCopy dev inum t → Scanned dev inum i empty t (vacant (some m))
  is_empty :
      (m k : ℕ)
      → m ≡ i + k
      → k < length t
      → (slot t k).ref ≡ 0
      → HasNoCopy dev inum t
      → Scanned dev inum i empty t (vacant (some m))
  is_full :
      empty ≡ none
      → ((k : ℕ) → k < length t → 0 < (slot t k).ref)
      → Scanned dev inum i empty t (vacant none)

No_copy_cons :
    (dev inum : ℕ) (ip : Inode) (t : List Inode)
    → is_copy ip dev inum ≡ false
    → HasNoCopy dev inum t
    → HasNoCopy dev inum (ip ∷ t)
No_copy_cons dev inum ip t e h zero = e
No_copy_cons dev inum ip t e h (suc k) = h k

used_cons :
    (ip : Inode) (t : List Inode)
    → 0 < ip.ref
    → ((k : ℕ) → k < length t → 0 < (slot t k).ref)
    → (k : ℕ) → k < suc (length t)
    → 0 < (slot (ip ∷ t) k).ref
used_cons ip t h used zero l = h
used_cons ip t h used (suc k) l = used k (omega (arith, l))

-- An empty entry that is noted was noted before, or is the one at hand.
noted :
    (empty : Option ℕ) (i m : ℕ) (ip : Inode)
    → note_empty empty i ip ≡ some m
    → (empty ≡ some m) ⊎ ((m ≡ i) × (ip.ref ≡ 0))
unfolding note_empty
noted none i m ip e = ground arith
noted (some j) i m ip e = inl e

not_noted :
    (empty : Option ℕ) (i : ℕ) (ip : Inode)
    → note_empty empty i ip ≡ none
    → (empty ≡ none) × (0 < ip.ref)
unfolding note_empty
not_noted none i ip e = ground arith
not_noted (some j) i ip e = ground arith

module _ (dev inum : ℕ) where
  Scanned-cons :
      (i : ℕ) (empty : Option ℕ) (ip : Inode) (t : List Inode) {r : Scan}
      → is_copy ip dev inum ≡ false
      → Scanned dev inum (i + 1) (note_empty empty i ip) t r
      → Scanned dev inum i empty (ip ∷ t) r
  Scanned-cons i empty ip t e (is_cached m k q l c) =
      is_cached m (suc k) (omega (arith, q)) (omega (arith, l)) c
  Scanned-cons i empty ip t e (is_kept m q h) = elim (noted empty i m ip q) [
    | inl q' ↦ is_kept m q' (No_copy_cons dev inum ip t e h)
    | inr q' ↦
        is_empty m 0 (omega (arith, q'.0)) (omega arith) q'.1 (No_copy_cons dev inum ip t e h)
  ]
  Scanned-cons i empty ip t e (is_empty m k q l z h) =
      is_empty m (suc k) (omega (arith, q)) (omega (arith, l)) z (No_copy_cons dev inum ip t e h)
  Scanned-cons i empty ip t e (is_full q h) =
      let p = not_noted empty i ip q in is_full p.0 (used_cons ip t p.1 h)

  blank-no_copy : is_copy blank_inode dev inum ≡ false
  unfolding is_copy
  blank-no_copy = refl

  pub scan_inodes-Scanned :
      (t : List Inode) (i : ℕ) (empty : Option ℕ)
      → Scanned dev inum i empty t (scan_inodes t i empty dev inum)
  unfolding scan_inodes
  scan_inodes-Scanned [] i none = is_full refl (λ k l. elim l [ ])
  scan_inodes-Scanned [] i (some m) = is_kept m refl (λ k. blank-no_copy)
  scan_inodes-Scanned (ip ∷ t) i empty = elim (Bool-cases (is_copy ip dev inum)) [
    | inl e ↦ rw e (is_cached i 0 (omega arith) (omega arith) e)
    | inr e ↦
        rw e (Scanned-cons i empty ip t e (scan_inodes-Scanned t (i + 1) (note_empty empty i ip)))
  ]
