-- ===== src/Fs/Inodes/Distinct.antt =====
-- Copies in the cache of inodes are distinct: `iget`, kernel/fs.c of "triple file system".
use native.Mathlib.Decide.{ℕ_discrete}
use operation_system_project.Prelude.{
  ℕ, ◌+◌, ◌≡◌, ◌≢◌, ◌<◌, sym, subst, ap, ◌∙◌, true, false, none, List, length, modify,
  get_or-modify_self, get_or-modify_ne, Result, ok, panic, arith,
}
use operation_system_project.Fs.{Inode}
use operation_system_project.Fs.Inodes.Scanning.{
  HasNoCopy, Scanned, is_cached, is_kept, is_empty, is_full, scan_inodes-Scanned,
}
use operation_system_project.Fs.Inodes.Cache.{
  slot, blank_inode, Scan, is_copy, count_ref, fresh_copy, iget_found, iget,
}

-- No two entries in use are copies of the same inode.
abbrev pub IsDistinct : List Inode → Type 0
IsDistinct t =
    (i j : ℕ)
    → i ≢ j
    → 0 < (slot t i).ref
    → 0 < (slot t j).ref
    → (slot t i).dev ≡ (slot t j).dev
    → (slot t i).inum ≢ (slot t j).inum

-- Entry `i` is a copy of the inode, with one reference more than before, and not valid if it was
-- not in use; the others are as they were.
pub record IsGotten (dev inum : ℕ) (t t' : List Inode) (i : ℕ) : Type 0 where
  pub inside : i < length t
  pub device : (slot t' i).dev ≡ dev
  pub number : (slot t' i).inum ≡ inum
  pub counted : (slot t' i).ref ≡ (slot t i).ref + 1
  pub unread : (slot t i).ref ≡ 0 → (slot t' i).valid ≡ false
  pub others : (j : ℕ) → j ≢ i → slot t' j ≡ slot t j
  pub distinct : IsDistinct t'

-- What `iget` may come to.
pub data Gotten (dev inum : ℕ) (t : List Inode) : Result (ℕ × List Inode) → Type 0 where
  no_entry : ((k : ℕ) → k < length t → 0 < (slot t k).ref) → Gotten dev inum t panic
  gotten : (i : ℕ) {t' : List Inode} → IsGotten dev inum t t' i → Gotten dev inum t (ok (i, t'))

copy_keys :
    (ip : Inode) (dev inum : ℕ)
    → is_copy ip dev inum ≡ true
    → (0 < ip.ref) × ((ip.dev ≡ dev) × (ip.inum ≡ inum))
unfolding is_copy
copy_keys ip dev inum e = ground arith

not_copy :
    (ip : Inode) (dev inum : ℕ)
    → is_copy ip dev inum ≡ false
    → 0 < ip.ref
    → ip.dev ≡ dev
    → ip.inum ≢ inum
unfolding is_copy
not_copy ip dev inum e h q q' = ground arith

module _ (t t' : List Inode) (m : ℕ) (others : (j : ℕ) → j ≢ m → slot t' j ≡ slot t j) where
  -- A change of entry `m` that keeps its inode keeps the entries distinct.
  Distinct-same :
      0 < (slot t m).ref
      → (slot t' m).dev ≡ (slot t m).dev
      → (slot t' m).inum ≡ (slot t m).inum
      → IsDistinct t
      → IsDistinct t'
  Distinct-same used same_dev same_inum d i j ne hi hj e e' =
      d i j ne (ref_of i hi) (ref_of j hj) (sym (dev_of i) ∙ (e ∙ dev_of j))
        (sym (inum_of i) ∙ (e' ∙ inum_of j))
    where
      dev_of : (k : ℕ) → (slot t' k).dev ≡ (slot t k).dev
      dev_of k = elim (ℕ_discrete k m) [
        | yes q ↦ rw q same_dev
        | no ne' ↦ ap (λ ip. ip.dev) (others k ne')
      ]

      inum_of : (k : ℕ) → (slot t' k).inum ≡ (slot t k).inum
      inum_of k = elim (ℕ_discrete k m) [
        | yes q ↦ rw q same_inum
        | no ne' ↦ ap (λ ip. ip.inum) (others k ne')
      ]

      ref_of : (k : ℕ) → 0 < (slot t' k).ref → 0 < (slot t k).ref
      ref_of k h = elim (ℕ_discrete k m) [
        | yes q ↦ rw q used
        | no ne' ↦ subst (λ ip. 0 < ip.ref) (others k ne') h
      ]

  -- A new copy, of an inode that had none, keeps the entries distinct.
  Distinct-new :
      {dev inum : ℕ}
      → (slot t' m).dev ≡ dev
      → (slot t' m).inum ≡ inum
      → HasNoCopy dev inum t
      → IsDistinct t
      → IsDistinct t'
  Distinct-new {dev} {inum} is_dev is_inum h d i j ne hi hj e e' = elim (ℕ_discrete i m) [
    | yes q ↦
        apart j (λ q'. ne (q ∙ sym q')) hj (sym e ∙ (ap (λ k. (slot t' k).dev) q ∙ is_dev))
          (sym e' ∙ (ap (λ k. (slot t' k).inum) q ∙ is_inum))
    | no ni ↦ elim (ℕ_discrete j m) [
      | yes q ↦
          apart i ni hi (e ∙ (ap (λ k. (slot t' k).dev) q ∙ is_dev))
            (e' ∙ (ap (λ k. (slot t' k).inum) q ∙ is_inum))
      | no nj ↦
          d i j ne (subst (λ ip. 0 < ip.ref) (others i ni) hi)
            (subst (λ ip. 0 < ip.ref) (others j nj) hj)
            (sym (ap (λ ip. ip.dev) (others i ni)) ∙ (e ∙ ap (λ ip. ip.dev) (others j nj)))
            (sym (ap (λ ip. ip.inum) (others i ni)) ∙ (e' ∙ ap (λ ip. ip.inum) (others j nj)))
    ]
  ]
    where
      apart :
          (k : ℕ) → k ≢ m → 0 < (slot t' k).ref → (slot t' k).dev ≡ dev → (slot t' k).inum ≢ inum
      apart k nk hk q q' =
          not_copy (slot t k) dev inum (h k) (subst (λ ip. 0 < ip.ref) (others k nk) hk)
            (sym (ap (λ ip. ip.dev) (others k nk)) ∙ q)
            (sym (ap (λ ip. ip.inum) (others k nk)) ∙ q')

module _ (t : List Inode) (m : ℕ) (f : Inode → Inode) (l : m < length t) where
  at_change : slot (modify t m f) m ≡ f (slot t m)
  at_change = get_or-modify_self t m f blank_inode l

  off_change : (j : ℕ) → j ≢ m → slot (modify t m f) j ≡ slot t j
  off_change j ne = get_or-modify_ne t m j f blank_inode (λ e. ne (sym e))

module _ (dev inum : ℕ) (t : List Inode) (d : IsDistinct t) (m : ℕ) (l : m < length t) where
  IsGotten-cached :
      is_copy (slot t m) dev inum ≡ true → IsGotten dev inum t (modify t m count_ref) m
  IsGotten-cached c =
      let keys = copy_keys (slot t m) dev inum c in
      let here = at_change t m count_ref l in
      let off = off_change t m count_ref l in
      record {
        inside = l;
        device = ap (λ ip. ip.dev) here ∙ keys.1.0;
        number = ap (λ ip. ip.inum) here ∙ keys.1.1;
        counted = ap (λ ip. ip.ref) here;
        unread = λ z. absurd (omega (arith, z, keys.0));
        others = off;
        distinct =
            Distinct-same t (modify t m count_ref) m off keys.0 (ap (λ ip. ip.dev) here)
              (ap (λ ip. ip.inum) here) d;
      }

  IsGotten-fresh :
      (slot t m).ref ≡ 0
      → HasNoCopy dev inum t
      → IsGotten dev inum t (modify t m (fresh_copy dev inum)) m
  IsGotten-fresh z h =
      let here = at_change t m (fresh_copy dev inum) l in
      let off = off_change t m (fresh_copy dev inum) l in
      record {
        inside = l;
        device = ap (λ ip. ip.dev) here;
        number = ap (λ ip. ip.inum) here;
        counted = ap (λ ip. ip.ref) here ∙ ap (λ r. r + 1) (sym z);
        unread = λ z'. ap (λ ip. ip.valid) here;
        others = off;
        distinct =
            Distinct-new t (modify t m (fresh_copy dev inum)) m off (ap (λ ip. ip.dev) here)
              (ap (λ ip. ip.inum) here) h d;
      }

from_zero : (m k : ℕ) → m ≡ 0 + k → m ≡ k
from_zero m k q = omega (arith, q)

iget_found-Gotten :
    (dev inum : ℕ) (t : List Inode) {r : Scan}
    → IsDistinct t
    → Scanned dev inum 0 none t r
    → Gotten dev inum t (iget_found t dev inum r)
unfolding iget_found
iget_found-Gotten dev inum t d (is_cached m k q l c) = gotten m (
    IsGotten-cached dev inum t d m (omega (arith, q, l))
      (ap (λ i. is_copy (slot t i) dev inum) (from_zero m k q) ∙ c))
iget_found-Gotten dev inum t d (is_kept m q h) = absurd (cc)
iget_found-Gotten dev inum t d (is_empty m k q l z h) = gotten m (
    IsGotten-fresh dev inum t d m (omega (arith, q, l))
      (ap (λ i. (slot t i).ref) (from_zero m k q) ∙ z) h)
iget_found-Gotten dev inum t d (is_full q h) = no_entry h

-- If no two entries of the cache that are in use are copies of the same inode, then `iget` returns
-- an entry with the device and the number asked for, with one reference more, and not valid if
-- it was not in use; all other entries are as they were, and again no two entries in use are
-- copies of the same inode. If it panics, every entry is in use.
pub iget-Gotten :
    (dev inum : ℕ) (t : List Inode) → IsDistinct t → Gotten dev inum t (iget t dev inum)
unfolding iget
iget-Gotten dev inum t d = iget_found-Gotten dev inum t d (scan_inodes-Scanned dev inum t 0 none)
