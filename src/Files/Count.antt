-- ===== src/Files/Count.antt =====
-- The reference counts of the table of open files against the references that are held.
use native.Mathlib.Decide.{ℕ_discrete}
use operation_system_project.Prelude.{
  ℕ, zero, suc, ◌+◌, ◌-◌, ◌≡◌, ◌≢◌, ◌<◌, refl, sym, subst, ◌∙◌, Bool, true, false, List, [], ◌∷◌,
  Option, none, some, length, modify, ltb, ◌==◌, if◌then◌else◌, ok, arith, Returns, returns,
  get_or-modify_self, get_or-modify_ne,
}
use operation_system_project.Files.{
  File, blank_file, file, find_free, set_ref, alloc_found, filealloc, filedup, fileclose, Closing,
  fd_none, fd_pipe, fd_inode, no_call, pipeclose, iput, closing, clear_file,
}

-- How often a file is referred to.
abbrev pub count : ℕ → List ℕ → ℕ
count i [] = 0
count i (j ∷ h) = (if i == j then 1 else 0) + count i h

-- Every count is the number of references held.
abbrev pub IsCounted : List File → List ℕ → Type 0
IsCounted t h = (i : ℕ) → (file t i).ref ≡ count i h

-- What `filealloc` returns: a file of the table that nobody refers to, which now has one
-- reference; or none, and then every file has a reference and nothing changes.
abbrev pub IsAllocated : List File → List ℕ → Option ℕ × List File → Type 0
IsAllocated t h (none, t') = (t' ≡ t) × ((i : ℕ) → i < length t → 0 < count i h)
IsAllocated t h (some i, t') = (i < length t) × (count i h ≡ 0) × IsCounted t' (i ∷ h)

pub file-within : (t : List File) (i : ℕ) → 0 < (file t i).ref → i < length t
file-within [] i h = elim h [ ]
file-within (f ∷ t) zero h = omega arith
file-within (f ∷ t) (suc i) h = omega (arith, file-within t i h)

not_below : (n : ℕ) → 0 < n → ltb n 1 ≡ false
not_below n h = ground arith

nonzero : (n : ℕ) → (suc n == 0) ≡ false
nonzero n = ground arith

only_one : (k m : ℕ) → k ≡ 1 + m → m ≡ 0 → 1 ≡ k
only_one k m e e' = omega arith

from_start : (i j : ℕ) → i ≡ 0 + j → i ≡ j
from_start i j e = omega arith

positive : (n m : ℕ) → n ≡ m → 0 < m → 0 < n
positive n m e h = omega arith

plus_one : (n m k : ℕ) → n ≡ m → k ≡ 1 + m → n + 1 ≡ k
plus_one n m k e e' = omega arith

minus_one : (n m k : ℕ) → n ≡ k → k ≡ 1 + m → n - 1 ≡ m
minus_one n m k e e' = omega arith

-- A write of one count.
pub modify-IsCounted :
    (t : List File) (i : ℕ) (g : File → File) (h h' : List ℕ)
    → i < length t
    → (g (file t i)).ref ≡ count i h'
    → ((j : ℕ) → j ≢ i → count j h' ≡ count j h)
    → IsCounted t h
    → IsCounted (modify t i g) h'
modify-IsCounted t i g h h' l e o c j = elim (ℕ_discrete j i) [
  | yes p ↦ rw (p, get_or-modify_self t i g blank_file l) e
  | no p ↦ rw (get_or-modify_ne t i j g blank_file (λ q. p (sym q)), o j p) (c j)
]

count_self : (i : ℕ) (h : List ℕ) → count i (i ∷ h) ≡ 1 + count i h
count_self i h = ground arith

count_other : (i j : ℕ) (h : List ℕ) → j ≢ i → count j (i ∷ h) ≡ count j h
count_other i j h n = ground arith

-- If every count is the number of references held, `filedup` of a file that is referred to does
-- not panic and counts the new reference, and the other counts stay right.
pub filedup-IsCounted :
    (t : List File) (h : List ℕ) (i : ℕ)
    → IsCounted t h
    → 0 < count i h
    → Returns (λ t'. IsCounted t' (i ∷ h)) (filedup t i)
unfolding filedup
filedup-IsCounted t h i c held =
    let referred = positive (file t i).ref (count i h) (c i) held in
    rw (not_below (file t i).ref referred) (
      returns (
        modify-IsCounted t i (set_ref ((file t i).ref + 1)) h (i ∷ h) (file-within t i referred)
          (plus_one (file t i).ref (count i h) (count i (i ∷ h)) (c i) (count_self i h))
          (λ j n. count_other i j h n) c))

-- The call that a file needs when nobody refers to it any more: `pipeclose` of its pipe with the end
-- that it was, `iput` of its inode, or none.
pub record ClosesFile (f : File) (c : Closing) : Type 0 where
  pub for_none : f.kind ≡ fd_none → c ≡ no_call
  pub for_pipe : f.kind ≡ fd_pipe → c ≡ pipeclose f.pipe f.writable
  pub for_inode : f.kind ≡ fd_inode → c ≡ iput f.ip

-- What the closing of file `i` makes of it and calls.
pub data Closes (h : List ℕ) (i : ℕ) (f : File) : File → Closing → Type 0 where
  last_one :
      {c : Closing}
      → count i h ≡ 0
      → ClosesFile f c
      → Closes h i f (record f { ref = 0; kind = fd_none }) c
  one_of_many : 0 < count i h → Closes h i f (record f { ref = count i h }) no_call

-- One reference fewer, the closing call if it was the last, and the other files as they were.
pub record IsClosed (t : List File) (h : List ℕ) (i : ℕ) (r : List File × Closing) : Type 0 where
  pub counted : IsCounted r.0 h
  pub closes : Closes h i (file t i) (file r.0 i) r.1
  pub others : (j : ℕ) → i ≢ j → file r.0 j ≡ file t j

closing-ClosesFile : (f : File) → ClosesFile f (closing f)
unfolding closing
closing-ClosesFile f = record { for_none = λ e. rw e; for_pipe = λ e. rw e; for_inode = λ e. rw e }

below : (n : ℕ) → ltb 0 (suc n) ≡ true
below n = ground arith

off_one :
    (t : List File) (h : List ℕ) (i : ℕ) (g : File → File)
    → IsCounted t (i ∷ h)
    → (g (file t i)).ref ≡ count i h
    → IsCounted (modify t i g) h
off_one t h i g c e =
    modify-IsCounted t i g (i ∷ h) h
      (file-within t i
        (positive (file t i).ref (1 + count i h) (c i ∙ count_self i h) (omega arith)))
      e (λ j n. sym (count_other i j h n)) c

-- If every count is the number of references held, `fileclose` of a file that is referred to does
-- not panic and counts the reference off, and the other files stay as they were. If this was the
-- last reference the file's type is FD_NONE, and the routine ends with the call that closes the
-- pipe of a pipe's end or puts the inode of an inode's file; otherwise it ends with no call and the
-- file keeps all but the count.
pub fileclose-IsClosed :
    (t : List File) (h : List ℕ) (i : ℕ)
    → IsCounted t (i ∷ h)
    → Returns (IsClosed t h i) (fileclose t i)
unfolding fileclose
fileclose-IsClosed t h i c = rw (not_below (file t i).ref referred) (by_count (count i h) refl)
  where
    one_more : (file t i).ref ≡ 1 + count i h
    one_more = c i ∙ count_self i h

    referred : 0 < (file t i).ref
    referred = positive (file t i).ref (1 + count i h) one_more (omega arith)

    inside : i < length t
    inside = file-within t i referred

    left : (file t i).ref - 1 ≡ count i h
    left = minus_one (file t i).ref (count i h) (count i (i ∷ h)) (c i) (count_self i h)

    by_count :
        (n : ℕ)
        → count i h ≡ n
        → Returns (IsClosed t h i) (
            if ltb 0 ((file t i).ref - 1)
            then ok (modify t i (set_ref ((file t i).ref - 1)), no_call)
            else ok (modify t i clear_file, closing (file t i)))
    by_count zero e = rw (left ∙ e) (
        returns (record {
          counted = off_one t h i clear_file c (sym e);
          closes =
              subst (λ f. Closes h i (file t i) f (closing (file t i)))
                (sym (get_or-modify_self t i clear_file blank_file inside))
                (last_one e (closing-ClosesFile (file t i)));
          others = λ j n. get_or-modify_ne t i j clear_file blank_file n;
        }))
    by_count (suc n) e =
        rw (left ∙ e, below n)
          (returns (record {
            counted = off_one t h i (set_ref (suc n)) c (sym e);
            closes =
                subst (λ f. Closes h i (file t i) f no_call)
                  (sym (get_or-modify_self t i (set_ref (suc n)) blank_file inside))
                  (subst (λ m. Closes h i (file t i) (set_ref m (file t i)) no_call) e
                    (one_of_many (subst (λ m. 0 < m) (sym e) (omega arith))));
            others = λ j n'. get_or-modify_ne t i j (set_ref (suc n)) blank_file n';
          }))

-- What `find_free` finds: a file with no reference, or that there is none.
abbrev IsFound : List File → ℕ → Option ℕ → Type 0
IsFound t k none = (j : ℕ) → j < length t → 0 < (file t j).ref
IsFound t k (some i) = (j : ℕ) × (i ≡ k + j) × (j < length t) × ((file t j).ref ≡ 0)

zero_test : (n : ℕ) → (n == 0) ≡ true → n ≡ 0
zero_test n e = ground arith

positive_test : (n : ℕ) → (n == 0) ≡ false → 0 < n
positive_test n e = ground arith

IsFound-later :
    (f : File) (t : List File) (k : ℕ) (r : Option ℕ)
    → 0 < f.ref
    → IsFound t (k + 1) r
    → IsFound (f ∷ t) k r
IsFound-later f t k none p h = later
  where
    later : (j : ℕ) → j < length (f ∷ t) → 0 < (file (f ∷ t) j).ref
    later zero l = p
    later (suc j) l = h j (omega arith)
IsFound-later f t k (some i) p (j, e, l, z) = (suc j, omega arith, omega arith, z)

find_free-IsFound : (t : List File) (k : ℕ) → IsFound t k (find_free t k)
unfolding find_free
find_free-IsFound [] k = λ j l. elim l [ ]
find_free-IsFound (f ∷ t) k = by_test (f.ref == 0) refl (find_free-IsFound t (k + 1))
  where
    by_test :
        (b : Bool)
        → (f.ref == 0) ≡ b
        → IsFound t (k + 1) (find_free t (k + 1))
        → IsFound (f ∷ t) k (if f.ref == 0 then some k else find_free t (k + 1))
    by_test true e ih = rw e (0, omega arith, omega arith, zero_test f.ref e)
    by_test false e ih = rw e (IsFound-later f t k (find_free t (k + 1)) (positive_test f.ref e) ih)

alloc_found-IsAllocated :
    (t : List File) (h : List ℕ) (r : Option ℕ)
    → IsCounted t h
    → IsFound t 0 r
    → IsAllocated t h (alloc_found t r)
unfolding alloc_found
alloc_found-IsAllocated t h none c n = (refl, λ i l. rw⁻¹ (c i) (n i l))
alloc_found-IsAllocated t h (some i) c (j, e, l, z) = rw (from_start i j e) (
  l,
  sym (c j) ∙ z,
  modify-IsCounted t j (set_ref 1) h (j ∷ h) l
      (only_one (count j (j ∷ h)) (count j h) (count_self j h) (sym (c j) ∙ z))
      (λ k n. count_other j k h n) c,
)

-- If every count is the number of references held, `filealloc` hands out a file of the table that
-- nobody refers to and counts its reference, or, if every file is referred to, returns the null
-- pointer and changes nothing.
pub filealloc-IsAllocated :
    (t : List File) (h : List ℕ) → IsCounted t h → IsAllocated t h (filealloc t)
unfolding filealloc
filealloc-IsAllocated t h c = alloc_found-IsAllocated t h (find_free t 0) c (find_free-IsFound t 0)
