-- ===== src/Descriptors/Held.antt =====
-- The references that descriptors hold: argfd and fdalloc of kernel/sysfile.c, "triple file system".
use operation_system_project.Prelude.{
  ℕ, zero, suc, ◌+◌, ◌^◌, ◌≡◌, inl, inr, refl, sym, subst, ap, ◌∙◌, ◌||◌, List, [], ◌∷◌, ◌++◌,
  Option, none, some, set, get_or, leb, Bool-cases, arith,
}
use operation_system_project.Files.{File}
use operation_system_project.Files.Count.{count, IsCounted}
use operation_system_project.Descriptors.{open_max, named_file, argfd, free_fd, put_fd, fdalloc}

-- The files that descriptors name, each as often as it is named.
abbrev pub held : List (Option ℕ) → List ℕ
held [] = []
held (none ∷ ofile) = held ofile
held (some f ∷ ofile) = f ∷ held ofile

pub count-append : (i : ℕ) (g h : List ℕ) → count i (g ++ h) ≡ count i g + count i h
count-append i [] h = omega arith
count-append i (j ∷ g) h = omega (arith, count-append i g h)

-- The same references in another order.
abbrev pub SameCounts : List ℕ → List ℕ → Type 0
SameCounts g h = (i : ℕ) → count i g ≡ count i h

pub IsCounted-same : (t : List File) (g h : List ℕ) → SameCounts g h → IsCounted t g → IsCounted t h
IsCounted-same t g h same c = λ i. c i ∙ same i

pub SameCounts-append : (g h rest : List ℕ) → SameCounts g h → SameCounts (g ++ rest) (h ++ rest)
SameCounts-append g h rest same =
    λ i. count-append i g rest ∙ (ap (λ n. n + count i rest) (same i) ∙ sym (count-append i h rest))

pub SameCounts-swap : (f g : ℕ) (h : List ℕ) → SameCounts (f ∷ g ∷ h) (g ∷ f ∷ h)
SameCounts-swap f g h = λ i. omega arith

-- What `fdalloc` returns: a descriptor that named nothing and now names the file, so that clearing
-- it again gives the descriptors from before; or none, and then nothing changes.
pub data IsAllotted (f : ℕ) (ofile : List (Option ℕ)) : Option ℕ × List (Option ℕ) → Type 0 where
  all_used : IsAllotted f ofile (none, ofile)
  allotted :
      (fd : ℕ) (ofile' : List (Option ℕ))
      → SameCounts (held ofile') (f ∷ held ofile)
      → set ofile' fd none ≡ ofile
      → IsAllotted f ofile (some fd, ofile')

-- A free descriptor at index `j` of the rest of a table.
abbrev IsFreeFrom : (ofile : List (Option ℕ)) → (k : ℕ) → Option ℕ → Type 0
IsFreeFrom ofile k none = Unit
IsFreeFrom ofile k (some fd) =
    (j : ℕ) × ((fd ≡ k + j)
      × (((f : ℕ) → SameCounts (held (set ofile j (some f))) (f ∷ held ofile))
          × ((f : ℕ) → set (set ofile j (some f)) j none ≡ ofile)))

IsFreeFrom-later :
    (g : ℕ) (ofile : List (Option ℕ)) (k : ℕ) (r : Option ℕ)
    → IsFreeFrom ofile (k + 1) r
    → IsFreeFrom (some g ∷ ofile) k r
IsFreeFrom-later g ofile k none h = tt
IsFreeFrom-later g ofile k (some fd) (j, (e, (counts, back))) = (
  suc j,
  (omega (arith, e), ((λ f i. omega (arith, counts f i)), (λ f. ap (λ o. some g ∷ o) (back f)))),
)

free_fd-IsFreeFrom : (ofile : List (Option ℕ)) (k : ℕ) → IsFreeFrom ofile k (free_fd ofile k)
unfolding free_fd
free_fd-IsFreeFrom [] k = tt
free_fd-IsFreeFrom (none ∷ ofile) k = (0, (omega arith, ((λ f i. refl), (λ f. refl))))
free_fd-IsFreeFrom (some g ∷ ofile) k =
    IsFreeFrom-later g ofile k (free_fd ofile (k + 1)) (free_fd-IsFreeFrom ofile (k + 1))

put_fd-IsAllotted :
    (f : ℕ) (ofile : List (Option ℕ)) (r : Option ℕ)
    → IsFreeFrom ofile 0 r
    → IsAllotted f ofile (put_fd f ofile r)
put_fd-IsAllotted f ofile none h = all_used
put_fd-IsAllotted f ofile (some fd) (j, (e, (counts, back))) =
    subst (λ d. IsAllotted f ofile (some d, set ofile d (some f))) (sym (from_zero fd j e))
      (allotted j (set ofile j (some f)) (counts f) (back f))
  where
    from_zero : (fd j : ℕ) → fd ≡ 0 + j → fd ≡ j
    from_zero fd j e = omega (arith, e)

pub fdalloc-IsAllotted : (f : ℕ) (ofile : List (Option ℕ)) → IsAllotted f ofile (fdalloc f ofile)
unfolding fdalloc
fdalloc-IsAllotted f ofile =
    put_fd-IsAllotted f ofile (free_fd ofile 0) (free_fd-IsFreeFrom ofile 0)

-- What `argfd` finds: a descriptor that names a file.
pub data IsNamed (ofile : List (Option ℕ)) : Option (ℕ × ℕ) → Type 0 where
  unnamed : IsNamed ofile none
  named :
      (fd f : ℕ)
      → SameCounts (held ofile) (f ∷ held (set ofile fd none))
      → IsNamed ofile (some (fd, f))

held-clear :
    (ofile : List (Option ℕ)) (fd f : ℕ)
    → get_or ofile fd none ≡ some f
    → SameCounts (held ofile) (f ∷ held (set ofile fd none))
held-clear [] fd f e i = ground arith
held-clear (none ∷ ofile) zero f e i = ground arith
held-clear (some g ∷ ofile) zero f e i = ground arith
held-clear (none ∷ ofile) (suc fd) f e i = held-clear ofile fd f e i
held-clear (some g ∷ ofile) (suc fd) f e i = omega (arith, held-clear ofile fd f e i)

named_file-IsNamed :
    (ofile : List (Option ℕ)) (fd : ℕ) (o : Option ℕ)
    → get_or ofile fd none ≡ o
    → IsNamed ofile (named_file fd o)
named_file-IsNamed ofile fd none e = unnamed
named_file-IsNamed ofile fd (some f) e = named fd f (held-clear ofile fd f e)

pub argfd-IsNamed : (arg : Option ℕ) (ofile : List (Option ℕ)) → IsNamed ofile (argfd arg ofile)
unfolding argfd
argfd-IsNamed none ofile = unnamed
argfd-IsNamed (some fd) ofile = elim (Bool-cases (leb (2 ^ 31) fd || leb open_max fd)) [
  | inl e ↦ rw e unnamed
  | inr e ↦ rw e (named_file-IsNamed ofile fd (get_or ofile fd none) refl)
]
