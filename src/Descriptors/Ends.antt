-- ===== src/Descriptors/Ends.antt =====
-- The reference counts while a pipe is opened: pipealloc of kernel/pipe.c, "triple file system".
use operation_system_project.Prelude.{
  ℕ, ◌<◌, inl, inr, refl, sym, subst, Bool, true, false, List, ◌∷◌, Option, none, some, modify,
  ◌==◌, Bool-cases, Returns, returns, Returns-bind, arith,
}
use operation_system_project.Files.{File, filealloc}
use operation_system_project.Files.Count.{
  count, IsCounted, IsAllocated, filealloc-IsAllocated, fileclose-IsClosed, modify-IsCounted,
  file-within,
}
use operation_system_project.Descriptors.{
  Ends, close_both, pipe_end, set_ends, second_end, first_end, pipealloc,
}
use operation_system_project.Descriptors.Held.{SameCounts-swap, IsCounted-same}

-- What `pipealloc` returns: two files with a new reference each, or none.
abbrev pub IsOpened : (h : List ℕ) → Ends → Type 0
IsOpened h (none, r) = IsCounted r.1 h
IsOpened h (some (f0, f1), r) = IsCounted r.1 (f0 ∷ f1 ∷ h)

pub close_both-IsCounted :
    (f g : ℕ) (t : List File) (h : List ℕ)
    → IsCounted t (f ∷ g ∷ h)
    → Returns (λ r. IsCounted r.1 h) (close_both f g t)
unfolding close_both
close_both-IsCounted f g t h c =
    Returns-bind (fileclose-IsClosed t (g ∷ h) f c)
      (λ r p. Returns-bind (fileclose-IsClosed r.0 h g p.counted) (λ q d. returns d.counted))

pipe_end-IsCounted :
    (page f : ℕ) (w : Bool) (t : List File) (h : List ℕ)
    → 0 < count f h
    → IsCounted t h
    → IsCounted (modify t f (pipe_end page w)) h
pipe_end-IsCounted page f w t h referred c =
    modify-IsCounted t f (pipe_end page w) h h (file-within t f (omega (arith, c f, referred)))
      (c f) (λ j n. refl) c

pub first_held : (f : ℕ) (h : List ℕ) → 0 < count f (f ∷ h)
first_held f h = ground arith

second_held : (g f : ℕ) (h : List ℕ) → 0 < count f (g ∷ f ∷ h)
second_held g f h = ground arith

set_ends-IsOpened :
    (page f0 f1 : ℕ) (t : List File) (h : List ℕ)
    → IsCounted t (f0 ∷ f1 ∷ h)
    → Returns (IsOpened h) (set_ends page f0 f1 t)
unfolding set_ends
set_ends-IsOpened page f0 f1 t h c = elim (Bool-cases (page == 0)) [
  | inl e ↦ rw e (Returns-bind (close_both-IsCounted f0 f1 t h c) (λ r d. returns d))
  | inr e ↦ rw e (
      returns (
        pipe_end-IsCounted page f1 true _ (f0 ∷ f1 ∷ h) (second_held f0 f1 h)
          (pipe_end-IsCounted page f0 false t (f0 ∷ f1 ∷ h) (first_held f0 (f1 ∷ h)) c)))
]

second_end-IsOpened :
    (page f0 : ℕ) (t : List File) (h : List ℕ) (r : Option ℕ × List File)
    → IsCounted t (f0 ∷ h)
    → IsAllocated t (f0 ∷ h) r
    → Returns (IsOpened h) (second_end page f0 r)
unfolding second_end
second_end-IsOpened page f0 t h (none, t') c a =
    Returns-bind (fileclose-IsClosed t' h f0 (subst (λ u. IsCounted u (f0 ∷ h)) (sym a.0) c))
      (λ r d. returns d.counted)
second_end-IsOpened page f0 t h (some f1, t') c a =
    set_ends-IsOpened page f0 f1 t' h
      (IsCounted-same t' (f1 ∷ f0 ∷ h) (f0 ∷ f1 ∷ h) (SameCounts-swap f1 f0 h) a.2)

first_end-IsOpened :
    (page : ℕ) (t : List File) (h : List ℕ) (r : Option ℕ × List File)
    → IsCounted t h
    → IsAllocated t h r
    → Returns (IsOpened h) (first_end page r)
unfolding first_end
first_end-IsOpened page t h (none, t') c a = returns (subst (λ u. IsCounted u h) (sym a.0) c)
first_end-IsOpened page t h (some f0, t') c a =
    second_end-IsOpened page f0 t' h (filealloc t') a.2 (filealloc-IsAllocated t' (f0 ∷ h) a.2)

pub pipealloc-IsOpened :
    (page : ℕ) (t : List File) (h : List ℕ)
    → IsCounted t h
    → Returns (IsOpened h) (pipealloc page t)
unfolding pipealloc
pipealloc-IsOpened page t h c =
    first_end-IsOpened page t h (filealloc t) c (filealloc-IsAllocated t h c)
