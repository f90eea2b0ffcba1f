-- ===== src/Descriptors/Calls.antt =====
-- Sequences of calls on descriptors: sys_dup, sys_close and sys_pipe of kernel/sysfile.c, "triple file
-- system".
use operation_system_project.Prelude.{
  ℕ, ◌≡◌, ◌<◌, sym, subst, Bool, true, false, List, [], ◌∷◌, ◌++◌, Option, none, some, set, Returns,
  returns, Returns-bind, arith,
}
use operation_system_project.Files.{File}
use operation_system_project.Files.Count.{count, IsCounted, filedup-IsCounted, fileclose-IsClosed}
use operation_system_project.Descriptors.{
  Open, Ends, argfd, fdalloc, dup_at, dup_named, close_named, drop_ends, second_fd, first_fd,
  pipe_fds, sys_pipe, Call, dup, close, pipe, call, run,
}
use operation_system_project.Descriptors.Held.{
  held, count-append, SameCounts, SameCounts-append, IsCounted-same, IsAllotted, all_used, allotted,
  fdalloc-IsAllotted, IsNamed, unnamed, named, argfd-IsNamed,
}
use operation_system_project.Descriptors.Ends.{
  IsOpened, close_both-IsCounted, first_held, pipealloc-IsOpened,
}

-- Every file is referred to by the descriptors that name it and by `others`, and by nothing else.
abbrev pub IsOwned : (others : List ℕ) → Open → Type 0
IsOwned others s = IsCounted s.files (held s.ofile ++ others)

module _ (others : List ℕ) where
  dup_at-IsOwned :
      (s : Open) (f fd : ℕ) (r : Option ℕ × List (Option ℕ))
      → 0 < count f (held s.ofile ++ others)
      → IsAllotted f s.ofile r
      → IsOwned others s
      → Returns (λ a. IsOwned others a.state) (dup_at s f r)
  unfolding dup_at
  dup_at-IsOwned s f fd _ h all_used c = returns c
  dup_at-IsOwned s f fd _ h (allotted fd' ofile' same back) c =
      Returns-bind (filedup-IsCounted s.files (held s.ofile ++ others) f c h) (λ t d. returns (
        IsCounted-same t (f ∷ held s.ofile ++ others) (held ofile' ++ others)
          (λ i. sym (SameCounts-append (held ofile') (f ∷ held s.ofile) others same i)) d))

  dup_named-IsOwned :
      (s : Open) (o : Option (ℕ × ℕ))
      → IsNamed s.ofile o
      → IsOwned others s
      → Returns (λ a. IsOwned others a.state) (dup_named s o)
  unfolding dup_named
  dup_named-IsOwned s _ unnamed c = returns c
  dup_named-IsOwned s _ (named fd f same) c =
      dup_at-IsOwned s f fd (fdalloc f s.ofile)
        (holds f (held s.ofile) (held (set s.ofile fd none)) (same f))
        (fdalloc-IsAllotted f s.ofile) c
    where
      holds : (f : ℕ) (g h : List ℕ) → count f g ≡ count f (f ∷ h) → 0 < count f (g ++ others)
      holds f g h e = omega (arith, e, first_held f h, count-append f g others)

  close_named-IsOwned :
      (s : Open) (o : Option (ℕ × ℕ))
      → IsNamed s.ofile o
      → IsOwned others s
      → Returns (λ a. IsOwned others a.state) (close_named s o)
  unfolding close_named
  close_named-IsOwned s _ unnamed c = returns c
  close_named-IsOwned s _ (named fd f same) c =
      Returns-bind
        (fileclose-IsClosed s.files (held (set s.ofile fd none) ++ others) f (
          IsCounted-same s.files (held s.ofile ++ others) (f ∷ held (set s.ofile fd none) ++ others)
            (SameCounts-append (held s.ofile) (f ∷ held (set s.ofile fd none)) others same) c))
        (λ r d. returns d.counted)

  drop_ends-IsOwned :
      (rf wf : ℕ) (ofile : List (Option ℕ)) (t : List File)
      → IsCounted t (rf ∷ wf ∷ held ofile ++ others)
      → Returns (λ a. IsOwned others a.state) (drop_ends rf wf ofile t)
  unfolding drop_ends
  drop_ends-IsOwned rf wf ofile t c =
      Returns-bind (close_both-IsCounted rf wf t (held ofile ++ others) c) (λ r d. returns d)

  second_fd-IsOwned :
      (rf wf fd0 : ℕ) (ofile ofile' : List (Option ℕ)) (t : List File)
      (r : Option ℕ × List (Option ℕ))
      → SameCounts (held ofile') (rf ∷ held ofile)
      → set ofile' fd0 none ≡ ofile
      → IsAllotted wf ofile' r
      → IsCounted t (rf ∷ wf ∷ held ofile ++ others)
      → Returns (λ a. IsOwned others a.state) (second_fd rf wf fd0 t r)
  unfolding second_fd
  second_fd-IsOwned rf wf fd0 ofile ofile' t _ same back all_used c =
      drop_ends-IsOwned rf wf (set ofile' fd0 none) t
        (subst (λ o. IsCounted t (rf ∷ wf ∷ held o ++ others)) (sym back) c)
  second_fd-IsOwned rf wf fd0 ofile ofile' t _ same back (allotted fd1 o same' back') c = returns (
      IsCounted-same t (rf ∷ wf ∷ held ofile ++ others) (held o ++ others)
        (SameCounts-append (rf ∷ wf ∷ held ofile) (held o) others (λ i. both i (same i) (same' i)))
        c)
    where
      both :
          (i : ℕ)
          → count i (held ofile') ≡ count i (rf ∷ held ofile)
          → count i (held o) ≡ count i (wf ∷ held ofile')
          → count i (rf ∷ wf ∷ held ofile) ≡ count i (held o)
      both i e e' = omega (arith, e, e')

  first_fd-IsOwned :
      (rf wf : ℕ) (ofile : List (Option ℕ)) (t : List File) (r : Option ℕ × List (Option ℕ))
      → IsAllotted rf ofile r
      → IsCounted t (rf ∷ wf ∷ held ofile ++ others)
      → Returns (λ a. IsOwned others a.state) (first_fd rf wf t r)
  unfolding first_fd
  first_fd-IsOwned rf wf ofile t _ all_used c = drop_ends-IsOwned rf wf ofile t c
  first_fd-IsOwned rf wf ofile t _ (allotted fd0 ofile' same back) c =
      second_fd-IsOwned rf wf fd0 ofile ofile' t (fdalloc wf ofile') same back
        (fdalloc-IsAllotted wf ofile') c

  pipe_fds-IsOwned :
      (s : Open) (r : Ends)
      → IsOpened (held s.ofile ++ others) r
      → Returns (λ a. IsOwned others a.state) (pipe_fds s r)
  unfolding pipe_fds
  pipe_fds-IsOwned s (none, (cs, t)) c = returns c
  pipe_fds-IsOwned s (some (rf, wf), (cs, t)) c =
      first_fd-IsOwned rf wf s.ofile t (fdalloc rf s.ofile) (fdalloc-IsAllotted rf s.ofile) c

  sys_pipe-IsOwned :
      (good_ptr : Bool) (page : ℕ) (s : Open)
      → IsOwned others s
      → Returns (λ a. IsOwned others a.state) (sys_pipe good_ptr page s)
  unfolding sys_pipe
  sys_pipe-IsOwned false page s c = returns c
  sys_pipe-IsOwned true page s c =
      Returns-bind (pipealloc-IsOpened page s.files (held s.ofile ++ others) c)
        (λ r d. pipe_fds-IsOwned s r d)

  call-IsOwned :
      (c : Call) (s : Open) → IsOwned others s → Returns (λ a. IsOwned others a.state) (call c s)
  unfolding call
  call-IsOwned (dup arg) s c = dup_named-IsOwned s (argfd arg s.ofile) (argfd-IsNamed arg s.ofile) c
  call-IsOwned (close arg) s c =
      close_named-IsOwned s (argfd arg s.ofile) (argfd-IsNamed arg s.ofile) c
  call-IsOwned (pipe good_ptr page) s c = sys_pipe-IsOwned good_ptr page s c

  -- No sequence of calls of sys_dup, sys_close and sys_pipe, with whatever arguments, tables that are
  -- full and failures of kalloc included, panics or miscounts: if every file's reference count is
  -- the number of descriptors of the process that name it plus its other references, it is so
  -- after the calls.
  pub run-IsOwned :
      (cs : List Call) (s : Open) → IsOwned others s → Returns (λ r. IsOwned others r.1) (run cs s)
  unfolding run
  run-IsOwned [] s c = returns c
  run-IsOwned (x ∷ cs) s c =
      Returns-bind (call-IsOwned x s c)
        (λ a d. Returns-bind (run-IsOwned cs a.state d) (λ r e. returns e))
