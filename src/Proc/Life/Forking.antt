-- ===== src/Proc/Life/Forking.antt =====
-- `fork`: the child that it makes, and that the pids stay distinct.
use operation_system_project.Prelude.{
  ℕ, ◌<◌, ◌≡◌, refl, ap, ◌∙◌, inl, inr, true, false, Option, none, some, length, ◌==◌, modify,
  Bool-cases, length-modify, Ensures, Ensures-bind, IsOk, IsOk-bind, Returns, Returns-of_ok, Result,
  ok, panic, ◌>>=◌, ◌≢◌, arith,
}
use operation_system_project.Proc.{Proc, Table, slot, state_eq, embryo, unused, runnable}
use operation_system_project.Proc.Life.{
  Services, Kernel, set_slot, is_unused, give_dir, unfork, inherit, allocproc, dup_files, fork_into,
  fork_found, fork,
}
use operation_system_project.Proc.Life.Slots.{slot-modify_self}
use operation_system_project.Proc.Life.Pids.{
  IsPids, IsPids-keep, KeepsPids-modify, Allocated, allocproc-Allocated,
}

module _ (s : Services) where
  open s use {World, kfree, copyuvm, filedup, idup}

  -- What `fork` gives when it returns: -1, or the fresh pid of a runnable child of `cur` in a slot
  -- that was unused.
  abbrev pub Forked : ℕ → Kernel World → Option ℕ × Kernel World → Type 0
  Forked cur k (none, k') = IsPids k'.table k'.nextpid
  Forked cur k (some pid, k') =
      IsPids k'.table k'.nextpid
      × (pid ≡ k.nextpid)
      × (i : ℕ) × (is_unused (slot k.table i) ≡ true)
      × ((slot k'.table i).pid ≡ pid)
      × ((slot k'.table i).state ≡ runnable)
      × ((slot k'.table i).parent ≡ some cur)

  fork_into-Forked :
      (cur i : ℕ) (k₀ k : Kernel World)
      → IsPids k.table k.nextpid
      → is_unused (slot k₀.table i) ≡ true
      → i < length k.table
      → (slot k.table i).state ≡ embryo
      → (slot k.table i).pid ≡ k₀.nextpid
      → Ensures (Forked cur k₀) (fork_into s cur i k)
  unfolding fork_into
  fork_into-Forked cur i k₀ k p free h st own = elim (Bool-cases (dir == 0)) [
    | inl fail ↦ rw fail (
        Ensures-bind (Forked cur k₀) (kfree _ _) _
          (λ w. IsPids-keep (KeepsPids-modify t' i unfork h' (λ u. cc) refl) p'))
    | inr got ↦ rw got (
        Ensures-bind (Forked cur k₀) (dup_files s _ _ _) _ (λ r.
          Ensures-bind (Forked cur k₀) (idup _ _) _ (λ w.
            let self' = slot-modify_self t' i (inherit cur (slot k.table cur) r.0) h' in
            (
              IsPids-keep
                  (KeepsPids-modify t' i (inherit cur (slot k.table cur) r.0) h' (λ u. live) refl)
                  p',
              ap (λ (p : Proc). p.pid) self ∙ own,
              i,
              free,
              ap (λ (p : Proc). p.pid) self',
              ap (λ (p : Proc). p.state) self',
              ap (λ (p : Proc). p.parent) self',
            ))))
  ]
    where
      dir : ℕ
      dir = (copyuvm (slot k.table cur).pgdir (slot k.table cur).sz k.world).0

      t' : Table
      t' = modify k.table i (give_dir dir)

      h' : i < length t'
      h' = omega (arith, h, length-modify k.table i (give_dir dir))

      p' : IsPids t' k.nextpid
      p' = IsPids-keep (KeepsPids-modify k.table i (give_dir dir) h (λ u. u) refl) p

      live : is_unused (slot t' i) ≡ false
      live =
          ap is_unused (slot-modify_self k.table i (give_dir dir) h)
          ∙ ap (λ x. state_eq x unused) st

      self : slot t' i ≡ give_dir dir (slot k.table i)
      self = slot-modify_self k.table i (give_dir dir) h

  fork_found-Forked :
      (cur : ℕ) (k : Kernel World) (r : Option ℕ × Kernel World)
      → Allocated s k r
      → Ensures (Forked cur k) (fork_found s cur r)
  unfolding fork_found
  fork_found-Forked cur k (none, k') (p, keep) = p
  fork_found-Forked cur k (some i, k') (p, free, h, st, own) =
      fork_into-Forked cur i k k' p free h st own

  -- What `fork` asks of the other parts of the kernel, in the state in which it calls them: without
  -- a page directory the new stack can be freed, and with one the open files of the caller and its
  -- directory can be referred to once more.
  abbrev pub CanServe : (cur i : ℕ) → Kernel World → Type 0
  CanServe cur i k =
      let parent = slot k.table cur in
      let (dir, w) = copyuvm parent.pgdir parent.sz k.world in
      let child = slot (modify k.table i (give_dir dir)) i in
      (dir ≡ 0 → IsOk (kfree child.kstack w))
      × (dir ≢ 0 → IsOk (dup_files s parent.ofile child.ofile w >>= λ r. idup parent.cwd r.1))

  abbrev pub CanFork : ℕ → Kernel World → Type 0
  CanFork cur k = (i : ℕ) (k' : Kernel World) → allocproc s k ≡ (some i, k') → CanServe cur i k'

  IsOk-ok :
      {A B C : Type 0} (m : Result A) (f : A → Result B) (g : A → B → C)
      → IsOk (m >>= f)
      → IsOk (m >>= λ a. f a >>= λ b. ok (g a b))
  IsOk-ok (ok a) f g h = IsOk-bind (f a) _ h (λ b. tt)
  IsOk-ok panic f g h = h

  fork_into-IsOk : (cur i : ℕ) (k : Kernel World) → CanServe cur i k → IsOk (fork_into s cur i k)
  unfolding fork_into
  fork_into-IsOk cur i k can =
      elim (Bool-cases ((copyuvm (slot k.table cur).pgdir (slot k.table cur).sz k.world).0 == 0)) [
        | inl fail ↦ rw fail (IsOk-bind (kfree _ _) _ (can.0 (ground arith)) (λ w. tt))
        | inr got ↦ rw got (
            IsOk-ok (dup_files s parent.ofile child.ofile w) (λ r. idup parent.cwd r.1)
              (λ r w'.
                (some child.pid, set_slot (record k' { world = w' }) i (inherit cur parent r.0)))
              (can.1 (ground arith)))
      ]
    where
      parent : Proc
      parent = slot k.table cur

      w : World
      w = (copyuvm parent.pgdir parent.sz k.world).1

      k' : Kernel World
      k' = set_slot (record k { world = w }) i (give_dir (copyuvm parent.pgdir parent.sz k.world).0)

      child : Proc
      child = slot k'.table i

  fork_found-IsOk :
      (cur : ℕ) (r : Option ℕ × Kernel World)
      → ((i : ℕ) (k' : Kernel World) → r ≡ (some i, k') → CanServe cur i k')
      → IsOk (fork_found s cur r)
  unfolding fork_found
  fork_found-IsOk cur (none, k) can = tt
  fork_found-IsOk cur (some i, k) can = fork_into-IsOk cur i k (can i k refl)

  -- If the calls that `fork` makes of other parts of the kernel return, and the pids of the slots in
  -- use are distinct and below the next one, `fork`, taken as one step, returns and keeps them so.
  -- It gives -1, or a fresh pid, and then a slot that was unused holds a runnable child of the
  -- caller with that pid.
  pub fork-Forked :
      (cur : ℕ) (k : Kernel World)
      → CanFork cur k
      → IsPids k.table k.nextpid
      → Returns (Forked cur k) (fork s cur k)
  unfolding fork
  fork-Forked cur k can p =
      Returns-of_ok (Forked cur k) _
        (fork_found-Forked cur k (allocproc s k) (allocproc-Allocated s k p))
        (fork_found-IsOk cur (allocproc s k) can)
