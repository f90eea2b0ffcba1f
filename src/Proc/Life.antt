-- ===== src/Proc/Life.antt =====
-- The life of a process, kernel/proc.c of "simple shell/xv6": `allocproc`, `fork`, `exit`, `wait`,
-- `sleep`, `wakeup`, `yield` and `kill`. Each routine is one step up to the point where it gives the
-- processor up; all but `fork`, which holds the table's lock in `allocproc` only, hold it throughout
-- or, as `exit`, for the part that is a definition of its own. What they call of the other parts of the kernel is the record `Services`.
pub mod Forking
pub mod Pids
pub mod Reaping
pub mod Slots
pub mod Waking
pub mod Passing
pub mod Waiting
use operation_system_project.Prelude.{
  ℕ, zero, suc, ◌+◌, Bool, true, false, not, ◌||◌, ◌&&◌, Option, none, some, List, [], ◌∷◌, map,
  length, ◌==◌, if◌then◌else◌, modify, Result, ok, panic, ◌>>=◌, IsOk,
}
use operation_system_project.Proc.{
  ProcState, unused, embryo, sleeping, runnable, running, zombie, state_eq, Chan, null, slot_addr,
  chan_eq, Proc, Table, slot,
}

-- The page allocator, the page tables, the open files and the inodes, over a state of their own.
-- A pointer of 0 is null.
pub record Services : Type 1 where
  pub World : Type 0
  pub kalloc : World → ℕ × World
  pub kfree : ℕ → World → Result World
  pub copyuvm : ℕ → ℕ → World → ℕ × World
  pub freevm : ℕ → World → Result World
  pub filedup : ℕ → World → Result World
  pub fileclose : ℕ → World → Result World
  pub idup : ℕ → World → Result World
  pub iput : ℕ → World → Result World

-- `ptable`, `nextpid`, the slot of `initproc`, and the state of the services.
pub record Kernel (World : Type 0) : Type 0 where
  pub table : Table
  pub nextpid : ℕ
  pub initproc : ℕ
  pub world : World

abbrev pub set_slot : {W : Type 0} → Kernel W → ℕ → (Proc → Proc) → Kernel W
set_slot k i f = record k { table = modify k.table i f }

abbrev pub is_unused : Proc → Bool
is_unused p = state_eq p.state unused

-- The first slot from `i` on that passes a test.
unfoldable pub find_slot : (Proc → Bool) → Table → ℕ → Option ℕ
find_slot test [] i = none
find_slot test (p ∷ ps) i = let rest = find_slot test ps (i + 1) in if test p then some i else rest

-- Sleepers on `chan` become runnable.
abbrev pub wake : Chan → Proc → Proc
wake chan p =
    if state_eq p.state sleeping && chan_eq p.chan chan then record p { state = runnable } else p

unfoldable pub wakeup1 : Chan → Table → Table
wakeup1 chan [] = []
wakeup1 chan (p ∷ ps) = wake chan p ∷ wakeup1 chan ps

abbrev pub wake_if : Bool → Chan → Table → Table
wake_if test chan t = if test then wakeup1 chan t else t

-- `sleep` up to `sched`, and its rest after the process is scheduled again.
unfoldable pub sleep : ℕ → Chan → Table → Table
sleep cur chan t = modify t cur (λ p. record p { chan = chan; state = sleeping })

unfoldable pub slept : ℕ → Table → Table
slept cur t = modify t cur (λ p. record p { chan = null })

unfoldable pub yield : ℕ → Table → Table
yield cur t = modify t cur (λ p. record p { state = runnable })

abbrev pub mark_killed : Proc → Proc
mark_killed p = record p {
  killed = true;
  state = if state_eq p.state sleeping then runnable else p.state;
}

-- The result and the table of `kill`, by the slot that its loop stops at; `none` stands for -1.
unfoldable pub kill_slot : Table → Option ℕ → Option (Unit {0}) × Table
kill_slot t none = (none, t)
kill_slot t (some i) = (some tt, modify t i mark_killed)

unfoldable pub kill : ℕ → Table → Option (Unit {0}) × Table
unfolding find_slot kill_slot
kill pid t = kill_slot t (find_slot (λ p. p.pid == pid) t 0)

abbrev pub names : ℕ → Option ℕ → Bool
names cur none = false
names cur (some i) = i == cur

-- `p->parent == proc`
abbrev pub is_child : ℕ → Proc → Bool
is_child cur p = names cur p.parent

abbrev pub parent_chan : Option ℕ → Chan
parent_chan none = null
parent_chan (some i) = slot_addr i

abbrev pub give_to : ℕ → Proc → Proc
give_to init p = record p { parent = some init }

-- The loop of `exit` that passes the children of `cur` to init, with `n` slots left from `i` on.
unfoldable pub pass_child : (cur init : ℕ) → ℕ → Table → Table
pass_child cur init i t =
    if is_child cur (slot t i)
    then (let t' = modify t i (give_to init) in
        wake_if (state_eq (slot t' i).state zombie) (slot_addr init) t')
    else t

unfoldable pub pass_children : (cur init : ℕ) → (n i : ℕ) → Table → Table
pass_children cur init zero i t = t
pass_children cur init (suc n) i t = pass_children cur init n (i + 1) (pass_child cur init i t)

abbrev pub bury : Proc → Proc
bury p = record p { state = zombie }

-- `p->state = EMBRYO; p->pid = nextpid++`
abbrev pub take_slot : ℕ → Proc → Proc
take_slot pid p = record p { state = embryo; pid = pid }

abbrev pub give_page : ℕ → Proc → Proc
give_page page p = record p { kstack = page }

abbrev pub drop_slot : Proc → Proc
drop_slot p = record p { state = unused }

-- The scan of `wait` from slot `i` on: the first zombie child, and `havekids`.
unfoldable pub scan_children : ℕ → Table → ℕ → Bool → Option ℕ × Bool
scan_children cur [] i havekids = (none, havekids)
scan_children cur (p ∷ ps) i havekids =
    let rest = scan_children cur ps (i + 1) (is_child cur p || havekids) in
    if is_child cur p && state_eq p.state zombie then (some i, true) else rest

-- How a pass of `wait` ends: with the pid of a child, with -1, or asleep on the caller's slot.
pub data WaitStop : Type 0 where
  reaped : ℕ → WaitStop
  no_children : WaitStop
  must_sleep : WaitStop

-- The slot of a reaped child; its page table's address, its tickets and its counters stay.
abbrev pub reap : Proc → Proc
reap p = record p { kstack = 0; state = unused; pid = 0; parent = none; killed = false }

-- The part of `exit` under the table's lock.
unfoldable pub exit_locked : (cur init : ℕ) → Table → Table
exit_locked cur init t =
    let t' = wakeup1 (parent_chan (slot t cur).parent) t in
    modify (pass_children cur init (length t') 0 t') cur bury

-- The changes of the child's slot in `fork`.
abbrev pub give_dir : ℕ → Proc → Proc
give_dir dir p = record p { pgdir = dir }

abbrev pub unfork : Proc → Proc
unfork p = record p { kstack = 0; state = unused }

abbrev pub inherit : ℕ → Proc → List ℕ → Proc → Proc
inherit cur parent files p = record p {
  sz = parent.sz;
  parent = some cur;
  ofile = files;
  cwd = parent.cwd;
  state = runnable;
}

module _ (s : Services) where
  open s use {World, kalloc, kfree, copyuvm, freevm, filedup, fileclose, idup, iput}

  -- `goto found`: the slot is taken, and the kernel stack allocated.
  unfoldable pub give_stack : ℕ → Kernel World → Option ℕ × Kernel World
  give_stack i k =
      let (page, w) = kalloc k.world in
      let k' = set_slot (record k { world = w }) i (give_page page) in
      if page == 0 then (none, set_slot k' i drop_slot) else (some i, k')

  -- `allocproc`, by the slot that its loop stops at; `none` stands for the null pointer.
  unfoldable pub alloc_slot : Kernel World → Option ℕ → Option ℕ × Kernel World
  alloc_slot k none = (none, k)
  alloc_slot k (some i) =
      give_stack i (set_slot (record k { nextpid = k.nextpid + 1 }) i (take_slot k.nextpid))

  unfoldable pub allocproc : Kernel World → Option ℕ × Kernel World
  unfolding find_slot alloc_slot
  allocproc k = alloc_slot k (find_slot is_unused k.table 0)

  -- The child's descriptors after the loop over `proc->ofile`.
  unfoldable pub dup_files : List ℕ → List ℕ → World → Result (List ℕ × World)
  dup_files [] gs w = ok (gs, w)
  dup_files (f ∷ fs) [] w = ok ([], w)
  dup_files (f ∷ fs) (g ∷ gs) w =
      if f == 0
      then (do (gs', w') ← dup_files fs gs w; ok (g ∷ gs', w'))
      else (do w' ← filedup f w; (gs', w'') ← dup_files fs gs w'; ok (f ∷ gs', w''))

  -- `fork` by process `cur`, once the child `i` has a slot; `none` stands for -1.
  unfoldable pub fork_into : (cur i : ℕ) → Kernel World → Result (Option ℕ × Kernel World)
  fork_into cur i k =
      let parent = slot k.table cur in
      let (dir, w) = copyuvm parent.pgdir parent.sz k.world in
      let k' = set_slot (record k { world = w }) i (give_dir dir) in
      let child = slot k'.table i in
      if dir == 0
      then (do w' ← kfree child.kstack w; ok (none, set_slot (record k' { world = w' }) i unfork))
      else (do
        (files, w') ← dup_files parent.ofile child.ofile w
        w'' ← idup parent.cwd w'
        ok (some child.pid, set_slot (record k' { world = w'' }) i (inherit cur parent files)))

  unfoldable pub fork_found : ℕ → Option ℕ × Kernel World → Result (Option ℕ × Kernel World)
  fork_found cur (none, k) = ok (none, k)
  fork_found cur (some i, k) = fork_into cur i k

  unfoldable pub fork : ℕ → Kernel World → Result (Option ℕ × Kernel World)
  fork cur k = fork_found cur (allocproc k)

  unfoldable pub close_files : List ℕ → World → Result World
  close_files [] w = ok w
  close_files (f ∷ fs) w =
      if f == 0 then close_files fs w else (do w' ← fileclose f w; close_files fs w')

  -- `exit` up to `sched`, which does not return.
  unfoldable pub exit : ℕ → Kernel World → Result (Kernel World)
  exit cur k = if cur == k.initproc then panic else (do
    w ← close_files (slot k.table cur).ofile k.world
    w' ← iput (slot k.table cur).cwd w
    let t = modify k.table cur (λ p. record p { ofile = map (λ _. 0) p.ofile; cwd = 0 })
    ok (record k { world = w'; table = exit_locked cur k.initproc t }))

  -- One pass of `wait`, by the slot that the scan stops at and `havekids`.
  unfoldable pub wait_found : ℕ → Kernel World → Option ℕ × Bool → Result (WaitStop × Kernel World)
  wait_found cur k (some i, havekids) = do
    w ← kfree (slot k.table i).kstack k.world
    w' ← freevm (slot k.table i).pgdir w
    ok (reaped (slot k.table i).pid, set_slot (record k { world = w' }) i reap)
  wait_found cur k (none, havekids) =
      if not havekids || (slot k.table cur).killed
      then ok (no_children, k)
      else ok (must_sleep, record k { table = sleep cur (slot_addr cur) k.table })

  unfoldable pub wait : ℕ → Kernel World → Result (WaitStop × Kernel World)
  unfolding scan_children wait_found
  wait cur k = wait_found cur k (scan_children cur k.table 0 false)
