-- ===== src/Proc/Tests.antt =====
-- The process table at concrete tables: runs of the scheduler and the theorems there.
use operation_system_project.Prelude.{
  ◌==◌, if◌then◌else◌, ◌>>=◌, Option, subst, ℕ, zero, suc, ◌+◌, ◌<◌, ◌≡◌, refl, none, some, List,
  [], ◌∷◌, ok, Returns, arith,
}
use operation_system_project.Prelude.Int.{ℤ, pos}
use operation_system_project.Kalloc.{Kmem, kalloc, kfree}
use operation_system_project.Files.{File, fd_inode, blank_file, filedup, fileclose}
use operation_system_project.Proc.{
  Proc, Table, blank, slot, sleeping, runnable, running, zombie, slot_addr,
}
use operation_system_project.Proc.Sched.{
  census_step, census_from, idle, reserve, spot, pick_from, pick,
}
use operation_system_project.Proc.Sched.Lottery.{IsHighest, Picked, pick-Picked}
use operation_system_project.Proc.Sched.Fair.{count_below, is_reserve_pick, count_draws}
use operation_system_project.Proc.Sched.Accounting.{HasPages}
use operation_system_project.Proc.Reserve.{sys_reserve}
use operation_system_project.Proc.Reserve.Share.{IsShared, sys_reserve-IsShared}
use operation_system_project.Proc.Life.{
  Services, Kernel, allocproc, give_stack, dup_files, exit_locked, fork, wait,
}
use operation_system_project.Proc.Life.Pids.{InUse, IsPids}
use operation_system_project.Proc.Life.Waiting.{Exited, exit_locked-Exited}
use operation_system_project.Proc.Life.Forking.{Forked, CanServe, CanFork, fork-Forked}
use operation_system_project.Proc.Life.Reaping.{Waited, CanFree, wait-Waited}

abbrev reserve_proc : ℕ → ℕ → Proc
reserve_proc pid n = record blank { pgdir = 1; state = runnable; pid = pid; rpercent = n }

abbrev spot_proc : ℕ → ℕ → Proc
spot_proc pid bid = record blank { pgdir = 1; state = runnable; pid = pid; spotbid = pos bid }

-- A spot process before two reserve processes, and two behind them.
abbrev busy : Table
busy =
    spot_proc 1 900 ∷ reserve_proc 2 50 ∷ reserve_proc 3 25 ∷ spot_proc 4 300 ∷ spot_proc 5 900 ∷ []

pick-busy :
    (pick 0 busy ≡ reserve 1)
    × (pick 74 busy ≡ reserve 2)
    × (pick 75 busy ≡ idle)
    × (pick 76 busy ≡ spot 4)
unfolding pick census_step census_from pick_from blank
pick-busy = (refl, refl, refl, refl)

pick-Picked_example : (bid : ℤ) × IsHighest bid busy × Picked bid 76 busy 0 0 (pick 76 busy)
pick-Picked_example = pick-Picked 76 busy

count_draws_example : count_below 200 (λ r. is_reserve_pick 2 (pick r busy)) ≡ 25
unfolding blank
count_draws_example = count_draws busy 2 (omega arith) refl (omega arith)

abbrev lone : Table
lone = reserve_proc 2 50 ∷ []

lone-HasPages : HasPages lone
unfolding blank
lone-HasPages zero lt r = omega arith
lone-HasPages (suc k) lt r = absurd (omega arith)

lone-IsShared : IsShared 50 lone
unfolding blank
lone-IsShared = omega arith

sys_reserve-IsShared_example :
    let (r, total, t) = sys_reserve 0 (pos 70) 50 lone in IsShared total t
sys_reserve-IsShared_example = sys_reserve-IsShared 0 (pos 70) 50 lone lone-IsShared

-- 100 tickets on top of 150 are refused, and from then on also 10 and 0.
abbrev later : List (ℕ × (ℤ × Table))
later = (1, (pos 10, busy)) ∷ (2, (pos 0, lone)) ∷ []

-- The page allocator and the table of open files with their own panics. A page directory is a page
-- without tables, and inodes are not counted.
abbrev services : Services
services = record {
  World = Kmem × List File;
  kalloc = λ w. ((kalloc w.0).0, ((kalloc w.0).1, w.1));
  kfree = λ v w. kfree 0x100000 v w.0 >>= λ m. ok (m, w.1);
  copyuvm = λ dir sz w. ((kalloc w.0).0, ((kalloc w.0).1, w.1));
  freevm = λ v w. kfree 0x100000 v w.0 >>= λ m. ok (m, w.1);
  filedup = λ f w. filedup w.1 f >>= λ t. ok (w.0, t);
  fileclose = λ f w. fileclose w.1 f >>= λ r. ok (w.0, r.0);
  idup = λ v w. ok w;
  iput = λ v w. ok w;
}

-- Two free pages, and one open file.
abbrev world : Kmem × List File
world = (
  record { freelist = 0x200000; mem = λ a. if a == 0x200000 then 0x201000 else 0 },
  blank_file ∷ record (blank_file) { kind = fd_inode; ref = 1 } ∷ [],
)

-- init, a shell, which has a file open, and its child in slot 2, which has ended; slot 3 is free.
abbrev family : Table
family =
    record (reserve_proc 1 0) { state = sleeping }
    ∷ record (reserve_proc 2 0) {
      state = running;
      chan = slot_addr 1;
      parent = some 0;
      ofile = 0 ∷ 1 ∷ [];
    }
    ∷ record (reserve_proc 3 0) {
      state = zombie;
      kstack = 0x300000;
      pgdir = 0x301000;
      parent = some 1;
    }
    ∷ blank
    ∷ []

abbrev kernel : Kernel (Kmem × List File)
kernel = record { table = family; nextpid = 4; initproc = 0; world = world }

own_pid : (j : ℕ) → InUse family j → (slot family j).pid ≡ j + 1
unfolding blank
own_pid zero u = refl
own_pid (suc zero) u = refl
own_pid (suc (suc zero)) u = refl
own_pid (suc (suc (suc zero))) u = cc
own_pid (suc (suc (suc (suc j)))) u = cc

in_family : (j : ℕ) → InUse family j → j < 3
unfolding blank
in_family zero u = omega arith
in_family (suc zero) u = omega arith
in_family (suc (suc zero)) u = omega arith
in_family (suc (suc (suc zero))) u = cc
in_family (suc (suc (suc (suc j)))) u = cc

kernel-IsPids : IsPids family 4
kernel-IsPids = record {
  below = λ j u. omega (arith, own_pid j u, in_family j u);
  distinct = λ i j u v e. omega (arith, own_pid i u, own_pid j v);
}

abbrev Served : Option ℕ × Kernel (Kmem × List File) → Type 0
Served (none, k) = Unit
Served (some i, k) = CanServe services 1 i k

kernel-CanFork : CanFork services 1 kernel
unfolding allocproc give_stack dup_files filedup kalloc blank
kernel-CanFork i k e = subst Served e ((λ z. absurd (omega (arith, z))), (λ n. tt))

fork-Forked_example : Returns (Forked services 1 kernel) (fork services 1 kernel)
fork-Forked_example = fork-Forked services 1 kernel kernel-CanFork kernel-IsPids

kernel-CanFree : CanFree services 1 kernel
unfolding kfree blank
kernel-CanFree zero lt z = cc
kernel-CanFree (suc zero) lt z = cc
kernel-CanFree (suc (suc zero)) lt z = tt
kernel-CanFree (suc (suc (suc zero))) lt z = cc
kernel-CanFree (suc (suc (suc (suc i)))) lt z = absurd (omega (arith, lt))

wait-Waited_example : Returns (Waited services 1 kernel) (wait services 1 kernel)
wait-Waited_example = wait-Waited services 1 kernel kernel-CanFree

exit_locked-Exited_example : Exited 1 0 family (exit_locked 1 0 family)
exit_locked-Exited_example = exit_locked-Exited 1 0 family (omega arith) (omega arith)
