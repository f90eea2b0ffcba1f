-- ===== src/Proc.antt =====
-- The process table of kernel/proc.c and kernel/proc.h of "simple shell/xv6", the kernel with the
-- lottery scheduler, and what its routines share.
pub mod Life
pub mod Reserve
pub mod Sched
mod Tests
use mathlib.Core.Bool.{Bool, true, false, ◌&&◌}
use mathlib.Core.Option.{Option, none, some}
use operation_system_project.Prelude.{ℕ, zero, suc, List, get_or, replicate, ◌==◌}
use operation_system_project.Prelude.Int.{ℤ, pos}

-- `enum procstate`
pub data ProcState : Type 0 where
  unused embryo sleeping runnable running zombie : ProcState

abbrev pub state_eq : ProcState → ProcState → Bool
state_eq unused unused = true
state_eq embryo embryo = true
state_eq sleeping sleeping = true
state_eq runnable runnable = true
state_eq running running = true
state_eq zombie zombie = true
state_eq _ _ = false

-- A sleep channel is an address: the null pointer, that of a slot of the table, or another.
pub data Chan : Type 0 where
  null : Chan
  slot_addr : ℕ → Chan
  addr : ℕ → Chan

abbrev pub chan_eq : Chan → Chan → Bool
chan_eq null null = true
chan_eq (slot_addr i) (slot_addr j) = i == j
chan_eq (addr a) (addr b) = a == b
chan_eq _ _ = false

-- `struct proc`, less the trap frame, the saved context and the name. Pointers to other structures
-- are numbers with 0 for null, and `parent` is the index of a slot. `rpercent` is never negative,
-- as only `sys_reserve` and `sys_spot` set it.
pub record Proc : Type 0 where
  pub sz : ℕ
  pub pgdir : ℕ
  pub kstack : ℕ
  pub state : ProcState
  pub rpercent : ℕ
  pub spotbid : ℤ
  pub charge : ℤ
  pub tcharge : ℕ
  pub numofused : ℕ
  pub runningtime : ℕ
  pub pid : ℕ
  pub parent : Option ℕ
  pub chan : Chan
  pub killed : Bool
  pub ofile : List ℕ
  pub cwd : ℕ

-- A slot, with its NOFILE (16) file descriptors, of the zeroed table that the kernel starts with.
unfoldable pub blank : Proc
blank = record {
  sz = 0;
  pgdir = 0;
  kstack = 0;
  state = unused;
  rpercent = 0;
  spotbid = pos 0;
  charge = pos 0;
  tcharge = 0;
  numofused = 0;
  runningtime = 0;
  pid = 0;
  parent = none;
  chan = null;
  killed = false;
  ofile = replicate 16 0;
  cwd = 0;
}

-- NPROC of param.h.
abbrev pub nproc : ℕ
nproc = 64

abbrev pub Table : Type 0
Table = List Proc

abbrev pub slot : Table → ℕ → Proc
slot t i = get_or t i blank

abbrev pub is_runnable : Proc → Bool
is_runnable p = state_eq p.state runnable
