-- ===== src/Pipe/Inv.antt =====
-- The representation invariant of a pipe: the counters stay within one ring of each other, across
-- their wrap at 2^32.
use operation_system_project.Prelude.{
  ℕ, ◌+◌, ◌-◌, ◌%◌, ◌^◌, ◌≤◌, ◌<◌, ◌≡◌, true, false, List, length, length-set, arith,
}
use operation_system_project.Pipe.{Pipe, pipe_size, init, full, put, is_empty, skip}

-- `p->nwrite - p->nread` in `uint` arithmetic: the bytes in the pipe.
abbrev pub used : Pipe → ℕ
used p = (p.nwrite + 2 ^ 32 - p.nread) % 2 ^ 32

pub record IsValid (p : Pipe) : Type 0 where
  pub storage : length p.buf ≡ pipe_size
  pub nread_in : p.nread < 2 ^ 32
  pub nwrite_in : p.nwrite < 2 ^ 32
  pub within : used p ≤ pipe_size

pub init-IsValid : (page : List ℕ) → length page ≡ pipe_size → IsValid (init page)
unfolding init
init-IsValid page h = ground arith

-- The test for a full pipe of `pipewrite`, which compares wrapped counters, is exact.
pub used-full : {p : Pipe} → IsValid p → full p ≡ true → used p ≡ pipe_size
used-full v h = ground arith

pub used-not_full : {p : Pipe} → IsValid p → full p ≡ false → used p < pipe_size
used-not_full v h = ground arith

pub used-is_empty : {p : Pipe} → IsValid p → is_empty p ≡ true → used p ≡ 0
used-is_empty v h = ground arith

pub used-not_empty : {p : Pipe} → IsValid p → is_empty p ≡ false → 0 < used p
used-not_empty v h = ground arith

pub put-IsValid : {p : Pipe} (b : ℕ) → IsValid p → full p ≡ false → IsValid (put p b)
unfolding put
put-IsValid {p} b v h = ground (arith, length-set p.buf (p.nwrite % pipe_size) b)

pub used-put : {p : Pipe} (b : ℕ) → IsValid p → full p ≡ false → used (put p b) ≡ used p + 1
unfolding put
used-put b v h = ground arith

pub skip-IsValid : {p : Pipe} → IsValid p → is_empty p ≡ false → IsValid (skip p)
unfolding skip
skip-IsValid v h = ground arith

pub used-skip : {p : Pipe} → IsValid p → is_empty p ≡ false → used p ≡ used (skip p) + 1
unfolding skip
used-skip v h = ground arith
