-- ===== src/Pipe.antt =====
-- Pipes, kernel/pipe.c of "triple file system": a ring of 512 bytes with two 32-bit counters that
-- wrap. The routines run under the pipe's lock up to a `sleep`, so each is one step: a result that
-- says `waiting` is the state in which the process sleeps, and the call is made again from there
-- with the bytes that are left when a `wakeup` comes. Each step gives the channels that it wakes.
pub mod Inv
pub mod Ring
pub mod Queue
pub mod Refine
pub mod Steps
mod Tests
pub mod Reading
use operation_system_project.Prelude.{
  ℕ, zero, suc, ◌+◌, ◌-◌, ◌%◌, ◌^◌, Bool, true, false, not, ◌||◌, ◌&&◌, List, [], ◌∷◌, get_or, set,
  ◌==◌, if◌then◌else◌,
}

-- PIPESIZE
abbrev pub pipe_size : ℕ
pipe_size = 512

-- `struct pipe` without its lock.
pub record Pipe : Type 0 where
  pub buf : List ℕ
  pub nread : ℕ
  pub nwrite : ℕ
  pub readopen : Bool
  pub writeopen : Bool

-- `&p->nread` and `&p->nwrite` as sleep channels.
pub data Chan : Type 0 where
  nread_chan nwrite_chan : Chan

-- Arithmetic on `uint`.
abbrev pub add32 : ℕ → ℕ → ℕ
add32 a b = (a + b) % 2 ^ 32

-- The fields that `pipealloc` sets; the page comes from `kalloc` with any contents.
unfoldable pub init : List ℕ → Pipe
init page = record { buf = page; nread = 0; nwrite = 0; readopen = true; writeopen = true }

-- The pipe after `pipeclose`, whether its page goes back to `kfree`, and the channel woken.
unfoldable pub close : Pipe → Bool → Pipe × Bool × Chan
close p writable =
    let p' = if writable then record p { writeopen = false } else record p { readopen = false } in
    (p', not p'.readopen && not p'.writeopen, if writable then nread_chan else nwrite_chan)

-- How a step of `pipewrite` ends: it returns n or -1, or sleeps with bytes left to write.
pub data WriteStop : Type 0 where
  finished : WriteStop
  failed : WriteStop
  waiting : List ℕ → WriteStop

abbrev pub full : Pipe → Bool
full p = p.nwrite == add32 p.nread pipe_size

-- `p->data[p->nwrite++ % PIPESIZE] = b`
unfoldable pub put : Pipe → ℕ → Pipe
put p b = record p { buf = set p.buf (p.nwrite % pipe_size) b; nwrite = add32 p.nwrite 1 }

unfoldable pub write : Bool → Pipe → List ℕ → WriteStop × List Chan × Pipe
write killed p [] = (finished, nread_chan ∷ [], p)
write killed p (b ∷ bs) =
    let rest = write killed (put p b) bs in
    if full p
    then (if not p.readopen || killed
        then (failed, [], p)
        else (waiting (b ∷ bs), nread_chan ∷ [], p))
    else rest

-- How a step of `piperead` ends: it returns the bytes copied or -1, or sleeps.
pub data ReadStop : Type 0 where
  got : List ℕ → ReadStop
  failed : ReadStop
  waiting : ReadStop

abbrev pub is_empty : Pipe → Bool
is_empty p = p.nread == p.nwrite

-- `p->nread++`
unfoldable pub skip : Pipe → Pipe
skip p = record p { nread = add32 p.nread 1 }

-- The copying loop, with the rounds left: the bytes stored in `addr`.
unfoldable pub copy : ℕ → Pipe → List ℕ × Pipe
copy zero p = ([], p)
copy (suc n) p =
    let rest = copy n (skip p) in
    if is_empty p then ([], p) else (get_or p.buf (p.nread % pipe_size) 0 ∷ rest.0, rest.1)

unfoldable pub read : Bool → Pipe → ℕ → ReadStop × List Chan × Pipe
read killed p n =
    if is_empty p && p.writeopen
    then (if killed then (failed, [], p) else (waiting, [], p))
    else (let (bytes, p') = copy n p in (got bytes, nwrite_chan ∷ [], p'))
