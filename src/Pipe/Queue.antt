-- ===== src/Pipe/Queue.antt =====
-- What a pipe promises: a queue of at most 512 bytes with a read end and a write end.
use operation_system_project.Prelude.{
  ℕ, ◌-◌, Bool, true, false, not, ◌||◌, ◌&&◌, List, [], ◌∷◌, ◌++◌, length, take, drop,
  if◌then◌else◌,
}
use operation_system_project.Pipe.{
  Pipe, Chan, nread_chan, nwrite_chan, pipe_size, close, WriteStop, write, ReadStop, got, failed,
  waiting, read,
}
use operation_system_project.Pipe.Ring.{contents}
use operation_system_project.Pipe.Steps.{write_stop, woken_by}

-- The bytes, oldest first, and which ends are open.
pub record Queue : Type 0 where
  pub bytes : List ℕ
  pub readopen : Bool
  pub writeopen : Bool

-- The calls that processes make; the flag of the first two says that the process is killed.
pub data Op : Type 0 where
  write_op : Bool → List ℕ → Op
  read_op : Bool → ℕ → Op
  close_op : Bool → Op

-- What a call shows: how it stops or whether the pipe is freed, and the channels it wakes.
pub data Reply : Type 0 where
  written : WriteStop → List Chan → Reply
  was_read : ReadStop → List Chan → Reply
  closed : Bool → Chan → Reply

unfoldable pub q_write : Bool → Queue → List ℕ → Reply × Queue
q_write killed q src =
    let r = pipe_size - length q.bytes in
    let stop = write_stop (not q.readopen || killed) r src in
    (written stop (woken_by stop), record q { bytes = q.bytes ++ take r src })

abbrev pub q_is_empty : List ℕ → Bool
q_is_empty [] = true
q_is_empty (x ∷ xs) = false

unfoldable pub q_read : Bool → Queue → ℕ → Reply × Queue
q_read killed q n =
    if q_is_empty q.bytes && q.writeopen
    then (was_read (if killed then failed else waiting) [], q)
    else (was_read (got (take n q.bytes)) (nwrite_chan ∷ []), record q { bytes = drop n q.bytes })

unfoldable pub q_close : Bool → Queue → Bool × Chan × Queue
q_close writable q =
    let q' = if writable then record q { writeopen = false } else record q { readopen = false } in
    (not q'.readopen && not q'.writeopen, if writable then nread_chan else nwrite_chan, q')

-- A sequence of calls up to the one that frees the pipe, with what each shows.
unfoldable pub q_run : Queue → List Op → List Reply
q_run q [] = []
q_run q (write_op killed src ∷ ops) = let (r, q') = q_write killed q src in r ∷ q_run q' ops
q_run q (read_op killed n ∷ ops) = let (r, q') = q_read killed q n in r ∷ q_run q' ops
q_run q (close_op w ∷ ops) =
    let (gone, c, q') = q_close w q in
    let rest = q_run q' ops in closed gone c ∷ (if gone then [] else rest)

-- The same calls on the pipe of the source.
unfoldable pub run : Pipe → List Op → List Reply
run p [] = []
run p (write_op killed src ∷ ops) =
    let (stop, wakes, p') = write killed p src in written stop wakes ∷ run p' ops
run p (read_op killed n ∷ ops) =
    let (stop, wakes, p') = read killed p n in was_read stop wakes ∷ run p' ops
run p (close_op w ∷ ops) =
    let (p', gone, c) = close p w in
    let rest = run p' ops in closed gone c ∷ (if gone then [] else rest)

abbrev pub view : Pipe → Queue
view p = record { bytes = contents p; readopen = p.readopen; writeopen = p.writeopen }
