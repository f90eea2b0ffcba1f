-- ===== src/Pipe/Refine.antt =====
-- A valid pipe refines the bounded queue of its bytes.
use operation_system_project.Prelude.{
  ℕ, zero, suc, ◌-◌, ◌≡◌, refl, sym, ap, ◌∙◌, Bool, true, false, ◌&&◌, List, [], ◌∷◌, ◌++◌, length,
  take, drop, if◌then◌else◌, Bool-cases, inl, inr,
}
use mathlib.Core.Path.{ap₂}
use operation_system_project.Pipe.{
  Pipe, add32, got, failed, waiting, nwrite_chan, close, write, read, is_empty,
}
use operation_system_project.Pipe.Inv.{used, IsValid, used-is_empty, used-not_empty}
use operation_system_project.Pipe.Ring.{window, contents, window_pos}
use operation_system_project.Pipe.Steps.{
  room, write_stop, woken_by, is_broken, Written, write-Written,
}
use operation_system_project.Pipe.Reading.{must_wait, IsRead, read-IsRead}
use operation_system_project.Pipe.Queue.{
  Queue, Op, write_op, read_op, close_op, Reply, written, was_read, q_write, q_is_empty, q_read,
  q_close, q_run, run, view,
}

length-window : (buf : List ℕ) (h n : ℕ) → length (window buf h n) ≡ n
length-window buf h zero = refl
length-window buf h (suc n) = ap suc (length-window buf (add32 h 1) n)

-- The wrapped counters are equal exactly when no byte is in the pipe.
q_is_empty-contents : {p : Pipe} → IsValid p → q_is_empty (contents p) ≡ is_empty p
q_is_empty-contents {p} v = elim (Bool-cases (is_empty p)) [
  | inl h ↦ ap (λ n. q_is_empty (window p.buf p.nread n)) {y = 0} (used-is_empty v h) ∙ sym h
  | inr h ↦ ap q_is_empty (window_pos p.buf p.nread (used p) (used-not_empty v h)) ∙ sym h
]

room-length : (p : Pipe) → 512 - length (contents p) ≡ room p
room-length p = ap (λ n. 512 - n) (length-window p.buf p.nread (used p))

q_write-view :
    (killed : Bool) {p : Pipe} (src : List ℕ)
    → IsValid p
    → q_write killed (view p) src
      ≡ (written (write killed p src).0 (write killed p src).1, view (write killed p src).2)
unfolding q_write
q_write-view killed {p} src v =
    ap
      (λ r. (
        written (write_stop (is_broken killed p) r src)
            (woken_by (write_stop (is_broken killed p) r src)),
        record (view p) { bytes = contents p ++ take r src },
      ))
      (room-length p)
    ∙ λ i. (
      written (sym w.stop i) ((ap woken_by (sym w.stop) ∙ sym w.wakes) i),
      record { bytes = sym w.bytes i; readopen = sym w.ends.0 i; writeopen = sym w.ends.1 i },
    )
  where
    w : Written killed p src (write killed p src)
    w = write-Written killed src v

-- `q_read` by its test, and the same with the test drawn into the parts of the reply.
abbrev read_by_test : Queue → Bool → ℕ → Bool → Reply × Queue
read_by_test q killed n test =
    if test
    then (was_read (if killed then failed else waiting) [], q)
    else (was_read (got (take n q.bytes)) (nwrite_chan ∷ []), record q { bytes = drop n q.bytes })

abbrev read_by_parts : Queue → Bool → ℕ → Bool → Reply × Queue
read_by_parts q killed n test = (
  was_read (if test then (if killed then failed else waiting) else got (take n q.bytes))
      (if test then [] else nwrite_chan ∷ []),
  record q { bytes = if test then q.bytes else drop n q.bytes },
)

read_by_parts_lem :
    (q : Queue) (killed : Bool) (n : ℕ) (test : Bool)
    → read_by_test q killed n test ≡ read_by_parts q killed n test
read_by_parts_lem q killed n true = refl
read_by_parts_lem q killed n false = refl

q_read-view :
    (killed : Bool) {p : Pipe} (n : ℕ)
    → IsValid p
    → q_read killed (view p) n
      ≡ (was_read (read killed p n).0 (read killed p n).1, view (read killed p n).2)
unfolding q_read
q_read-view killed {p} n v =
    ap (λ e. read_by_test (view p) killed n (e && p.writeopen)) (q_is_empty-contents v)
    ∙ (read_by_parts_lem (view p) killed n (must_wait p) ∙ λ i. (
      was_read (sym w.stop i) (sym w.wakes i),
      record { bytes = sym w.bytes i; readopen = sym w.ends.0 i; writeopen = sym w.ends.1 i },
    ))
  where
    w : IsRead killed p n (read killed p n)
    w = read-IsRead killed n v

close-IsValid : {p : Pipe} (w : Bool) → IsValid p → IsValid (close p w).0
unfolding close
close-IsValid true v = record {
  storage = v.storage;
  nread_in = v.nread_in;
  nwrite_in = v.nwrite_in;
  within = v.within;
}
close-IsValid false v = record {
  storage = v.storage;
  nread_in = v.nread_in;
  nwrite_in = v.nwrite_in;
  within = v.within;
}

q_close-view :
    (p : Pipe) (w : Bool) → q_close w (view p) ≡ ((close p w).1, (close p w).2, view (close p w).0)
unfolding q_close close
q_close-view p true = refl
q_close-view p false = refl

-- No sequence of writes, reads and closes, killed callers and sleeps included, tells a valid pipe
-- from the bounded queue of its bytes: each call stops, returns and wakes in the same way.
pub run_refines : (ops : List Op) {p : Pipe} → IsValid p → run p ops ≡ q_run (view p) ops
unfolding run q_run
run_refines [] v = refl
run_refines (write_op killed src ∷ ops) {p} v =
    rw (q_write-view killed src v)
      (ap₂ ◌∷◌ refl (run_refines ops (write-Written killed src v).valid))
run_refines (read_op killed n ∷ ops) {p} v =
    rw (q_read-view killed n v) (ap₂ ◌∷◌ refl (run_refines ops (read-IsRead killed n v).valid))
run_refines (close_op w ∷ ops) {p} v = rw (q_close-view p w, run_refines ops (close-IsValid w v))
