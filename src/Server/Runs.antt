-- ===== src/Server/Runs.antt =====
-- Runs of the threads of the server, in any order: no request is lost or handled twice.
use operation_system_project.Prelude.{
  ℕ, zero, suc, ◌+◌, ◌≡◌, refl, sym, ap, ◌∙◌, Bool, List, [], ◌∷◌, Option, none, some, length,
  arith,
}
use operation_system_project.Server.{
  Request, Buffer, buffer_size, producer, consumer, clear_slots, start,
}
use operation_system_project.Server.Pending.{
  waiting, any_request, one_if, IsCounted, IsHandled, idle, handed, consumer-IsHandled, IsProduced,
  full, stored, producer-IsProduced,
}

-- A thread gets the lock: the main thread with a request, or a worker.
pub data Turn : Type 0 where
  arrive : Request → Turn
  serve : Turn

-- What has been accepted and handed to a worker so far, and the buffer.
pub record Trace : Type 0 where
  pub accepted : List Request
  pub handled : List Request
  pub buffer : Buffer

-- The effect of a round; a thread that waits changes nothing.
abbrev pub produced : Request → Trace → Option Buffer → Trace
produced r t none = t
produced r t (some b) = record t { accepted = r ∷ t.accepted; buffer = b }

abbrev pub consumed : Trace → Option (Request × Buffer) → Trace
consumed t none = t
consumed t (some (r, b)) = record t { handled = r ∷ t.handled; buffer = b }

pub turn : Turn → Trace → Trace
turn (arrive r) t = produced r t (producer r t.buffer)
turn serve t = consumed t (consumer t.buffer)

pub run : List Turn → Trace → Trace
run [] t = t
run (e ∷ es) t = run es (turn e t)

abbrev pub count_if : (Request → Bool) → List Request → ℕ
count_if p [] = 0
count_if p (r ∷ rs) = one_if (p r) + count_if p rs

-- The requests accepted are those handled and those that wait, each as often.
pub record IsConserved (n : ℕ) (t : Trace) : Type 0 where
  pub sized : buffer_size t.buffer ≡ n
  pub counted : IsCounted t.buffer
  pub same :
      (p : Request → Bool) → count_if p t.accepted ≡ count_if p t.handled + waiting p t.buffer.slots

produced-IsConserved :
    (n : ℕ) (r : Request) (t : Trace) {o : Option Buffer}
    → IsConserved n t
    → IsProduced r t.buffer o
    → IsConserved n (produced r t o)
produced-IsConserved n r t k (full e) = k
produced-IsConserved n r t k (stored b' e c w) = record {
  sized = e ∙ k.sized;
  counted = c;
  same = λ p. omega (arith, w p, k.same p);
}

consumed-IsConserved :
    (n : ℕ) (t : Trace) {o : Option (Request × Buffer)}
    → IsConserved n t
    → IsHandled t.buffer o
    → IsConserved n (consumed t o)
consumed-IsConserved n t k (idle e) = k
consumed-IsConserved n t k (handed r b' e c w) = record {
  sized = e ∙ k.sized;
  counted = c;
  same = λ p. omega (arith, w p, k.same p);
}

turn-IsConserved : (n : ℕ) (e : Turn) (t : Trace) → IsConserved n t → IsConserved n (turn e t)
unfolding turn
turn-IsConserved n (arrive r) t k =
    produced-IsConserved n r t k (producer-IsProduced r t.buffer k.counted)
turn-IsConserved n serve t k = consumed-IsConserved n t k (consumer-IsHandled t.buffer k.counted)

run_keeps : (n : ℕ) (es : List Turn) (t : Trace) → IsConserved n t → IsConserved n (run es t)
unfolding run
run_keeps n [] t k = k
run_keeps n (e ∷ es) t k = run_keeps n es (turn e t) (turn-IsConserved n e t k)

abbrev pub start_trace : ℕ → Trace
start_trace n = record { accepted = []; handled = []; buffer = start n }

waiting-clear_slots : (p : Request → Bool) (n : ℕ) → waiting p (clear_slots n) ≡ 0
unfolding clear_slots
waiting-clear_slots p zero = refl
waiting-clear_slots p (suc n) = omega (arith, waiting-clear_slots p n)

length-clear_slots : (n : ℕ) → length (clear_slots n) ≡ n
unfolding clear_slots
length-clear_slots zero = refl
length-clear_slots (suc n) = ap suc (length-clear_slots n)

-- From the empty buffer of `n` slots, whatever turns the threads take and whatever the sizes are,
-- the requests accepted are those that were handed to a worker and those that wait, each as often,
-- and `buff_count` is the number that wait. A request is its connection, the address of its line
-- and its sizes; nothing is said of what stands at that address when a worker reads it.
pub run-IsConserved : (n : ℕ) (es : List Turn) → IsConserved n (run es (start_trace n))
unfolding start
run-IsConserved n es = run_keeps n es (start_trace n) (record {
  sized = length-clear_slots n;
  counted = sym (waiting-clear_slots any_request n);
  same = λ p. omega (arith, waiting-clear_slots p n);
})
