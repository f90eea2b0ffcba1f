-- ===== src/Server/Tests.antt =====
-- Runs of the server's buffer and of the reading of a URI.
use operation_system_project.Prelude.{ℕ, refl, List, [], ◌∷◌}
use operation_system_project.Prelude.Int.{pos}
use operation_system_project.Server.{Request, Buffer, start, consumer, put, put_slots, has_room}
use operation_system_project.Server.Pending.{IsCounted, IsConsumed, consumer-IsConsumed}
use operation_system_project.Server.Runs.{
  Turn, arrive, serve, run, start_trace, IsConserved, run-IsConserved,
}

abbrev request : ℕ → ℕ → Request
request fd size = record { fd = fd; line = fd; file_size = pos size; filename_size = 9 }

-- Two requests, the larger file first.
abbrev two_requests : Buffer
two_requests = put (request 5 20) (put (request 4 90) (start 3))

two_requests-IsCounted : IsCounted two_requests
unfolding put put_slots has_room start
two_requests-IsCounted = refl

consumer-IsConsumed_example : IsConsumed two_requests (consumer two_requests)
unfolding put put_slots has_room start
consumer-IsConsumed_example =
    consumer-IsConsumed two_requests two_requests-IsCounted
      ((λ e. cc), ((λ e. cc), ((λ e. cc), tt)))

abbrev turns : List Turn
turns = arrive (request 4 90) ∷ arrive (request 5 20) ∷ serve ∷ arrive (request 6 7) ∷ serve ∷ []

run-IsConserved_example : IsConserved 2 (run turns (start_trace 2))
run-IsConserved_example = run-IsConserved 2 turns
