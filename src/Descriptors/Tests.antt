-- ===== src/Descriptors/Tests.antt =====
-- Runs of calls on descriptors.
use operation_system_project.Prelude.{
  zero, suc, ◌≡◌, refl, true, List, [], ◌∷◌, none, some, map, Result, ok, panic, Returns, arith,
}
use operation_system_project.Files.{fd_inode, blank_file}
use operation_system_project.Descriptors.{
  Open, Answer, Value, failed, returned, pipe_ends, Call, dup, close, pipe, run,
}
use operation_system_project.Descriptors.Calls.{IsOwned, run-IsOwned}

-- A process with room for four descriptors, the first of which names a file that another process
-- has open too, and a table of three files.
abbrev one_open : Open
one_open = record {
  ofile = some 0 ∷ none ∷ none ∷ none ∷ [];
  files = record (blank_file) { kind = fd_inode; ref = 2; ip = 5 } ∷ blank_file ∷ blank_file ∷ [];
}

one_open-IsOwned : IsOwned (0 ∷ []) one_open
one_open-IsOwned zero = refl
one_open-IsOwned (suc zero) = refl
one_open-IsOwned (suc (suc zero)) = refl
one_open-IsOwned (suc (suc (suc i))) = ground arith

-- The second `sys_pipe` finds no file left, and the last `sys_dup` no descriptor.
abbrev calls : List Call
calls =
    pipe true 4096
    ∷ pipe true 8192
    ∷ dup (some 1)
    ∷ dup (some 2)
    ∷ close (some 0)
    ∷ close (some 0)
    ∷ []

values : Result (List Answer × Open) → List Value
values (ok (answers, s)) = map (λ a. a.value) answers
values panic = []

calls_return :
    values (run calls one_open)
    ≡ pipe_ends 1 2 ∷ failed ∷ returned 3 ∷ failed ∷ returned 0 ∷ failed ∷ []
unfolding run values
calls_return = refl

run-IsOwned_example : Returns (λ r. IsOwned (0 ∷ []) r.1) (run calls one_open)
run-IsOwned_example = run-IsOwned (0 ∷ []) calls one_open one_open-IsOwned
