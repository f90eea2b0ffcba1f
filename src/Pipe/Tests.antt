-- ===== src/Pipe/Tests.antt =====
-- Pipes at concrete states: runs of the code, one across the wrap of the counters, and the theorems there.
use operation_system_project.Prelude.{
  ℕ, ◌≡◌, refl, true, false, List, [], ◌∷◌, ◌^◌, ◌-◌, replicate, arith,
}
use operation_system_project.Pipe.{
  Pipe, nread_chan, nwrite_chan, finished, got, close, put, write, skip, copy, read,
}
use operation_system_project.Pipe.Inv.{IsValid}
use operation_system_project.Pipe.Steps.{Written, write-Written}
use operation_system_project.Pipe.Reading.{IsRead, read-IsRead}
use operation_system_project.Pipe.Queue.{
  Op, write_op, read_op, close_op, written, was_read, closed, q_run, run, view,
}
use operation_system_project.Pipe.Refine.{run_refines}

abbrev page : List ℕ
page = replicate 512 0

-- An empty pipe one byte before both counters wrap.
abbrev wrapping : Pipe
wrapping = record {
  buf = page;
  nread = 2 ^ 32 - 1;
  nwrite = 2 ^ 32 - 1;
  readopen = true;
  writeopen = true;
}

wrapping-IsValid : IsValid wrapping
wrapping-IsValid = omega arith

abbrev script : List Op
script = write_op false (7 ∷ 8 ∷ 9 ∷ []) ∷ read_op false 2 ∷ read_op false 5 ∷ close_op true ∷ []

run-wrapping :
    run wrapping script
    ≡ written finished (nread_chan ∷ [])
      ∷ was_read (got (7 ∷ 8 ∷ [])) (nwrite_chan ∷ [])
      ∷ was_read (got (9 ∷ [])) (nwrite_chan ∷ [])
      ∷ closed false nread_chan
      ∷ []
unfolding run write put read copy skip close
run-wrapping = refl

run_refines_example : run wrapping script ≡ q_run (view wrapping) script
run_refines_example = run_refines script wrapping-IsValid

write-Written_example : Written false wrapping (7 ∷ 8 ∷ []) (write false wrapping (7 ∷ 8 ∷ []))
write-Written_example = write-Written false (7 ∷ 8 ∷ []) wrapping-IsValid

read-IsRead_example : IsRead true wrapping 3 (read true wrapping 3)
read-IsRead_example = read-IsRead true 3 wrapping-IsValid
