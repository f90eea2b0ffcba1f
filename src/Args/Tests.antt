-- ===== src/Args/Tests.antt =====
-- A process with three pages of heap and two of stack, whose first argument is a pointer.
use operation_system_project.Prelude.{◌≡◌, refl, ◌==◌, if◌then◌else◌, some, arith}
use operation_system_project.Args.{User, argptr}
use operation_system_project.Args.Bounds.{IsUserBlock, argptr-IsUserBlock}

-- The argument at 0x9F004 is 0x1200.
abbrev caller : User
caller = record {
  sz = 0x4000;
  sz2 = 0x9E000;
  esp = 0x9F000;
  byte = λ a. if a == 0x9F005 then 0x12 else 0;
}

argptr-caller : argptr caller 0 64 ≡ some 0x1200
unfolding argptr
argptr-caller = refl

argptr-IsUserBlock_example : IsUserBlock caller 0x1200 64
argptr-IsUserBlock_example = argptr-IsUserBlock caller 0 64 (omega arith) argptr-caller
