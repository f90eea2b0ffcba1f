-- ===== src/Str/Tests.antt =====
-- A block moved by one byte onto itself.
use operation_system_project.Str.Move.{Memory, memmove, IsMoved, memmove-IsMoved}

abbrev counting : Memory
counting a = a

memmove-IsMoved_example : IsMoved counting (memmove counting 11 10 4) 11 10 4
memmove-IsMoved_example = memmove-IsMoved counting 11 10 4
