-- ===== src/Files/Tests.antt =====
-- A table of two files, a pipe's end with two references and a free one.
use operation_system_project.Prelude.{arith, zero, suc, refl, List, [], ◌∷◌, true, Returns}
use operation_system_project.Files.{File, fd_pipe, blank_file, fileclose}
use operation_system_project.Files.Count.{IsCounted, IsClosed, fileclose-IsClosed}

abbrev two_files : List File
two_files =
    record (blank_file) { kind = fd_pipe; ref = 2; pipe = 8; writable = true } ∷ blank_file ∷ []

two_files-IsCounted : IsCounted two_files (0 ∷ 0 ∷ [])
two_files-IsCounted zero = refl
two_files-IsCounted (suc zero) = refl
two_files-IsCounted (suc (suc i)) = ground arith

fileclose-IsClosed_example : Returns (IsClosed two_files (0 ∷ []) 0) (fileclose two_files 0)
fileclose-IsClosed_example = fileclose-IsClosed two_files (0 ∷ []) 0 two_files-IsCounted
