-- ===== src/Files.antt =====
-- The table of open files, kernel/file.c of "triple file system". A file is named by its index in
-- the table; the pipe and the inode of a file are named by numbers.
pub mod Count
mod Tests
use operation_system_project.Prelude.{
  ℕ, zero, suc, ◌+◌, ◌-◌, Bool, true, false, List, [], ◌∷◌, Option, none, some, get_or, modify, ltb,
  ◌==◌, if◌then◌else◌, Result, ok, panic,
}

-- FD_NONE, FD_PIPE and FD_INODE.
pub data FileKind : Type 0 where
  fd_none : FileKind
  fd_pipe : FileKind
  fd_inode : FileKind

pub record File : Type 0 where
  pub kind : FileKind
  pub ref : ℕ
  pub readable : Bool
  pub writable : Bool
  pub pipe : ℕ
  pub ip : ℕ
  pub off : ℕ

-- A file of the table before its first use.
abbrev pub blank_file : File
blank_file = record {
  kind = fd_none;
  ref = 0;
  readable = false;
  writable = false;
  pipe = 0;
  ip = 0;
  off = 0;
}

abbrev pub file : List File → ℕ → File
file t i = get_or t i blank_file

-- The first file from index `i` on with no reference.
unfoldable pub find_free : List File → ℕ → Option ℕ
find_free [] i = none
find_free (f ∷ t) i = let rest = find_free t (i + 1) in if f.ref == 0 then some i else rest

abbrev pub set_ref : ℕ → File → File
set_ref n f = record f { ref = n }

-- `none` stands for the null pointer.
unfoldable pub alloc_found : List File → Option ℕ → Option ℕ × List File
alloc_found t none = (none, t)
alloc_found t (some i) = (some i, modify t i (set_ref 1))

unfoldable pub filealloc : List File → Option ℕ × List File
unfolding alloc_found find_free
filealloc t = alloc_found t (find_free t 0)

unfoldable pub filedup : List File → ℕ → Result (List File)
filedup t i = if ltb (file t i).ref 1 then panic else ok (modify t i (set_ref ((file t i).ref + 1)))

-- The call that `fileclose` ends with.
pub data Closing : Type 0 where
  no_call : Closing
  pipeclose : (pipe : ℕ) (writable : Bool) → Closing
  iput : (ip : ℕ) → Closing

unfoldable pub closing : File → Closing
closing f = elim f.kind [
  | fd_none ↦ no_call
  | fd_pipe ↦ pipeclose f.pipe f.writable
  | fd_inode ↦ iput f.ip
]

abbrev pub clear_file : File → File
clear_file f = record f { ref = 0; kind = fd_none }

unfoldable pub fileclose : List File → ℕ → Result (List File × Closing)
fileclose t i =
    if ltb (file t i).ref 1
    then panic
    else (if ltb 0 ((file t i).ref - 1)
        then ok (modify t i (set_ref ((file t i).ref - 1)), no_call)
        else ok (modify t i clear_file, closing (file t i)))
