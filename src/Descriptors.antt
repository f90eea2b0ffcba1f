-- ===== src/Descriptors.antt =====
-- The file descriptors of a process: argfd, fdalloc, sys_dup, sys_close and sys_pipe of kernel/sysfile.c and
-- pipealloc of kernel/pipe.c, "triple file system", on the table of open files of Files.
pub mod Held
pub mod Ends
pub mod Calls
mod Tests
use operation_system_project.Prelude.{
  ℕ, zero, suc, ◌+◌, ◌^◌, Bool, true, false, not, ◌||◌, List, [], ◌∷◌, ◌++◌, Option, none, some,
  set, get_or, modify, leb, ◌==◌, if◌then◌else◌, Result, ok, panic, ◌>>=◌,
}
use operation_system_project.Files.{File, fd_pipe, filealloc, filedup, fileclose, Closing}

-- NOFILE of param.h.
abbrev pub open_max : ℕ
open_max = 16

-- `proc->ofile`, where `none` stands for 0, and the table of open files.
pub record Open : Type 0 where
  pub ofile : List (Option ℕ)
  pub files : List File

-- What a call returns; `pipe_ends` is 0, with the descriptors that are stored for the caller.
pub data Value : Type 0 where
  failed : Value
  returned : ℕ → Value
  pipe_ends : (fd0 fd1 : ℕ) → Value

-- With the calls that the closing of files ends with.
pub record Answer : Type 0 where
  pub value : Value
  pub closings : List Closing
  pub state : Open

abbrev pub refused : Open → Answer
refused s = record { value = failed; closings = []; state = s }

abbrev pub named_file : (fd : ℕ) → Option ℕ → Option (ℕ × ℕ)
named_file fd none = none
named_file fd (some f) = some (fd, f)

-- The argument is what `argint` fetches, the 32 bits of an `int`.
unfoldable pub argfd : (arg : Option ℕ) → (ofile : List (Option ℕ)) → Option (ℕ × ℕ)
argfd none ofile = none
argfd (some fd) ofile =
    if leb (2 ^ 31) fd || leb open_max fd then none else named_file fd (get_or ofile fd none)

-- The loop of `fdalloc`.
unfoldable pub free_fd : (ofile : List (Option ℕ)) → (fd : ℕ) → Option ℕ
free_fd [] fd = none
free_fd (none ∷ ofile) fd = some fd
free_fd (some f ∷ ofile) fd = free_fd ofile (fd + 1)

abbrev pub put_fd : (f : ℕ) → (ofile : List (Option ℕ)) → Option ℕ → Option ℕ × List (Option ℕ)
put_fd f ofile none = (none, ofile)
put_fd f ofile (some fd) = (some fd, set ofile fd (some f))

unfoldable pub fdalloc : (f : ℕ) → (ofile : List (Option ℕ)) → Option ℕ × List (Option ℕ)
unfolding free_fd
fdalloc f ofile = put_fd f ofile (free_fd ofile 0)

-- `sys_dup` past its `fdalloc`, and past its `argfd`.
unfoldable pub dup_at : Open → (f : ℕ) → Option ℕ × List (Option ℕ) → Result Answer
unfolding filedup
dup_at s f (none, ofile) = ok (refused s)
dup_at s f (some fd, ofile) = filedup s.files f >>= λ t.
    ok (record { value = returned fd; closings = []; state = record { ofile = ofile; files = t } })

unfoldable pub dup_named : Open → Option (ℕ × ℕ) → Result Answer
unfolding dup_at fdalloc
dup_named s none = ok (refused s)
dup_named s (some (fd, f)) = dup_at s f (fdalloc f s.ofile)

unfoldable pub sys_dup : (arg : Option ℕ) → Open → Result Answer
unfolding dup_named argfd
sys_dup arg s = dup_named s (argfd arg s.ofile)

unfoldable pub close_named : Open → Option (ℕ × ℕ) → Result Answer
unfolding fileclose
close_named s none = ok (refused s)
close_named s (some (fd, f)) = fileclose s.files f >>= λ r. ok (record {
  value = returned 0;
  closings = r.1 ∷ [];
  state = record { ofile = set s.ofile fd none; files = r.0 };
})

unfoldable pub sys_close : (arg : Option ℕ) → Open → Result Answer
unfolding close_named argfd
sys_close arg s = close_named s (argfd arg s.ofile)

-- Both ends of a pipe, or -1, with the calls that the closing of files ends with.
abbrev pub Ends : Type 0
Ends = Option (ℕ × ℕ) × (List Closing × List File)

-- `fileclose(f); fileclose(g)`
unfoldable pub close_both : (f g : ℕ) → List File → Result (List Closing × List File)
unfolding fileclose
close_both f g t = fileclose t f >>= λ r. fileclose r.0 g >>= λ q. ok (r.1 ∷ q.1 ∷ [], q.0)

abbrev pub pipe_end : (page : ℕ) → (writable : Bool) → File → File
pipe_end page w f = record f { kind = fd_pipe; readable = not w; writable = w; pipe = page }

-- `pipealloc` past its `kalloc`, whose result is `page`, past its second `filealloc` and its first.
unfoldable pub set_ends : (page f0 f1 : ℕ) → List File → Result Ends
unfolding close_both
set_ends page f0 f1 t =
    if page == 0
    then (close_both f0 f1 t >>= λ r. ok (none, r))
    else ok
        (some (f0, f1), ([], modify (modify t f0 (pipe_end page false)) f1 (pipe_end page true)))

unfoldable pub second_end : (page f0 : ℕ) → Option ℕ × List File → Result Ends
unfolding set_ends fileclose
second_end page f0 (none, t) = fileclose t f0 >>= λ r. ok (none, (r.1 ∷ [], r.0))
second_end page f0 (some f1, t) = set_ends page f0 f1 t

unfoldable pub first_end : (page : ℕ) → Option ℕ × List File → Result Ends
unfolding second_end filealloc
first_end page (none, t) = ok (none, ([], t))
first_end page (some f0, t) = second_end page f0 (filealloc t)

unfoldable pub pipealloc : (page : ℕ) → List File → Result Ends
unfolding first_end filealloc
pipealloc page t = first_end page (filealloc t)

-- The failure of `sys_pipe`, with the descriptors as they are then.
unfoldable pub drop_ends : (rf wf : ℕ) → (ofile : List (Option ℕ)) → List File → Result Answer
unfolding close_both
drop_ends rf wf ofile t = close_both rf wf t >>= λ r.
    ok (record { value = failed; closings = r.0; state = record { ofile = ofile; files = r.1 } })

-- `sys_pipe` past its second `fdalloc`, its first, and its `pipealloc`.
unfoldable pub second_fd : (rf wf fd0 : ℕ) → List File → Option ℕ × List (Option ℕ) → Result Answer
unfolding drop_ends
second_fd rf wf fd0 t (none, ofile) = drop_ends rf wf (set ofile fd0 none) t
second_fd rf wf fd0 t (some fd1, ofile) = ok (record {
  value = pipe_ends fd0 fd1;
  closings = [];
  state = record { ofile = ofile; files = t };
})

unfoldable pub first_fd : (rf wf : ℕ) → List File → Option ℕ × List (Option ℕ) → Result Answer
unfolding second_fd fdalloc
first_fd rf wf t (none, ofile) = drop_ends rf wf ofile t
first_fd rf wf t (some fd0, ofile) = second_fd rf wf fd0 t (fdalloc wf ofile)

unfoldable pub pipe_fds : Open → Ends → Result Answer
unfolding first_fd
pipe_fds s (none, (cs, t)) =
    ok (record { value = failed; closings = cs; state = record s { files = t } })
pipe_fds s (some (rf, wf), (cs, t)) = first_fd rf wf t (fdalloc rf s.ofile)

-- `good_ptr` says whether `argptr` accepts the argument.
unfoldable pub sys_pipe : (good_ptr : Bool) → (page : ℕ) → Open → Result Answer
unfolding pipealloc pipe_fds
sys_pipe good_ptr page s =
    if good_ptr then pipealloc page s.files >>= pipe_fds s else ok (refused s)

-- A call, with its argument and, for `sys_pipe`, the page that `kalloc` has for it.
pub data Call : Type 0 where
  dup : (arg : Option ℕ) → Call
  close : (arg : Option ℕ) → Call
  pipe : (good_ptr : Bool) (page : ℕ) → Call

unfoldable pub call : Call → Open → Result Answer
unfolding sys_dup sys_close sys_pipe
call (dup arg) s = sys_dup arg s
call (close arg) s = sys_close arg s
call (pipe good_ptr page) s = sys_pipe good_ptr page s

-- The calls one after the other, with what each returns.
unfoldable pub run : List Call → Open → Result (List Answer × Open)
unfolding call
run [] s = ok ([], s)
run (c ∷ cs) s = call c s >>= λ a. run cs a.state >>= λ r. ok (a ∷ r.0, r.1)
