-- ===== src/Lib.antt =====
-- The operating-system projects of this repository: four versions of the xv6 kernel, each with the
-- changes of one project, a shell, and a web server. The kernels share most of their files; a
-- routine is modelled from the version that the project is about. Paths below are from the
-- repository's root.
--
-- Parts and files:
-- - Prelude: shared names, tests on numbers, lists with native indices, signed integers, and
--   Result, whose `panic` is the kernel's panic().
-- - Kalloc: the page allocator, "triple file system/kernel/kalloc.c" (kinit, kfree, kalloc). Memory is a
--   function from addresses to words; Kalloc.FreeList relates the chain through the free pages to
--   a list of pages. The loop of kinit has fuel for as many rounds as there are pages.
-- - Pipe: "triple file system/kernel/pipe.c" (pipewrite, piperead, pipeclose). One step is a run under
--   the pipe's lock up to its end or a sleep. Pipe.Inv is the invariant of the ring, Pipe.Ring
--   its bytes as a queue, Pipe.Queue the specification and Pipe.Refine the refinement.
-- - Proc: the process table of "simple shell/xv6/kernel/proc.c", which has the lottery scheduler.
--   Proc.Sched is scheduler() and random(); Proc.Reserve is sys_reserve and sys_spot of
--   "simple shell/xv6/kernel/sysproc.c"; Proc.Life is allocproc, fork, exit, wait, sleep, wakeup,
--   yield and kill; fork is one step, though the table's lock is held in allocproc only. What these
--   call of other parts (page tables, open files, inodes) is the record Proc.Life.Services. What a chosen process does until it gives the processor up is a parameter
--   of a scheduling round.
-- - Str and Fs: strncmp and strncpy of "triple file system/kernel/string.c", and routines of
--   "triple file system/kernel/fs.c": Fs.Blocks is bmap and mbmap, Fs.Data is readi, Fs.Write is
--   writei. Finding a free block (balloc), writing the inode back (iupdate) and the device switch
--   are arguments there. The loops have fuel for a round per byte. Fs.Copies, Fs.Heal, Fs.Agree, Fs.OneBlock and
--   Fs.RoundTrip are about mirrored files, whose three
--   copies have direct addresses there. Fs.Names is skipelem and namecmp, with strncmp and
--   strncpy of Str; Fs.Compare is about names that compare as equal.
--   Fs.Bitmap is readsb, bzero, balloc and bfree; the loop of balloc has fuel for a round per block.
--   Fs.Bitmap.Mapping puts this balloc under bmap.
--   Fs.Inodes is ialloc, iupdate, ilock and iunlock, Fs.Inodes.Cache iget and idup, and
--   Fs.Inodes.Freeing itrunc, iput, iunlockput and stati; Fs.Inodes.Encoding is about the bytes of
--   an inode, Fs.Inodes.Scanning and Fs.Inodes.Distinct about the loop of iget, Fs.Inodes.Truncating,
--   Fs.Inodes.Releasing and Fs.Inodes.Emptied about itrunc. ialloc returns the inode's number and
--   leaves iget to its caller.
-- - Files: filealloc, filedup and fileclose of "triple file system/kernel/file.c". The call that
--   fileclose ends with is a value. Files.Count is about the reference counts.
-- - Server: the request buffer of the web server, put and get of "sever_client_system/cs537.c" with
--   producer and consumer of "sever_client_system/server.c". A request keeps the address of its
--   line, and a file's size is an int of any sign; what the line's array holds later is not
--   modelled. A turn of a thread is what it does under the lock. Server.Smallest, Server.Valid and
--   Server.Pending are about one turn, Server.Runs about all.
--   Server.Http is requestParseURI, requestGetFiletype and requestHandle of
--   "sever_client_system/request.c"; stat() is an argument.
-- - Args: the checks of system call arguments, fetchint, fetchstr, argint, argptr and argstr of
--   "memory model and xv6 kernel modify /xv6/kernel/syscall.c". The int and the pointers are
--   unsigned numbers below 2 ^ 32.
-- - Bio: the buffer cache, "triple file system/kernel/bio.c", as a list in the order of use; a request
--   to the disk is done at once. Bio.View and Bio.Recycle lead to Bio.Read, on `bread`.
-- - Str.Move: memset, memcmp, memmove and memcpy of string.c, over a memory of bytes.
-- - Grep: match, matchhere and matchstar of "triple file system/user/grep.c"; Grep.Meaning says what
--   an expression means.
-- - Vm: page tables, "memory model and xv6 kernel modify /xv6/kernel/vm.c", on the memory of Kalloc: Vm is
--   walkpgdir, mappages and uva2ka, Vm.Memory setupkvm, allocuvm, deallocuvm and freevm, and
--   Vm.Process inituvm, copyuvm and copyout, growproc of kernel/proc.c and the page fault of
--   kernel/trap.c. The loop of mappages has fuel for all 2 ^ 20 pages, that of allocuvm for the
--   pages below USERTOP. Vm.Space is the invariant of a directory and its tables, Vm.Walk,
--   Vm.Tables, Vm.Create, Vm.Mapping, Vm.Pages and Vm.Range lead to mappages, Vm.Translate to uva2ka,
--   Vm.Adding, Vm.Growing, Vm.Rounds and Vm.Enough to allocuvm, Vm.Fault is about the page fault,
--   and Vm.Chunks, Vm.Inside and Vm.Copyout are about copyout: its result is the list of its moves. Prelude.Bits has the laws of `|` that the entries need.
-- - Ulib: the library of the user programs, "triple file system/user/ulib.c" (atoi, strcmp, strchr, gets)
--   and Ulib.Printf printint and printf of user/printf.c. A string is a list of bytes, what is
--   written a result and what is read an argument; the loop of printint has fuel for 32 digits.
--   Ulib.Numerals and Ulib.Bases are about numerals, Ulib.Pieces is about formats, Ulib.Lines
--   about strings and lines.
-- - Descriptors: argfd, fdalloc, sys_dup, sys_close and sys_pipe of "triple file system/kernel/sysfile.c" and
--   pipealloc of kernel/pipe.c, on the table of Files; what argint and argptr fetch and the page
--   of kalloc are arguments. Descriptors.Held counts the references that descriptors hold,
--   Descriptors.Ends is about pipealloc, Descriptors.Calls about sequences of calls.
--
-- Numbers are natural numbers with the wrap of unsigned arithmetic written out; int counters that
-- only grow are unbounded, and signed overflow is left out. Locks appear as the atomicity of a step.
-- Not modelled: device drivers, boot code and the image tool, which do input and output only; the
-- copied libraries; and directories, exec and loaduvm, the other system calls on files, the shell and the
-- user programs other than grep and their library, on which no theorem here rests.
pub mod Prelude
pub mod Kalloc
pub mod Pipe
pub mod Proc
pub mod Str
pub mod Fs
pub mod Files
pub mod Server
pub mod Args
pub mod Bio
pub mod Grep
pub mod Vm
pub mod Ulib
pub mod Descriptors
