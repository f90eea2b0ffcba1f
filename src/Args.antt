-- ===== src/Args.antt =====
-- The arguments of system calls, kernel/syscall.c of "memory model and xv6 kernel modify ". A user
-- process has a heap from the first page up to `sz` and a stack from `sz2` up to USERTOP.
pub mod Bounds
mod Tests
use operation_system_project.Prelude.{
  ℕ, zero, suc, ◌+◌, ◌-◌, ◌*◌, ◌%◌, ◌^◌, Bool, true, false, not, ◌||◌, ◌&&◌, Option, none, some,
  ltb, leb, ◌==◌, if◌then◌else◌,
}
use operation_system_project.Kalloc.{page_size}

-- USERTOP of param.h.
abbrev pub user_top : ℕ
user_top = 0xA0000

-- The fields of `struct proc` that are read here; `esp` is `tf->esp`, and `byte` the memory of the
-- process, as the page table in use shows it.
pub record User : Type 0 where
  pub sz : ℕ
  pub sz2 : ℕ
  pub esp : ℕ
  pub byte : ℕ → ℕ

-- `*(int*)addr`, as an unsigned number.
abbrev pub word : (ℕ → ℕ) → ℕ → ℕ
word b a = b a + 256 * b (a + 1) + 65536 * b (a + 2) + 16777216 * b (a + 3)

-- Addition of `uint`.
abbrev pub add_uint : ℕ → ℕ → ℕ
add_uint a b = (a + b) % 2 ^ 32

-- `none` stands for -1.
unfoldable pub fetchint : User → ℕ → Option ℕ
fetchint p addr =
    if (leb p.sz addr && ltb addr p.sz2)
      || (ltb p.sz (add_uint addr 4) && ltb (add_uint addr 4) p.sz2)
    then none
    else some (word p.byte addr)

-- The search upwards for a byte 0, over `n` bytes from `s` on: the bytes passed before it.
unfoldable pub search_up : (ℕ → ℕ) → (n s : ℕ) → Option ℕ
search_up b zero s = none
search_up b (suc n) s =
    let rest = search_up b n (s + 1) in
    if b s == 0 then some 0 else elim rest [ none ↦ none | some k ↦ some (k + 1) ]

-- The search downwards, over `n` bytes from `s` on.
unfoldable pub search_down : (ℕ → ℕ) → (n s : ℕ) → Option ℕ
search_down b zero s = none
search_down b (suc n) s =
    let rest = search_down b n (s - 1) in
    if b s == 0 then some 0 else elim rest [ none ↦ none | some k ↦ some (k + 1) ]

unfoldable pub fetchstr : User → ℕ → Option ℕ
unfolding search_up search_down
fetchstr p addr =
    if leb p.sz addr && ltb addr p.sz2
    then none
    else (if ltb addr p.sz && leb page_size addr
        then search_up p.byte (p.sz - addr) addr
        else (if leb p.sz2 addr && ltb addr (user_top - 1)
            then search_down p.byte (addr + 1 - p.sz2) addr
            else none))

unfoldable pub argint : User → ℕ → Option ℕ
unfolding fetchint
argint p n = fetchint p (add_uint p.esp (4 + 4 * n))

-- The test of `argptr` on the pointer `i`; `size` is taken as a `uint`.
unfoldable pub bad_block : User → (i size : ℕ) → Bool
bad_block p i size =
    (leb p.sz i && ltb i p.sz2)
    || (ltb p.sz (add_uint i size) && ltb i p.sz2)
    || ltb i page_size
    || ltb user_top (add_uint i size)

unfoldable pub checked_block : User → (size : ℕ) → Option ℕ → Option ℕ
unfolding bad_block
checked_block p size none = none
checked_block p size (some i) = if bad_block p i size then none else some i

unfoldable pub argptr : User → (n size : ℕ) → Option ℕ
unfolding argint checked_block
argptr p n size = checked_block p size (argint p n)

unfoldable pub checked_string : User → Option ℕ → Option ℕ
unfolding fetchstr
checked_string p none = none
checked_string p (some addr) = if leb p.sz addr && ltb addr p.sz2 then none else fetchstr p addr

unfoldable pub argstr : User → ℕ → Option ℕ
unfolding argint checked_string
argstr p n = checked_string p (argint p n)
