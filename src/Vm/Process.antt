-- ===== src/Vm/Process.antt =====
-- The memory of a process: `inituvm`, `copyuvm` and `copyout` of kernel/vm.c, `growproc` of kernel/proc.c and
-- the page fault of kernel/trap.c, "memory model and xv6 kernel modify ".
use operation_system_project.Prelude.{
  ℕ, zero, suc, ◌+◌, ◌-◌, ◌*◌, ◌/◌, ◌%◌, ◌^◌, Bool, true, false, not, ◌&&◌, ◌||◌, List, [], ◌∷◌,
  ltb, leb, ◌==◌, if◌then◌else◌, min, Result, ok, panic, ◌>>=◌,
}
use operation_system_project.Args.{user_top}
use operation_system_project.Kalloc.{Kmem, page_size, kalloc}
use operation_system_project.Vm.{pte_addr, is_present, page_round_down, walkpgdir, mappages, uva2ka}
use operation_system_project.Vm.Memory.{
  user_write, map_user, setupkvm, deallocuvm, allocuvm, freevm, on_true,
}

-- `memmove(dst, src, n)`
abbrev pub move_words : (ℕ → ℕ) → (dst src n : ℕ) → ℕ → ℕ
move_words mem dst src n a = if leb dst a && ltb a (dst + n) then mem (src + (a - dst)) else mem a

-- `inituvm` past its `kalloc`; `memset` of a null pointer faults.
unfoldable pub load_init : (pgdir init sz : ℕ) → ℕ × Kmem → Result Kmem
unfolding map_user
load_init pgdir init sz (page, k) =
    if page == 0
    then panic
    else (map_user pgdir 0 page k >>= λ r.
        ok (record r.1 { mem = move_words r.1.mem page init sz }))

unfoldable pub inituvm : (pgdir init sz : ℕ) → Kmem → Result Kmem
unfolding load_init
inituvm pgdir init sz k = if leb page_size sz then panic else load_init pgdir init sz (kalloc k)

-- A round of `copyuvm` past its `kalloc`; `false` leads to `bad`.
unfoldable pub copy_into : (d i pa : ℕ) → ℕ × Kmem → Result (Bool × Kmem)
unfolding mappages
copy_into d i pa (page, k) =
    if page == 0
    then ok (false, k)
    else mappages d i page_size page user_write
        (record k { mem = move_words k.mem page pa page_size })

unfoldable pub copy_one : (pgdir d i : ℕ) → Kmem → Result (Bool × Kmem)
unfolding walkpgdir copy_into
copy_one pgdir d i k =
    let pte = (walkpgdir pgdir i false k).0 in
    if pte == 0 || not (is_present (k.mem pte))
    then panic
    else copy_into d i (pte_addr (k.mem pte)) (kalloc k)

-- Both loops of `copyuvm`: the pages from `i` up to `stop`, on fuel.
unfoldable pub copy_pages : (fuel pgdir d i stop : ℕ) → Kmem → Result (Bool × Kmem)
unfolding copy_one
copy_pages zero pgdir d i stop k = ok (true, k)
copy_pages (suc fuel) pgdir d i stop k =
    let more = copy_pages fuel pgdir d (i + page_size) stop in
    if ltb i stop then copy_one pgdir d i k >>= on_true more else ok (true, k)

module _ (end data_start : ℕ) where
  -- The end of `copyuvm`: the copy, or `freevm(d)` and the null pointer.
  unfoldable pub copy_end : (d : ℕ) → Bool × Kmem → Result (ℕ × Kmem)
  unfolding freevm
  copy_end d (true, k) = ok (d, k)
  copy_end d (false, k) = freevm end d k >>= λ k'. ok (0, k')

  unfoldable pub copy_all : (pgdir sz sz2 : ℕ) → ℕ × Kmem → Result (ℕ × Kmem)
  unfolding copy_pages copy_end
  copy_all pgdir sz sz2 (d, k) =
      if d == 0
      then ok (0, k)
      else (copy_pages (sz / page_size + 1) pgdir d page_size sz k
          >>= on_true (copy_pages (user_top / page_size) pgdir d sz2 user_top)
          >>= copy_end d)

  -- The heap is copied from the second page on, and the stack from `sz2` of the process that runs.
  unfoldable pub copyuvm : (pgdir sz sz2 : ℕ) → Kmem → Result (ℕ × Kmem)
  unfolding setupkvm copy_all
  copyuvm pgdir sz sz2 k = setupkvm data_start k >>= copy_all pgdir sz sz2

-- A `memmove` of `copyout`: `len` bytes from byte `from` of the buffer.
pub record Chunk : Type 0 where
  pub dst : ℕ
  pub from : ℕ
  pub len : ℕ

-- `n`, the bytes of a round.
abbrev pub chunk_len : (va len : ℕ) → ℕ
chunk_len va len = min (page_size - (va - page_round_down va)) len

abbrev pub put_chunk : Chunk → List Chunk × Bool → List Chunk × Bool
put_chunk c (cs, t) = (c ∷ cs, t)

-- A round with the physical page, which is 0 where there is none.
unfoldable pub copy_chunk :
    Result (List Chunk × Bool) → (va from len pa0 : ℕ) → Result (List Chunk × Bool)
copy_chunk more va from len pa0 =
    if pa0 == 0
    then ok ([], false)
    else (more >>= λ r. ok (
        put_chunk
          (record { dst = pa0 + (va - page_round_down va); from = from; len = chunk_len va len })
          r))

-- The moves that `copyout` makes, in order, and whether it returns 0. Each round moves a byte at
-- least, so `len` rounds are enough.
unfoldable pub copyout_from : (fuel pgdir va from len : ℕ) → Kmem → Result (List Chunk × Bool)
unfolding uva2ka copy_chunk
copyout_from zero pgdir va from len k = ok ([], true)
copyout_from (suc fuel) pgdir va from len k =
    let n = chunk_len va len in
    let more =
      copyout_from fuel pgdir ((page_round_down va + page_size) % 2 ^ 32) (from + n) (len - n) k in
    if ltb 0 len
    then uva2ka pgdir (page_round_down va) k >>= copy_chunk more va from len
    else ok ([], true)

unfoldable pub copyout : (pgdir va len : ℕ) → Kmem → Result (List Chunk × Bool)
unfolding copyout_from
copyout pgdir va len k = copyout_from len pgdir va 0 len k

-- The fields of `struct proc` that say where its memory is; `sz2` is the bottom of the stack.
pub record Uvm : Type 0 where
  pub sz : ℕ
  pub sz2 : ℕ
  pub pgdir : ℕ
  pub killed : Bool

-- A result of `growproc`: 0, with the memory, or -1.
pub record Grew : Type 0 where
  pub returned : Bool
  pub uvm : Uvm
  pub kmem : Kmem

-- The end of `growproc`, by the size that `allocuvm` or `deallocuvm` returns; `switchuvm` loads
-- registers only.
abbrev pub set_sz : Uvm → ℕ × Kmem → Result Grew
set_sz u (sz, k) = ok (
    if sz == 0
    then record { returned = false; uvm = u; kmem = k }
    else record { returned = true; uvm = record u { sz = sz }; kmem = k })

-- The end of a page fault, past its call of `allocuvm`.
abbrev pub move_stack : Uvm → ℕ × Kmem → Result (Uvm × Kmem)
move_stack u (sz, k) =
    ok (if sz == 0 then record u { killed = true } else record u { sz2 = u.sz2 - page_size }, k)

module _ (end : ℕ) where
  -- `n` is an `int`, as the number of its 32 bits.
  unfoldable pub growproc : (n : ℕ) → Uvm → Kmem → Result Grew
  unfolding allocuvm deallocuvm
  growproc n u k =
      let new = (u.sz + n) % 2 ^ 32 in
      if n == 0
      then ok (record { returned = true; uvm = u; kmem = k })
      else (if ltb n (2 ^ 31)
          then (if ltb (user_top - 2 * page_size) new
              then ok (record { returned = false; uvm = u; kmem = k })
              else (allocuvm end u.pgdir u.sz new k >>= set_sz u))
          else (deallocuvm end u.pgdir u.sz new k >>= set_sz u))

  -- The page fault with error code 4 or 6.
  unfoldable pub page_fault : Uvm → Kmem → Result (Uvm × Kmem)
  unfolding allocuvm
  page_fault u k =
      if ltb ((u.sz + 2 * page_size) % 2 ^ 32) u.sz2
      then (allocuvm end u.pgdir (u.sz2 - page_size) u.sz2 k >>= move_stack u)
      else move_stack u (0, k)
