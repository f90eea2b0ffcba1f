-- ===== src/Vm.antt =====
-- Page tables: kernel/vm.c of "memory model and xv6 kernel modify ", with kernel/mmu.h. Memory is that of
-- Kalloc, a word at each address; kernel addresses are physical ones.
pub mod Space
pub mod Walk
pub mod Tables
pub mod Create
pub mod Mapping
pub mod Pages
pub mod Range
pub mod Translate
pub mod Memory
pub mod Adding
pub mod Growing
pub mod Rounds
pub mod Enough
pub mod Process
pub mod Fault
pub mod Chunks
pub mod Inside
pub mod Copyout
mod Tests
use Prim.Native.Nat.{bit_or}
use operation_system_project.Prelude.{
  ℕ, zero, suc, ◌+◌, ◌-◌, ◌*◌, ◌/◌, ◌%◌, ◌^◌, Bool, true, false, ◌&&◌, ltb, leb, ◌==◌,
  if◌then◌else◌, Result, ok, panic, ◌>>=◌,
}
use operation_system_project.Kalloc.{Kmem, page_size, store_word, kalloc}

-- PDX, PTX, PGROUNDDOWN and PTE_ADDR.
abbrev pub pdx : ℕ → ℕ
pdx va = va / 2 ^ 22 % 1024

abbrev pub ptx : ℕ → ℕ
ptx va = va / 2 ^ 12 % 1024

abbrev pub page_round_down : ℕ → ℕ
page_round_down a = a / page_size * page_size

abbrev pub pte_addr : ℕ → ℕ
pte_addr e = e / page_size * page_size

-- PTE_P, PTE_W and PTE_U, and the tests of the first and the last.
abbrev pub pte_p : ℕ
pte_p = 1

abbrev pub pte_w : ℕ
pte_w = 2

abbrev pub pte_u : ℕ
pte_u = 4

abbrev pub is_present : ℕ → Bool
is_present e = e % 2 == 1

abbrev pub is_user : ℕ → Bool
is_user e = e / 4 % 2 == 1

-- `memset(v, 0, PGSIZE)`
abbrev pub zero_page : (ℕ → ℕ) → ℕ → ℕ → ℕ
zero_page mem v a = if leb v a && ltb a (v + page_size) then 0 else mem a

abbrev pub write_word : ℕ → ℕ → Kmem → Kmem
write_word a w k = record k { mem = store_word k.mem a w }

-- `&pgdir[PDX(va)]`
abbrev pub pde_slot : (pgdir va : ℕ) → ℕ
pde_slot pgdir va = pgdir + 4 * pdx va

-- The part of `walkpgdir` past its `kalloc`; 0 is the null pointer.
unfoldable pub new_table : (pgdir va : ℕ) → ℕ × Kmem → ℕ × Kmem
new_table pgdir va (pgtab, k) = if pgtab == 0 then (0, k) else (
  pgtab + 4 * ptx va,
  write_word (pde_slot pgdir va) (bit_or (bit_or (bit_or pgtab pte_p) pte_w) pte_u)
      (record k { mem = zero_page k.mem pgtab }),
)

unfoldable pub walkpgdir : (pgdir va : ℕ) → (create : Bool) → Kmem → ℕ × Kmem
unfolding new_table
walkpgdir pgdir va create k =
    let pde = k.mem (pde_slot pgdir va) in
    if is_present pde
    then (pte_addr pde + 4 * ptx va, k)
    else (if create then new_table pgdir va (kalloc k) else (0, k))

-- The entry of a page: `*pte = pa | perm | PTE_P`.
abbrev pub entry_of : (pa perm : ℕ) → ℕ
entry_of pa perm = bit_or (bit_or pa perm) pte_p

-- A round of `mappages` past its walk; `false` stands for -1.
unfoldable pub set_pte : (e : ℕ) → ℕ × Kmem → Result (Bool × Kmem)
set_pte e (pte, k) =
    if pte == 0
    then ok (false, k)
    else (if is_present (k.mem pte) then panic else ok (true, write_word pte e k))

unfoldable pub map_page : (pgdir a pa perm : ℕ) → Kmem → Result (Bool × Kmem)
unfolding walkpgdir set_pte
map_page pgdir a pa perm k = set_pte (entry_of pa perm) (walkpgdir pgdir a true k)

abbrev pub next_page : ℕ → ℕ
next_page a = (a + page_size) % 2 ^ 32

-- What follows a round.
unfoldable pub after_page :
    (done : Bool) → (Kmem → Result (Bool × Kmem)) → Bool × Kmem → Result (Bool × Kmem)
after_page done more (false, k) = ok (false, k)
after_page done more (true, k) = if done then ok (true, k) else more k

-- The loop, on fuel; there are 2 ^ 20 pages.
unfoldable pub mappages_from : (fuel pgdir a last pa perm : ℕ) → Kmem → Result (Bool × Kmem)
unfolding map_page after_page
mappages_from zero pgdir a last pa perm k = ok (false, k)
mappages_from (suc fuel) pgdir a last pa perm k =
    let more = mappages_from fuel pgdir (next_page a) last (next_page pa) perm in
    map_page pgdir a pa perm k >>= after_page (a == last) more

unfoldable pub mappages : (pgdir la size pa perm : ℕ) → Kmem → Result (Bool × Kmem)
unfolding mappages_from
mappages pgdir la size pa perm k =
    mappages_from (2 ^ 20) pgdir (page_round_down la)
      (page_round_down ((la + size + 2 ^ 32 - 1) % 2 ^ 32)) pa perm k

-- `*pte` of a null pointer faults in the kernel: no process but the first has a page at 0.
unfoldable pub uva2ka : (pgdir uva : ℕ) → Kmem → Result ℕ
unfolding walkpgdir
uva2ka pgdir uva k =
    let pte = (walkpgdir pgdir uva false k).0 in
    if pte == 0
    then panic
    else (if is_present (k.mem pte) && is_user (k.mem pte) then ok (pte_addr (k.mem pte)) else ok 0)
