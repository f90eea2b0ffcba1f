-- ===== src/Vm/Memory.antt =====
-- User memory: `setupkvm`, `allocuvm`, `deallocuvm` and `freevm` of kernel/vm.c,
-- "memory model and xv6 kernel modify ".
use Prim.Native.Nat.{bit_or}
use operation_system_project.Prelude.{
  ℕ, zero, suc, ◌+◌, ◌-◌, ◌*◌, ◌/◌, ◌%◌, ◌^◌, Bool, true, false, not, ◌&&◌, List, [], ◌∷◌, ltb, leb,
  ◌==◌, if◌then◌else◌, Result, ok, panic, ◌>>=◌,
}
use operation_system_project.Args.{user_top}
use operation_system_project.Kalloc.{Kmem, page_size, phys_top, page_round_up, kfree, kalloc}
use operation_system_project.Vm.{
  pte_addr, pte_w, pte_u, is_present, zero_page, write_word, next_page, walkpgdir, mappages,
}

-- A row of `kmap`; `stop` is `e`.
pub record Kmap : Type 0 where
  pub start : ℕ
  pub stop : ℕ
  pub perm : ℕ

-- `data` is the linker's symbol for the first address of the kernel's data.
abbrev pub kmap : (data_start : ℕ) → List Kmap
kmap data_start =
    record { start = user_top; stop = 0x100000; perm = pte_w }
    ∷ record { start = 0x100000; stop = data_start; perm = 0 }
    ∷ record { start = data_start; stop = phys_top; perm = pte_w }
    ∷ record { start = 0xFE000000; stop = 0; perm = pte_w }
    ∷ []

-- `k->e - k->p` in `uint`.
abbrev pub kmap_size : Kmap → ℕ
kmap_size m = (m.stop + 2 ^ 32 - m.start) % 2 ^ 32

-- A call's result as a Boolean, and what follows it where it is not -1.
abbrev pub on_true : (Kmem → Result (Bool × Kmem)) → Bool × Kmem → Result (Bool × Kmem)
on_true f (false, k) = ok (false, k)
on_true f (true, k) = f k

unfoldable pub setup_maps : List Kmap → (pgdir : ℕ) → Kmem → Result (Bool × Kmem)
unfolding mappages
setup_maps [] pgdir k = ok (true, k)
setup_maps (m ∷ ms) pgdir k =
    mappages pgdir m.start (kmap_size m) m.start m.perm k >>= on_true (setup_maps ms pgdir)

abbrev dir_or_null : ℕ → Bool × Kmem → Result (ℕ × Kmem)
dir_or_null pgdir (t, k) = ok (if t then pgdir else 0, k)

-- `setupkvm` past its `kalloc`, and `setupkvm`; 0 is the null pointer.
unfoldable pub setup_dir : (data_start : ℕ) → ℕ × Kmem → Result (ℕ × Kmem)
unfolding setup_maps
setup_dir data_start (pgdir, k) =
    if pgdir == 0
    then ok (0, k)
    else (setup_maps (kmap data_start) pgdir (record k { mem = zero_page k.mem pgdir })
        >>= dir_or_null pgdir)

unfoldable pub setupkvm : (data_start : ℕ) → Kmem → Result (ℕ × Kmem)
unfolding setup_dir
setupkvm data_start k = setup_dir data_start (kalloc k)

abbrev pub user_write : ℕ
user_write = bit_or pte_w pte_u

-- `memset(mem, 0, PGSIZE); mappages(pgdir, (char*)a, PGSIZE, PADDR(mem), PTE_W|PTE_U)`
unfoldable pub map_user : (pgdir a page : ℕ) → Kmem → Result (Bool × Kmem)
unfolding mappages
map_user pgdir a page k =
    mappages pgdir a page_size page user_write (record k { mem = zero_page k.mem page })

module _ (end : ℕ) where
  -- `kfree((char*)pa); *pte = 0`
  unfoldable pub free_page : (pte : ℕ) → Kmem → Result Kmem
  unfolding kfree
  free_page pte k =
      let pa = pte_addr (k.mem pte) in
      if pa == 0 then panic else (kfree end pa k >>= λ k'. ok (write_word pte 0 k'))

  -- A round of `deallocuvm`.
  unfoldable pub unmap_page : (pgdir a : ℕ) → Kmem → Result Kmem
  unfolding walkpgdir free_page
  unmap_page pgdir a k =
      let pte = (walkpgdir pgdir a false k).0 in
      if not (pte == 0) && is_present (k.mem pte) then free_page pte k else ok k

  unfoldable pub dealloc_from : (fuel pgdir a oldsz : ℕ) → Kmem → Result Kmem
  unfolding unmap_page
  dealloc_from zero pgdir a oldsz k = ok k
  dealloc_from (suc fuel) pgdir a oldsz k =
      let more = dealloc_from fuel pgdir (next_page a) oldsz in
      if ltb a oldsz then unmap_page pgdir a k >>= more else ok k

  -- Each round passes a page, so a round per page below `oldsz` is enough, up to `oldsz` of
  -- 2 ^ 32 - 4096.
  unfoldable pub deallocuvm : (pgdir oldsz newsz : ℕ) → Kmem → Result (ℕ × Kmem)
  unfolding dealloc_from
  deallocuvm pgdir oldsz newsz k =
      if leb oldsz newsz
      then ok (oldsz, k)
      else (dealloc_from (oldsz / page_size + 1) pgdir (page_round_up newsz % 2 ^ 32) oldsz k
          >>= λ k'. ok (newsz, k'))

  -- The failure of `allocuvm`: what is mapped is given back.
  unfoldable pub undo_alloc : (pgdir oldsz newsz : ℕ) → Kmem → Result (ℕ × Kmem)
  unfolding deallocuvm
  undo_alloc pgdir oldsz newsz k = deallocuvm pgdir newsz oldsz k >>= λ r. ok (0, r.1)

  -- A round of `allocuvm` past its `kalloc`; the result of `mappages` is not looked at.
  unfoldable pub alloc_page :
      (Kmem → Result (ℕ × Kmem)) → (pgdir oldsz newsz a : ℕ) → ℕ × Kmem → Result (ℕ × Kmem)
  unfolding undo_alloc map_user
  alloc_page more pgdir oldsz newsz a (page, k) =
      if page == 0
      then undo_alloc pgdir oldsz newsz k
      else (map_user pgdir a page k >>= λ r. more r.1)

  unfoldable pub alloc_from : (fuel pgdir oldsz newsz a : ℕ) → Kmem → Result (ℕ × Kmem)
  unfolding alloc_page
  alloc_from zero pgdir oldsz newsz a k = ok (newsz, k)
  alloc_from (suc fuel) pgdir oldsz newsz a k =
      let more = alloc_from fuel pgdir oldsz newsz (a + page_size) in
      if ltb a newsz then alloc_page more pgdir oldsz newsz a (kalloc k) else ok (newsz, k)

  -- There are `user_top / page_size` pages at most.
  unfoldable pub allocuvm : (pgdir oldsz newsz : ℕ) → Kmem → Result (ℕ × Kmem)
  unfolding alloc_from
  allocuvm pgdir oldsz newsz k =
      if ltb user_top newsz
      then ok (0, k)
      else (if ltb newsz oldsz
          then ok (oldsz, k)
          else alloc_from (user_top / page_size) pgdir oldsz newsz (page_round_up oldsz) k)

  -- The loop of `freevm` over the directory.
  unfoldable pub free_tables : (fuel pgdir i : ℕ) → Kmem → Result Kmem
  unfolding kfree
  free_tables zero pgdir i k = ok k
  free_tables (suc fuel) pgdir i k =
      let more = free_tables fuel pgdir (i + 1) in
      let pde = k.mem (pgdir + 4 * i) in
      if is_present pde then kfree end (pte_addr pde) k >>= more else more k

  unfoldable pub freevm : (pgdir : ℕ) → Kmem → Result Kmem
  unfolding deallocuvm free_tables kfree
  freevm pgdir k =
      if pgdir == 0
      then panic
      else (deallocuvm pgdir user_top 0 k >>= λ r.
          free_tables 1024 pgdir 0 r.1 >>= λ k'. kfree end pgdir k')
