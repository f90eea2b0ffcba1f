-- ===== src/Fs/Bitmap/Mapping.antt =====
-- `bmap` of a hole, with the `balloc` of the bitmap: kernel/fs.c of "triple file system".
use operation_system_project.Prelude.{
  ℕ, zero, ◌≡◌, ◌≢◌, ◌<◌, refl, sym, ap, ◌∙◌, subst, suc, true, false, get_or, get_or-set_self,
  get_or-set_ne, set, length, ltb, ◌==◌, if◌then◌else◌, Result, ok, panic, arith,
}
use operation_system_project.Fs.{Fs, M, pure, ◌>>=◌, ◌>>◌, and_then, ndirect}
use operation_system_project.Fs.Blocks.{get_addr, set_addr, addr_or_alloc, bmap}
use operation_system_project.Fs.Mirror.{addr, addr_or_alloc_mapped}
use operation_system_project.Fs.Bitmap.{balloc}
use operation_system_project.Fs.Bitmap.Alloc.{
  super, in_use, IsSized, IsMarked, Allocated, no_block, allocated,
}
use operation_system_project.Fs.Bitmap.Search.{balloc-Allocated}

-- Block `a`, free before, belongs to block `bn` of the file: its bit is set, the address is
-- noted, and asking again gives it. No other bit and no other address has changed.
pub record IsMapping (n : ℕ) (s s' : Fs) (bn a : ℕ) : Type 0 where
  pub free : in_use n s a ≡ false
  pub marked : in_use n s' a ≡ true
  pub others : (c : ℕ) → c ≢ a → in_use n s' c ≡ in_use n s c
  pub entry : addr s'.inode bn ≡ a
  pub entries : (j : ℕ) → j ≢ bn → addr s'.inode j ≡ addr s.inode j
  pub again : bmap balloc bn s' ≡ ok (a, s')

-- What `bmap` of a hole may come to.
pub data Mapped (n size : ℕ) (s : Fs) (bn : ℕ) : Result (ℕ × Fs) → Type 0 where
  no_room : ((c : ℕ) → c < size → in_use n s c ≡ true) → Mapped n size s bn panic
  mapped : (a : ℕ) {s' : Fs} → IsMapping n s s' bn a → Mapped n size s bn (ok (a, s'))

direct : (bn : ℕ) → bn < ndirect → ltb bn ndirect ≡ true
direct bn h = ground arith

bmap-direct : (m : M ℕ) (bn : ℕ) (s : Fs) → bn < ndirect → bmap m bn s ≡ addr_or_alloc m bn s
unfolding bmap
bmap-direct m bn s h = rw (direct bn h) refl

-- `ip->addrs[bn] = addr`, and the address as the result.
abbrev note_addr : ℕ → ℕ → M ℕ
note_addr bn a = set_addr bn a >> pure a

addr_or_alloc-hole :
    (m : M ℕ) (bn : ℕ) (s : Fs)
    → addr s.inode bn ≡ 0
    → addr_or_alloc m bn s ≡ and_then (m s) (note_addr bn)
unfolding addr_or_alloc get_addr
addr_or_alloc-hole m bn s h =
    ap (λ a. (if a == 0 then (do a' ← m; note_addr bn a') else pure a) s) h

nonzero : (n : ℕ) (s : Fs) (a : ℕ) → in_use n s 0 ≡ true → in_use n s a ≡ false → 0 < a
nonzero n s zero e e' = absurd (cc)
nonzero n s (suc a) e e' = omega arith

module _ (n size bn : ℕ) (s : Fs) (h : bn < ndirect) (room : bn < length s.inode.addrs) where
  IsMapping-allocated :
      (a : ℕ) {t : Fs}
      → in_use n s 0 ≡ true
      → in_use n s a ≡ false
      → IsMarked n s t a true
      → Mapped n size s bn (and_then (ok (a, t)) (note_addr bn))
  unfolding set_addr
  IsMapping-allocated a {t} reserved e m = mapped a (record {
    free = e;
    marked = m.marked;
    others = m.others;
    entry = here;
    entries = λ j ne.
        get_or-set_ne t.inode.addrs bn j a 0 (λ q. ne (sym q))
        ∙ ap (λ ip. get_or ip.addrs j 0) m.inode;
    again =
        bmap-direct balloc bn s' h
        ∙ (addr_or_alloc_mapped balloc s' bn
              (subst (λ k. 0 < k) (sym here) (nonzero n s a reserved e))
            ∙ ap (λ k. ok (k, s')) here);
  })
    where
      s' : Fs
      s' = record t { inode = record (t.inode) { addrs = set t.inode.addrs bn a } }

      here : addr s'.inode bn ≡ a
      here =
          get_or-set_self t.inode.addrs bn a 0
            (subst (λ ip. bn < length ip.addrs) (sym m.inode) room)

  Allocated-Mapped :
      {r : Result (ℕ × Fs)}
      → in_use n s 0 ≡ true
      → Allocated n size s r
      → Mapped n size s bn (and_then r (note_addr bn))
  Allocated-Mapped reserved (no_block full) = no_room full
  Allocated-Mapped reserved (allocated a e before m) = IsMapping-allocated a reserved e m

-- `bmap` of a direct block of a file that has none there, with the bit of block 0 set and blocks of
-- the block size in the buffers, returns a block that was free, sets its bit, notes it in the
-- inode and returns it again from then on; no other bit and no other address changes. If it
-- panics, the bits of all blocks below the size are set.
pub bmap-Mapped :
    (s : Fs) (bn : ℕ)
    → IsSized s
    → bn < ndirect
    → bn < length s.inode.addrs
    → addr s.inode bn ≡ 0
    → in_use (super s).ninodes s 0 ≡ true
    → Mapped (super s).ninodes (super s).size s bn (bmap balloc bn s)
bmap-Mapped s bn sized h room hole reserved =
    subst (λ r. Mapped (super s).ninodes (super s).size s bn r)
      (sym (bmap-direct balloc bn s h ∙ addr_or_alloc-hole balloc bn s hole))
      (Allocated-Mapped (super s).ninodes (super s).size bn s h room reserved
        (balloc-Allocated s sized))
