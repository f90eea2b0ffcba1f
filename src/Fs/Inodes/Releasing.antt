-- ===== src/Fs/Inodes/Releasing.antt =====
-- The loop of `itrunc` over the direct blocks: kernel/fs.c of "triple file system".
use operation_system_project.Prelude.{
  ℕ, All, List, [], ◌∷◌, ◌^◌, Returns-map, zero, suc, ◌+◌, ◌≡◌, ◌≢◌, ◌≤◌, ◌<◌, ◌⊎◌, inl, inr, refl,
  sym, subst, ap, ◌∙◌, true, false, Bool-cases, get_or-set_self, get_or-set_ne, set, length,
  length-set, ◌==◌, if◌then◌else◌, Result, ok, Returns, returns, arith,
}
use operation_system_project.Fs.{Fs, M, pure, ◌>>◌, and_then}
use operation_system_project.Fs.Blocks.{get_addr, set_addr}
use operation_system_project.Fs.Mirror.{addr}
use operation_system_project.Fs.Bitmap.{Superblock, bitmap_block, parse_super, bfree}
use operation_system_project.Fs.Bitmap.Alloc.{in_use}
use operation_system_project.Fs.Bitmap.Free.{
  IsFreed, Freed, not_in_use, freed, bfree-Freed, IsData, data_apart, not_super, super_apart,
}
use operation_system_project.Fs.Inodes.Freeing.{free_slot, free_direct}
use operation_system_project.Fs.Inodes.Truncating.{
  with_addrs, IsReady, IsOwned, IsCleared, Owned-rest, Cleared-trans,
}

pub Returns-and_then {ℓ κ} :
    {A B : Type 0} {P : A × Fs → Type ℓ} {Q : B × Fs → Type κ} {r : Result (A × Fs)} (f : A → M B)
    → Returns P r
    → ((a : A) (s : Fs) → P (a, s) → Returns Q (f a s))
    → Returns Q (and_then r f)
Returns-and_then f (returns {a} p) next = next a.0 a.1 p

Freed-Returns :
    {n : ℕ} {s : Fs} {b : ℕ} {r : Result (Unit {0} × Fs)}
    → in_use n s b ≡ true
    → Freed n s b r
    → Returns (λ q. IsFreed n s q.1 b) r
Freed-Returns e (not_in_use e') = absurd (cc)
Freed-Returns e (freed {s' = s'} e' f) = returns {a = (tt, s')} f

All-set : (xs : List ℕ) (i : ℕ) → All (λ a. a < 2 ^ 32) xs → All (λ a. a < 2 ^ 32) (set xs i 0)
All-set [] i h = tt
All-set (x ∷ xs) zero h = (omega arith, h.1)
All-set (x ∷ xs) (suc i) h = (h.0, All-set xs i h.1)

free_slot-empty : (i : ℕ) (s : Fs) → (addr s.inode i == 0) ≡ true → free_slot i s ≡ ok (tt, s)
unfolding free_slot get_addr
free_slot-empty i s e =
    ap (λ t. (if t then pure tt else (bfree (addr s.inode i) >> set_addr i 0)) s) e

free_slot-full :
    (i : ℕ) (s : Fs)
    → (addr s.inode i == 0) ≡ false
    → free_slot i s ≡ and_then (bfree (addr s.inode i) s) (λ u. set_addr i 0)
unfolding free_slot get_addr
free_slot-full i s e =
    ap (λ t. (if t then pure tt else (bfree (addr s.inode i) >> set_addr i 0)) s) e

is_zero : (a : ℕ) → (a == 0) ≡ true → a ≡ 0
is_zero a e = ground arith

is_nonzero : (a : ℕ) → (a == 0) ≡ false → a ≢ 0
is_nonzero a e q = ground arith

only : (i j : ℕ) → i ≤ j → j < i + 1 → j ≡ i
only i j h l = omega (arith, h, l)

other : (i j : ℕ) → (j < i) ⊎ (i + 1 ≤ j) → i ≢ j
other i j (inl h) e = omega (arith, h, e)
other i j (inr h) e = omega (arith, h, e)

module _ (sb : Superblock) (i e : ℕ) (s : Fs) (ready : IsReady sb s) (o : IsOwned sb s i e) where
  Cleared-empty : addr s.inode i ≡ 0 → IsCleared sb s s i (i + 1)
  Cleared-empty z = record {
    ready = ready;
    synced = λ h. h;
    slots = refl;
    fields = refl;
    fit = λ h. h;
    cleared = λ j h l. ap (addr s.inode) (only i j h l) ∙ z;
    kept = λ j h. refl;
    freed_bits = λ j h l nz. absurd (nz (ap (addr s.inode) (only i j h l) ∙ z));
    kept_bits = λ c small off. refl;
  }

  module _ (inside : i < e) (room : i < length s.inode.addrs) (nz : addr s.inode i ≢ 0) where
    addr-IsData : IsData sb (addr s.inode i)
    addr-IsData = o.owned i (omega arith) inside nz

    Cleared-full :
        (t : Fs)
        → IsFreed sb.ninodes s t (addr s.inode i)
        → Returns (λ r. IsCleared sb s r.1 i (i + 1)) (set_addr i 0 t)
    unfolding set_addr
    Cleared-full t f = returns (record {
      ready = record {
        sized = f.sized;
        same =
            ap parse_super (
              f.blocks 1 (λ q. not_super sb (addr s.inode i) addr-IsData (sym q))
                (super_apart sb (addr s.inode i)))
            ∙ ready.same;
      };
      synced = f.synced;
      slots = length-set t.inode.addrs i 0 ∙ ap (λ ip. length ip.addrs) f.inode;
      fields = ap (with_addrs (set t.inode.addrs i 0)) f.inode;
      fit = λ h.
          All-set t.inode.addrs i (subst (λ ip. All (λ a. a < 2 ^ 32) ip.addrs) (sym f.inode) h);
      cleared = λ j h l.
          ap (addr s'.inode) (only i j h l)
          ∙ get_or-set_self t.inode.addrs i 0 0
              (subst (λ ip. i < length ip.addrs) (sym f.inode) room);
      kept =
          λ j h. get_or-set_ne t.inode.addrs i j 0 0 (other i j h) ∙ ap (λ ip. addr ip j) f.inode;
      freed_bits =
          λ j h l nz'. ap (λ k. in_use sb.ninodes t (addr s.inode k)) (only i j h l) ∙ f.unused;
      kept_bits = λ c small off.
          f.others c (λ q. off i (omega arith) (omega arith) (sym q))
            (data_apart sb (addr s.inode i) c addr-IsData small);
    })
      where
        s' : Fs
        s' = record t { inode = record (t.inode) { addrs = set t.inode.addrs i 0 } }

    bfree-Returns :
        Returns (λ q. IsFreed sb.ninodes s q.1 (addr s.inode i)) (bfree (addr s.inode i) s)
    bfree-Returns = Freed-Returns (o.used i (omega arith) inside nz) (
        subst (λ q. Freed q.ninodes s (addr s.inode i) (bfree (addr s.inode i) s)) ready.same
          (bfree-Freed s (addr s.inode i) ready.sized (not_super sb (addr s.inode i) addr-IsData) (
            subst (λ q. bitmap_block (addr s.inode i) q.ninodes ≢ addr s.inode i) (sym ready.same)
              (data_apart sb (addr s.inode i) (addr s.inode i) addr-IsData addr-IsData.1))))

  free_slot-Cleared :
      i < e → i < length s.inode.addrs → Returns (λ r. IsCleared sb s r.1 i (i + 1)) (free_slot i s)
  free_slot-Cleared inside room = elim (Bool-cases (addr s.inode i == 0)) [
    | inl q ↦
        subst (λ r. Returns (λ r. IsCleared sb s r.1 i (i + 1)) r) (sym (free_slot-empty i s q))
          (returns {a = (tt, s)} (Cleared-empty (is_zero (addr s.inode i) q)))
    | inr q ↦
        subst (λ r. Returns (λ r. IsCleared sb s r.1 i (i + 1)) r) (sym (free_slot-full i s q))
          (Returns-and_then (λ u. set_addr i 0)
            (bfree-Returns inside room (is_nonzero (addr s.inode i) q))
            (λ u t f. Cleared-full inside room (is_nonzero (addr s.inode i) q) t f))
  ]

module _ (sb : Superblock) where
  pub free_direct-Cleared :
      (fuel i e : ℕ) (s : Fs)
      → IsReady sb s
      → IsOwned sb s i e
      → e ≡ i + fuel
      → e ≤ length s.inode.addrs
      → Returns (λ r. IsCleared sb s r.1 i e) (free_direct fuel i s)
  unfolding free_direct
  free_direct-Cleared zero i e s ready o q room = returns {a = (tt, s)} (record {
    ready = ready;
    synced = λ h. h;
    slots = refl;
    fields = refl;
    fit = λ h. h;
    cleared = λ j h l. absurd (omega (arith, h, l, q));
    kept = λ j h. refl;
    freed_bits = λ j h l nz. absurd (omega (arith, h, l, q));
    kept_bits = λ c small off. refl;
  })
  free_direct-Cleared (suc fuel) i e s ready o q room =
      Returns-and_then (λ u. free_direct fuel (i + 1))
        (free_slot-Cleared sb i e s ready o (omega (arith, q)) (omega (arith, q, room)))
        (λ u t c.
          Returns-map
            (λ r d. Cleared-trans sb s t i (i + 1) e (omega arith) (omega (arith, q)) o c d)
            (free_direct-Cleared fuel (i + 1) e t c.ready
              (Owned-rest sb s t i (i + 1) e (omega arith) (omega (arith, q)) o c)
              (omega (arith, q)) (subst (λ k. e ≤ k) (sym c.slots) room)))
