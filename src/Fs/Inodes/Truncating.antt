-- ===== src/Fs/Inodes/Truncating.antt =====
-- The blocks that `itrunc` frees: kernel/fs.c of "triple file system".
use operation_system_project.Prelude.{
  ℕ, All, List, ◌^◌, ◌≡◌, ◌≢◌, ◌≤◌, ◌<◌, ◌⊎◌, inl, inr, sym, subst, ap, ◌∙◌, true, false, length,
  arith,
}
use operation_system_project.Fs.{Fs, Inode}
use operation_system_project.Fs.Mirror.{addr}
use operation_system_project.Fs.Bitmap.{Superblock}
use operation_system_project.Fs.Bitmap.Alloc.{super, in_use, IsSized}
use operation_system_project.Fs.Bitmap.Free.{IsSynced, IsData}

-- The inode with other addresses.
abbrev pub with_addrs : List ℕ → Inode → Inode
with_addrs xs ip = record ip { addrs = xs }

module _ (sb : Superblock) where
  -- The buffers hold blocks, and the superblock is `sb`.
  pub record IsReady (s : Fs) : Type 0 where
    pub sized : IsSized s
    pub same : super s ≡ sb

  -- The addresses from `i` up to `e` that are not 0 are data blocks in use, each noted once.
  pub record IsOwned (s : Fs) (i e : ℕ) : Type 0 where
    pub owned : (j : ℕ) → i ≤ j → j < e → addr s.inode j ≢ 0 → IsData sb (addr s.inode j)
    pub used :
        (j : ℕ) → i ≤ j → j < e → addr s.inode j ≢ 0 → in_use sb.ninodes s (addr s.inode j) ≡ true
    pub apart :
        (j k : ℕ)
        → i ≤ j
        → j < e
        → i ≤ k
        → k < e
        → j ≢ k
        → addr s.inode j ≢ 0
        → addr s.inode k ≢ addr s.inode j

  -- The addresses from `i` up to `e` are 0 and the bits of their blocks are clear; no other
  -- address and no bit of another block below the size has changed.
  pub record IsCleared (s s' : Fs) (i e : ℕ) : Type 0 where
    pub ready : IsReady s'
    pub synced : IsSynced s → IsSynced s'
    pub slots : length s'.inode.addrs ≡ length s.inode.addrs
    pub fields : s'.inode ≡ with_addrs s'.inode.addrs s.inode
    pub fit : All (λ a. a < 2 ^ 32) s.inode.addrs → All (λ a. a < 2 ^ 32) s'.inode.addrs
    pub cleared : (j : ℕ) → i ≤ j → j < e → addr s'.inode j ≡ 0
    pub kept : (j : ℕ) → (j < i) ⊎ (e ≤ j) → addr s'.inode j ≡ addr s.inode j
    pub freed_bits :
        (j : ℕ) → i ≤ j → j < e → addr s.inode j ≢ 0 → in_use sb.ninodes s' (addr s.inode j) ≡ false
    pub kept_bits :
        (c : ℕ)
        → c < sb.size
        → ((j : ℕ) → i ≤ j → j < e → addr s.inode j ≢ c)
        → in_use sb.ninodes s' c ≡ in_use sb.ninodes s c

  below_or : (j m : ℕ) → (j < m) ⊎ (m ≤ j)
  below_or j m = ground arith

  module _ (s t : Fs) (i m e : ℕ) (low : i ≤ m) (high : m ≤ e) (o : IsOwned s i e)
      (c : IsCleared s t i m) where
    same_addr : (k : ℕ) → m ≤ k → addr t.inode k ≡ addr s.inode k
    same_addr k h = c.kept k (inr h)

    lt_of : (j : ℕ) → j < m → j < e
    lt_of j h = omega (arith, h, high)

    ge_of : (j : ℕ) → m ≤ j → i ≤ j
    ge_of j h = omega (arith, h, low)

    -- The bit of an address behind `m` is as it was.
    same_bit :
        (j : ℕ) → m ≤ j → j < e → addr s.inode j ≢ 0 → in_use sb.ninodes t (addr s.inode j) ≡ true
    same_bit j h l nz =
        c.kept_bits (addr s.inode j) (o.owned j (ge_of j h) l nz).1
          (λ k hk lk. o.apart j k (ge_of j h) l hk (lt_of k lk) (λ q. omega (arith, q, h, lk)) nz)
        ∙ o.used j (ge_of j h) l nz

    pub Owned-rest : IsOwned t m e
    Owned-rest = record {
      owned = λ j h l nz.
          subst (λ a. IsData sb a) (sym (same_addr j h))
            (o.owned j (ge_of j h) l (λ q. nz (same_addr j h ∙ q)));
      used = λ j h l nz.
          ap (in_use sb.ninodes t) (same_addr j h) ∙ same_bit j h l (λ q. nz (same_addr j h ∙ q));
      apart = λ j k h l h' l' ne nz q.
          o.apart j k (ge_of j h) l (ge_of k h') l' ne (λ q'. nz (same_addr j h ∙ q'))
            (sym (same_addr k h') ∙ (q ∙ same_addr j h));
    }

    pub Cleared-trans : {s' : Fs} → IsCleared t s' m e → IsCleared s s' i e
    Cleared-trans {s'} d = record {
      ready = d.ready;
      synced = λ h. d.synced (c.synced h);
      slots = d.slots ∙ c.slots;
      fields = d.fields ∙ ap (with_addrs s'.inode.addrs) c.fields;
      fit = λ h. d.fit (c.fit h);
      cleared = λ j h l. elim (below_or j m) [
        | inl b ↦ d.kept j (inl b) ∙ c.cleared j h b
        | inr b ↦ d.cleared j b l
      ];
      kept = λ j h. d.kept j (outer j h) ∙ c.kept j (inner j h);
      freed_bits = λ j h l nz. elim (below_or j m) [
        | inl b ↦
            d.kept_bits (addr s.inode j) (o.owned j h l nz).1 (λ k hk lk q.
              o.apart j k h l (ge_of k hk) lk (λ q'. omega (arith, q', b, hk)) nz
                (sym (same_addr k hk) ∙ q))
            ∙ c.freed_bits j h b nz
        | inr b ↦
            ap (in_use sb.ninodes s') (sym (same_addr j b))
            ∙ d.freed_bits j b l (λ q. nz (sym (same_addr j b) ∙ q))
      ];
      kept_bits = λ x small off.
          d.kept_bits x small (λ j h l q. off j (ge_of j h) l (sym (same_addr j h) ∙ q))
          ∙ c.kept_bits x small (λ j h l. off j h (lt_of j l));
    }
      where
        outer : (j : ℕ) → (j < i) ⊎ (e ≤ j) → (j < m) ⊎ (e ≤ j)
        outer j (inl h) = inl (omega (arith, h, low))
        outer j (inr h) = inr h

        inner : (j : ℕ) → (j < i) ⊎ (e ≤ j) → (j < i) ⊎ (m ≤ j)
        inner j (inl h) = inl h
        inner j (inr h) = inr (omega (arith, h, high))
