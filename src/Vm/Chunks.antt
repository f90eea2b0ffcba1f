-- ===== src/Vm/Chunks.antt =====
-- The rounds of `copyout`: kernel/vm.c of "memory model and xv6 kernel modify ".
use operation_system_project.Prelude.{
  ℕ, zero, suc, ◌+◌, ◌-◌, ◌%◌, ◌^◌, ◌≡◌, ◌≤◌, ◌<◌, ◌⊎◌, inl, inr, refl, sym, subst, ap, ◌∙◌, Bool,
  true, false, lt→ltb, List, [], ◌∷◌, if◌then◌else◌, Result, ok, panic, ◌>>=◌, arith,
}
use operation_system_project.Kalloc.{Kmem, page_size}
use operation_system_project.Vm.{page_round_down, uva2ka}
use operation_system_project.Vm.Process.{Chunk, chunk_len, copy_chunk, copyout_from}

-- One of the moves takes byte `i` of the buffer to the address `a`.
pub data Sends (i a : ℕ) : List Chunk → Type 0 where
  here :
      {c : Chunk} {cs : List Chunk}
      → c.from ≤ i
      → i < c.from + c.len
      → a ≡ c.dst + (i - c.from)
      → Sends i a (c ∷ cs)
  there : {c : Chunk} {cs : List Chunk} → Sends i a cs → Sends i a (c ∷ cs)

-- `uva2ka` takes the user address `va` to `a`, the address of a byte of a physical page.
abbrev pub IsFound : (pgdir va : ℕ) → Kmem → ℕ → Type 0
IsFound pgdir va k a =
    (pa : ℕ) × ((uva2ka pgdir (page_round_down va) k ≡ ok pa)
      × ((0 < pa) × (a ≡ pa + va % page_size)))

-- Byte `i` goes to the address that `va + (i - from)` translates to.
abbrev pub IsSent : (pgdir va from i : ℕ) → Kmem → List Chunk → Type 0
IsSent pgdir va from i k cs = (a : ℕ) × (IsFound pgdir (va + (i - from)) k a × Sends i a cs)

-- What comes first in a chain that returns.
pub bind-ok :
    {A B : Type 0} (m : Result A) (f : A → Result B) (b : B)
    → (m >>= f) ≡ ok b
    → (a : A) × ((m ≡ ok a) × (f a ≡ ok b))
bind-ok (ok a) f b e = (a, (refl, e))
bind-ok panic f b e = ground arith

-- The move of a round.
abbrev pub chunk_of : (pa va from len : ℕ) → Chunk
chunk_of pa va from len = record {
  dst = pa + (va - page_round_down va);
  from = from;
  len = chunk_len va len;
}

-- What a round that ends well says of its moves.
pub copy_chunk-ok :
    (more : Result (List Chunk × Bool)) (va from len pa : ℕ) (cs : List Chunk)
    → copy_chunk more va from len pa ≡ ok (cs, true)
    → (0 < pa)
      × ((cs' : List Chunk) × ((more ≡ ok (cs', true)) × (cs ≡ chunk_of pa va from len ∷ cs')))
unfolding copy_chunk
copy_chunk-ok (ok (cs', true)) va from len pa cs e = ground arith
copy_chunk-ok (ok (cs', false)) va from len pa cs e = ground arith
copy_chunk-ok panic va from len pa cs e = ground arith

-- The bytes of a round stay in the page and in the buffer.
pub chunk_len-le :
    (va len : ℕ) → (chunk_len va len ≤ len) × (va % page_size + chunk_len va len ≤ page_size)
chunk_len-le va len = ground arith

chunk_len-pos : (va len : ℕ) → 0 < len → 0 < chunk_len va len
chunk_len-pos va len h = ground arith

-- A round that does not reach the end of the buffer ends at the next page.
pub chunk_len-next :
    (va len : ℕ) → chunk_len va len < len → va + chunk_len va len ≡ page_round_down va + page_size
chunk_len-next va len h = ground arith

pub same_page :
    (va d : ℕ)
    → va % page_size + d < page_size
    → (page_round_down (va + d) ≡ page_round_down va) × ((va + d) % page_size ≡ va % page_size + d)
same_page va d h = omega (arith, h)

-- The bytes of the first round, and those of the others.
head-IsSent :
    (pgdir va from len pa i : ℕ) (k : Kmem) (cs : List Chunk)
    → uva2ka pgdir (page_round_down va) k ≡ ok pa
    → 0 < pa
    → from ≤ i
    → i < from + chunk_len va len
    → IsSent pgdir va from i k (chunk_of pa va from len ∷ cs)
head-IsSent pgdir va from len pa i k cs found pos low high =
    let (down, off) = same_page va (i - from) (omega (arith, chunk_len-le va len, low, high)) in
    (
      pa + va % page_size + (i - from),
      (
        (pa, (ap (λ u. uva2ka pgdir u k) down ∙ found, (pos, omega (arith, off)))),
        here low high (omega arith),
      ),
    )

tail-IsSent :
    (pgdir va from len i : ℕ) (k : Kmem) (c : Chunk) (cs : List Chunk)
    → va + len ≤ 2 ^ 32
    → from + chunk_len va len ≤ i
    → i < from + len
    → IsSent pgdir ((page_round_down va + page_size) % 2 ^ 32) (from + chunk_len va len) i k cs
    → IsSent pgdir va from i k (c ∷ cs)
tail-IsSent pgdir va from len i k c cs room low high (a, (found, sends)) = (
  a,
  (
    subst (λ u. IsFound pgdir u k a)
        (omega (arith, chunk_len-next va len (omega (arith, low, high)), room, low, high)) found,
    there sends,
  ),
)

-- The rounds after the first.
abbrev pub rest : (fuel pgdir va from len : ℕ) → Kmem → Result (List Chunk × Bool)
rest fuel pgdir va from len k =
    copyout_from fuel pgdir ((page_round_down va + page_size) % 2 ^ 32) (from + chunk_len va len)
      (len - chunk_len va len) k

abbrev pub round : (fuel pgdir va from len : ℕ) → Kmem → Result (List Chunk × Bool)
round fuel pgdir va from len k =
    uva2ka pgdir (page_round_down va) k >>= copy_chunk (rest fuel pgdir va from len k) va from len

-- The bytes that are left are below the same bound, and fewer.
pub left-room :
    (va len : ℕ)
    → va + len ≤ 2 ^ 32
    → chunk_len va len < len
    → (page_round_down va + page_size) % 2 ^ 32 + (len - chunk_len va len) ≤ 2 ^ 32
left-room va len h more = omega (arith, h, more, chunk_len-next va len more)

pub left-enough : (va len fuel : ℕ) → len ≤ suc fuel → 0 < len → len - chunk_len va len ≤ fuel
left-enough va len fuel h pos = omega (arith, h, chunk_len-pos va len pos)

below_or_past : (i n : ℕ) → (i < n) ⊎ (n ≤ i)
below_or_past i n = ground arith

pub round-eq :
    (fuel pgdir va from len : ℕ) (k : Kmem)
    → 0 < len
    → copyout_from (suc fuel) pgdir va from len k ≡ round fuel pgdir va from len k
unfolding copyout_from
round-eq fuel pgdir va from len k h =
    ap (λ t. if t then round fuel pgdir va from len k else ok ([], true)) (lt→ltb 0 len h)

no_bytes : (from len i : ℕ) → len ≤ 0 → from ≤ i → i < from + len → ⊥
no_bytes from len i h low high = omega (arith, h, low, high)

pub copyout_from-IsSent :
    (fuel pgdir va from len : ℕ) (k : Kmem) (cs : List Chunk)
    → va + len ≤ 2 ^ 32
    → len ≤ fuel
    → copyout_from fuel pgdir va from len k ≡ ok (cs, true)
    → (i : ℕ) → from ≤ i
    → i < from + len
    → IsSent pgdir va from i k cs
copyout_from-IsSent zero pgdir va from len k cs room enough e i low high =
    elim (no_bytes from len i enough low high) [ ]
copyout_from-IsSent (suc fuel) pgdir va from len k cs room enough e i low high =
    let (pa, (found, moved)) =
      bind-ok (uva2ka pgdir (page_round_down va) k)
        (copy_chunk (rest fuel pgdir va from len k) va from len) (cs, true)
        (sym (round-eq fuel pgdir va from len k (omega (arith, low, high))) ∙ e) in
    let (pos, (cs', (more, eq))) = copy_chunk-ok _ va from len pa cs moved in
    subst (IsSent pgdir va from i k) (sym eq) (elim (below_or_past i (from + chunk_len va len)) [
      | inl near ↦ head-IsSent pgdir va from len pa i k cs' found pos low near
      | inr far ↦ tail-IsSent pgdir va from len i k _ cs' room far high (
          copyout_from-IsSent fuel pgdir ((page_round_down va + page_size) % 2 ^ 32)
            (from + chunk_len va len) (len - chunk_len va len) k cs'
            (left-room va len room (omega (arith, low, high, far)))
            (left-enough va len fuel enough (omega (arith, low, high))) more i far
            (omega (arith, high, chunk_len-le va len)))
    ])
