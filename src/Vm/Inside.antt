-- ===== src/Vm/Inside.antt =====
-- That `copyout` moves no other bytes: kernel/vm.c of "memory model and xv6 kernel modify ".
use operation_system_project.Prelude.{
  ℕ, zero, suc, ◌+◌, ◌-◌, ◌%◌, ◌^◌, ◌≡◌, ◌≤◌, ◌<◌, ◌⊎◌, inl, inr, refl, sym, subst, ap, ◌∙◌, Bool,
  true, false, List, [], ◌∷◌, if◌then◌else◌, Result, ok, arith, ltb,
}
use operation_system_project.Kalloc.{Kmem, page_size}
use operation_system_project.Vm.{page_round_down, uva2ka}
use operation_system_project.Vm.Process.{Chunk, chunk_len, copy_chunk, copyout_from}
use operation_system_project.Vm.Chunks.{
  Sends, here, there, IsFound, bind-ok, chunk_of, copy_chunk-ok, chunk_len-le, chunk_len-next,
  same_page, rest, round, left-room, left-enough, round-eq,
}

-- A move of a round, or of the others.
Sends-cases :
    (i a : ℕ) (c : Chunk) (cs : List Chunk)
    → Sends i a (c ∷ cs)
    → ((c.from ≤ i) × ((i < c.from + c.len) × (a ≡ c.dst + (i - c.from)))) ⊎ Sends i a cs
Sends-cases i a c cs (here low high e) = inl (low, (high, e))
Sends-cases i a c cs (there s) = inr s

abbrev done : List Chunk → Result (List Chunk × Bool)
done cs = ok (cs, true)

no-Sends : (i a : ℕ) (cs : List Chunk) → done [] ≡ done cs → Sends i a cs → ⊥
no-Sends i a [] e s = elim s [ ]
no-Sends i a (c ∷ cs) e s = cc

-- What the moves from byte `from` on do stays in the buffer, and goes where the address translates.
abbrev pub IsInside : (pgdir va from len i : ℕ) → Kmem → ℕ → Type 0
IsInside pgdir va from len i k a =
    (from ≤ i) × ((i < from + len) × IsFound pgdir (va + (i - from)) k a)

head-IsInside :
    (pgdir va from len pa i a : ℕ) (k : Kmem)
    → uva2ka pgdir (page_round_down va) k ≡ ok pa
    → 0 < pa
    → from ≤ i
    → i < from + chunk_len va len
    → a ≡ pa + (va - page_round_down va) + (i - from)
    → IsInside pgdir va from len i k a
head-IsInside pgdir va from len pa i a k found pos low high e =
    let (down, off) = same_page va (i - from) (omega (arith, chunk_len-le va len, low, high)) in
    (
      low,
      (
        omega (arith, high, chunk_len-le va len),
        (pa, (ap (λ u. uva2ka pgdir u k) down ∙ found, (pos, omega (arith, off, e)))),
      ),
    )

tail-IsInside :
    (pgdir va from len i a : ℕ) (k : Kmem)
    → va + len ≤ 2 ^ 32
    → IsInside pgdir
        ((page_round_down va + page_size) % 2 ^ 32)
        (from + chunk_len va len)
        (len - chunk_len va len)
        i
        k
        a
    → IsInside pgdir va from len i k a
tail-IsInside pgdir va from len i a k room (low, (high, found)) = (
  omega (arith, low),
  (
    omega (arith, low, high),
    subst (λ u. IsFound pgdir u k a)
        (omega (arith, chunk_len-next va len (omega (arith, low, high)), room, low, high)) found,
  ),
)

none_left :
    (fuel pgdir va from len : ℕ) (k : Kmem)
    → len ≡ 0
    → copyout_from fuel pgdir va from len k ≡ ok ([], true)
unfolding copyout_from
none_left zero pgdir va from len k h = refl
none_left (suc fuel) pgdir va from len k h =
    ap (λ t. if t then round fuel pgdir va from len k else ok ([], true)) (nothing len h)
  where
    nothing : (n : ℕ) → n ≡ 0 → ltb 0 n ≡ false
    nothing n h = ground arith

zero_or_more : (n : ℕ) → (n ≡ 0) ⊎ (0 < n)
zero_or_more n = ground arith

more_left :
    (fuel pgdir va from len i a : ℕ) (k : Kmem) (cs : List Chunk)
    → rest fuel pgdir va from len k ≡ ok (cs, true)
    → Sends i a cs
    → chunk_len va len < len
more_left fuel pgdir va from len i a k cs e s = elim (zero_or_more (len - chunk_len va len)) [
  | inl z ↦ elim (no-Sends i a cs (sym (none_left fuel pgdir _ _ _ k z) ∙ e) s) [ ]
  | inr h ↦ omega (arith, h)
]

pub copyout_from-IsInside :
    (fuel pgdir va from len : ℕ) (k : Kmem) (cs : List Chunk)
    → va + len ≤ 2 ^ 32
    → len ≤ fuel
    → copyout_from fuel pgdir va from len k ≡ ok (cs, true)
    → (i a : ℕ) → Sends i a cs
    → IsInside pgdir va from len i k a
copyout_from-IsInside zero pgdir va from len k cs room enough e i a s =
    elim (no-Sends i a cs (sym (none_left 0 pgdir va from len k (omega (arith, enough))) ∙ e) s) [ ]
copyout_from-IsInside (suc fuel) pgdir va from len k cs room enough e i a s =
    elim (zero_or_more len) [
      | inl z ↦ elim (no-Sends i a cs (sym (none_left (suc fuel) pgdir va from len k z) ∙ e) s) [ ]
      | inr some_left ↦
          let (pa, (found, moved)) =
            bind-ok (uva2ka pgdir (page_round_down va) k)
              (copy_chunk (rest fuel pgdir va from len k) va from len) (cs, true)
              (sym (round-eq fuel pgdir va from len k some_left) ∙ e) in
          let (pos, (cs', (more, eq))) = copy_chunk-ok _ va from len pa cs moved in
          elim (Sends-cases i a (chunk_of pa va from len) cs' (subst (Sends i a) eq s)) [
            | inl (low, (high, at)) ↦ head-IsInside pgdir va from len pa i a k found pos low high at
            | inr later ↦ tail-IsInside pgdir va from len i a k room (
                copyout_from-IsInside fuel pgdir ((page_round_down va + page_size) % 2 ^ 32)
                  (from + chunk_len va len) (len - chunk_len va len) k cs'
                  (left-room va len room (more_left fuel pgdir va from len i a k cs' more later))
                  (left-enough va len fuel enough some_left) more i a later)
          ]
    ]
