-- ===== src/Pipe/Ring.antt =====
-- A valid pipe as the queue of the bytes in it: what one step of `pipewrite` and of `piperead` does.
use mathlib.Core.Path.{ap₂}
use operation_system_project.Prelude.{
  ℕ, zero, suc, ◌-◌, ◌%◌, ◌^◌, ◌<◌, ◌≡◌, ap, ◌∙◌, false, List, [], ◌∷◌, ◌++◌, length, get_or, set,
  get_or-set_self, get_or-set_ne, arith,
}
use operation_system_project.Pipe.{Pipe, pipe_size, add32, full, put, is_empty, skip}
use operation_system_project.Pipe.Inv.{
  used, IsValid, used-not_full, used-not_empty, used-put, used-skip,
}

-- The `n` bytes from counter `h` on.
abbrev pub window : List ℕ → ℕ → ℕ → List ℕ
window buf h zero = []
window buf h (suc n) = get_or buf (h % pipe_size) 0 ∷ window buf (add32 h 1) n

-- The bytes in the pipe, oldest first.
abbrev pub contents : Pipe → List ℕ
contents p = window p.buf p.nread (used p)

-- Storing just behind a window extends it by the byte.
window-set :
    (buf : List ℕ) (b n h i : ℕ)
    → length buf ≡ pipe_size
    → n < pipe_size
    → h < 2 ^ 32
    → i ≡ add32 h n
    → window (set buf (i % pipe_size) b) h (suc n) ≡ window buf h n ++ (b ∷ [])
window-set buf b zero h i len hn hh e =
    ap (λ x. x ∷ [])
      (rw e (
        ap (λ j. get_or (set buf (add32 h 0 % pipe_size) b) j 0) shift
        ∙ get_or-set_self buf (add32 h 0 % pipe_size) b 0 (omega arith)))
  where
    shift : h % pipe_size ≡ add32 h 0 % pipe_size
    shift = omega arith
window-set buf b (suc n) h i len hn hh e =
    ap₂ ◌∷◌ (get_or-set_ne buf (i % pipe_size) (h % pipe_size) b 0 (omega arith))
      (window-set buf b n (add32 h 1) i len (omega arith) (omega arith) (omega arith))

pub contents-put :
    {p : Pipe} (b : ℕ) → IsValid p → full p ≡ false → contents (put p b) ≡ contents p ++ (b ∷ [])
unfolding put
contents-put {p} b v h =
    ap (window (put p b).buf p.nread) {y = suc (used p)} (omega (arith, used-put b v h))
    ∙ window-set p.buf b (used p) p.nread p.nwrite v.storage (used-not_full v h) v.nread_in
        (omega arith)

pub window_pos :
    (buf : List ℕ) (h n : ℕ)
    → 0 < n
    → window buf h n ≡ get_or buf (h % pipe_size) 0 ∷ window buf (add32 h 1) (n - 1)
window_pos buf h zero pos = elim pos [ ]
window_pos buf h (suc n) pos = ap (λ k. window buf h (suc k)) (omega arith)

pub contents-skip :
    {p : Pipe}
    → IsValid p
    → is_empty p ≡ false
    → contents p ≡ get_or p.buf (p.nread % pipe_size) 0 ∷ contents (skip p)
unfolding skip
contents-skip {p} v h =
    window_pos p.buf p.nread (used p) (used-not_empty v h)
    ∙ ap (λ n. get_or p.buf (p.nread % pipe_size) 0 ∷ window p.buf (add32 p.nread 1) n)
        (omega (arith, used-skip v h))
