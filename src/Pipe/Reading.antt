-- ===== src/Pipe/Reading.antt =====
-- What one step of `piperead` does to the queue of bytes.
use operation_system_project.Prelude.{
  ℕ, zero, suc, ◌%◌, ◌≡◌, refl, sym, ap, ◌∙◌, Bool, true, false, ◌&&◌, List, [], ◌∷◌, take, drop,
  get_or, if◌then◌else◌, Bool-cases, inl, inr,
}
use operation_system_project.Pipe.{
  Pipe, Chan, nwrite_chan, pipe_size, is_empty, skip, copy, ReadStop, got, failed, waiting, read,
}
use operation_system_project.Pipe.Inv.{IsValid, used-is_empty, skip-IsValid}
use operation_system_project.Pipe.Ring.{window, contents, contents-skip}

-- An empty pipe holds no bytes.
contents-nil : {p : Pipe} → IsValid p → is_empty p ≡ true → contents p ≡ []
contents-nil {p} v h = ap (window p.buf p.nread) {y = 0} (used-is_empty v h)

record Copied (n : ℕ) (p : Pipe) (r : List ℕ × Pipe) : Type 0 where
  valid : IsValid r.1
  taken : r.0 ≡ take n (contents p)
  rest : contents r.1 ≡ drop n (contents p)
  ends : (r.1.readopen ≡ p.readopen) × (r.1.writeopen ≡ p.writeopen)

Copied-skip :
    (n : ℕ) {p : Pipe} {r : List ℕ × Pipe}
    → IsValid p
    → is_empty p ≡ false
    → Copied n (skip p) r
    → Copied (suc n) p (get_or p.buf (p.nread % pipe_size) 0 ∷ r.0, r.1)
unfolding skip
Copied-skip n {p} v h c = record {
  valid = c.valid;
  taken =
      ap (λ xs. get_or p.buf (p.nread % pipe_size) 0 ∷ xs) c.taken
      ∙ ap (take (suc n)) (sym (contents-skip v h));
  rest = c.rest ∙ ap (drop (suc n)) (sym (contents-skip v h));
  ends = c.ends;
}

copy-Copied : (n : ℕ) {p : Pipe} → IsValid p → Copied n p (copy n p)
unfolding copy
copy-Copied zero v = record { valid = v; taken = refl; rest = refl; ends = (refl, refl) }
copy-Copied (suc n) {p} v = elim (Bool-cases (is_empty p)) [
  | inl h ↦ rw h (record {
    valid = v;
    taken = rw (contents-nil v h);
    rest = rw (contents-nil v h);
    ends = (refl, refl);
  })
  | inr h ↦ rw h (Copied-skip n v h (copy-Copied n (skip-IsValid v h)))
]

-- An empty pipe that may still be written to.
abbrev pub must_wait : Pipe → Bool
must_wait p = is_empty p && p.writeopen

pub record IsRead (killed : Bool) (p : Pipe) (n : ℕ) (r : ReadStop × List Chan × Pipe)
    : Type 0 where
  pub valid : IsValid r.2
  pub stop :
      r.0
      ≡ (if must_wait p then (if killed then failed else waiting) else got (take n (contents p)))
  pub bytes : contents r.2 ≡ (if must_wait p then contents p else drop n (contents p))
  pub wakes : r.1 ≡ (if must_wait p then [] else nwrite_chan ∷ [])
  pub ends : (r.2.readopen ≡ p.readopen) × (r.2.writeopen ≡ p.writeopen)

must_wait-IsRead :
    (killed : Bool) {p : Pipe} (n : ℕ)
    → IsValid p
    → must_wait p ≡ true
    → IsRead killed p n (if killed then (failed, [], p) else (waiting, [], p))
must_wait-IsRead true n v h = record {
  valid = v;
  stop = rw h refl;
  bytes = rw h refl;
  wakes = rw h refl;
  ends = (refl, refl);
}
must_wait-IsRead false n v h = record {
  valid = v;
  stop = rw h refl;
  bytes = rw h refl;
  wakes = rw h refl;
  ends = (refl, refl);
}

-- A step of `piperead` on a valid pipe that is empty and open for writing fails if the process is
-- killed and sleeps otherwise, and changes nothing. In any other case it returns the oldest n
-- bytes, or all there are, takes exactly these out of the pipe and wakes the writers. The pipe
-- stays valid and its ends as they are.
pub read-IsRead :
    (killed : Bool) {p : Pipe} (n : ℕ) → IsValid p → IsRead killed p n (read killed p n)
unfolding read
read-IsRead killed {p} n v = elim (Bool-cases (must_wait p)) [
  | inl h ↦ rw h (must_wait-IsRead killed n v h)
  | inr h ↦
      let c = copy-Copied n v in
      rw h (record {
        valid = c.valid;
        stop = rw h (ap got c.taken);
        bytes = rw h c.rest;
        wakes = rw h refl;
        ends = c.ends;
      })
]
