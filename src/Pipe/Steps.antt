-- ===== src/Pipe/Steps.antt =====
-- What one step of `pipewrite` and of `piperead` does to the queue of bytes.
use operation_system_project.Prelude.{
  ℕ, suc, ◌-◌, ◌≡◌, refl, sym, ap, ◌∙◌, Bool, true, false, not, ◌||◌, List, [], ◌∷◌, ◌++◌,
  append-nil, append_assoc, length, take-nil, take, drop, leb, if◌then◌else◌, Bool-cases, inl, inr,
  arith,
}
use operation_system_project.Pipe.{
  Pipe, Chan, nread_chan, pipe_size, full, put, WriteStop, finished, failed, waiting, write,
}
use operation_system_project.Pipe.Inv.{
  used, IsValid, used-full, used-not_full, put-IsValid, used-put,
}
use operation_system_project.Pipe.Ring.{contents, contents-put}

-- The bytes that still fit.
abbrev pub room : Pipe → ℕ
room p = pipe_size - used p

-- How a step ends that has room for `r` bytes of `src`; `broken` is the test for giving up.
abbrev pub write_stop : Bool → ℕ → List ℕ → WriteStop
write_stop broken r src =
    if leb (length src) r then finished else (if broken then failed else waiting (drop r src))

write_stop-cons :
    (broken : Bool) (r b : ℕ) (bs : List ℕ)
    → write_stop broken r bs ≡ write_stop broken (suc r) (b ∷ bs)
write_stop-cons broken r b bs = ground arith

-- Nobody reads any more, or the writer is killed.
abbrev pub is_broken : Bool → Pipe → Bool
is_broken killed p = not p.readopen || killed

abbrev pub woken_by : WriteStop → List Chan
woken_by finished = nread_chan ∷ []
woken_by failed = []
woken_by (waiting rest) = nread_chan ∷ []

pub record Written (killed : Bool) (p : Pipe) (src : List ℕ) (r : WriteStop × List Chan × Pipe)
    : Type 0 where
  pub valid : IsValid r.2
  pub bytes : contents r.2 ≡ contents p ++ take (room p) src
  pub stop : r.0 ≡ write_stop (is_broken killed p) (room p) src
  pub wakes : r.1 ≡ woken_by r.0
  pub ends : (r.2.readopen ≡ p.readopen) × (r.2.writeopen ≡ p.writeopen)

Written-full :
    (killed : Bool) {p : Pipe} (b : ℕ) (bs : List ℕ)
    → IsValid p
    → full p ≡ true
    → Written killed p (b ∷ bs) (write killed p (b ∷ bs))
unfolding write
Written-full killed {p} b bs v h =
    let e : room p ≡ 0 = omega (arith, used-full v h) in
    rw h (ground (arith, append-nil (contents p)))

Written-put :
    (killed : Bool) {p : Pipe} (b : ℕ) (bs : List ℕ)
    → IsValid p
    → full p ≡ false
    → Written killed (put p b) bs (write killed (put p b) bs)
    → Written killed p (b ∷ bs) (write killed (put p b) bs)
unfolding put
Written-put killed {p} b bs v h w =
    let e : room p ≡ suc (room (put p b)) = omega (arith, used-put b v h, used-not_full v h) in
    record {
      valid = w.valid;
      bytes =
          w.bytes
          ∙ rw (contents-put b v h, append_assoc) (ap (λ r. contents p ++ take r (b ∷ bs)) (sym e));
      stop =
          w.stop
          ∙ write_stop-cons (is_broken killed p) (room (put p b)) b bs
          ∙ ap (λ r. write_stop (is_broken killed p) r (b ∷ bs)) (sym e);
      wakes = w.wakes;
      ends = w.ends;
    }

-- A step of `pipewrite` into a valid pipe appends as many bytes as there is room for, in order,
-- and keeps the pipe valid and its ends as they are. It returns n if all bytes went in; else it
-- fails if the read end is closed or the process is killed, and otherwise sleeps with exactly the
-- bytes left that did not fit. Readers are woken unless it fails.
pub write-Written :
    (killed : Bool) (src : List ℕ) {p : Pipe}
    → IsValid p
    → Written killed p src (write killed p src)
unfolding write
write-Written killed [] {p} v = record {
  valid = v;
  bytes = rw (take-nil, append-nil);
  stop = ground arith;
  wakes = refl;
  ends = (refl, refl);
}
write-Written killed (b ∷ bs) {p} v = elim (Bool-cases (full p)) [
  | inl h ↦ Written-full killed b bs v h
  | inr h ↦
      rw h (Written-put killed b bs v h (write-Written killed bs {p = put p b} (put-IsValid b v h)))
]
