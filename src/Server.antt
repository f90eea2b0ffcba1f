-- ===== src/Server.antt =====
-- The web server of "sever_client_system": the buffer of accepted requests, cs537.c (put, get), and
-- the two threads' use of it under the lock, server.c (producer, consumer). The arrays valid,
-- buffer, fileinfo, size_file and size_filename have one length and are one list of slots. A
-- slot keeps the address of the line that was read, not the line: server.c reads the lines into
-- arrays that it uses again, and what an array holds later is not modelled.
pub mod Smallest
pub mod Valid
pub mod Pending
pub mod Runs
pub mod Http
mod Tests
use operation_system_project.Prelude.{
  ℕ, zero, suc, ◌+◌, ◌-◌, Bool, true, false, List, [], ◌∷◌, Option, none, some, length, get_or,
  modify, ◌==◌, if◌then◌else◌,
}
use operation_system_project.Prelude.Int.{ℤ, pos, negsuc, ltb_ℤ, eqb_ℤ}

-- A request: the connection, the address of the array with its line, and the two sizes; the size of
-- the file is an `int` of any sign.
pub record Request : Type 0 where
  pub fd : ℕ
  pub line : ℕ
  pub file_size : ℤ
  pub filename_size : ℕ

-- An index of the arrays.
pub record Slot : Type 0 where
  pub valid : Bool
  pub request : Request

-- `struct server_t`, the fields of the buffer; `buffer_sz` is the number of slots.
pub record Buffer : Type 0 where
  pub slots : List Slot
  pub buff_count : ℕ

abbrev pub buffer_size : Buffer → ℕ
buffer_size b = length b.slots

-- The loop of `put`: the request goes into the first slot that is not valid.
unfoldable pub put_slots : Request → List Slot → List Slot
put_slots r [] = []
put_slots r (s ∷ ss) =
    let rest = put_slots r ss in
    if s.valid then s ∷ rest else record { valid = true; request = r } ∷ ss

-- Whether the loop of `put` reaches its `break`.
unfoldable pub has_room : List Slot → Bool
has_room [] = false
has_room (s ∷ ss) = let rest = has_room ss in if s.valid then rest else true

unfoldable pub put : Request → Buffer → Buffer
put r b = record {
  slots = put_slots r b.slots;
  buff_count = if has_room b.slots then b.buff_count + 1 else b.buff_count;
}

-- `temp_val` and `temp_ind`, and what they are before the loop; -1 stands for no value.
abbrev pub Best : Type 0
Best = ℤ × ℕ

abbrev pub no_value : ℤ
no_value = negsuc 0

abbrev pub no_best : Best
no_best = (no_value, 0)

-- The body of the loop of `get` at a valid slot.
unfoldable pub better : ℤ → (i : ℕ) → Best → Best
better size i (val, ind) =
    if eqb_ℤ val no_value then (size, i) else (if ltb_ℤ size val then (size, i) else (val, ind))

-- The loop of `get` from index `i` on.
unfoldable pub scan : List Slot → (i : ℕ) → Best → Best
unfolding better
scan [] i best = best
scan (s ∷ ss) i best = scan ss (i + 1) (if s.valid then better s.request.file_size i best else best)

abbrev pub empty_slot : Slot
empty_slot = record {
  valid = false;
  request = record { fd = 0; line = 0; file_size = pos 0; filename_size = 0 };
}

abbrev pub clear_slot : Slot → Slot
clear_slot s = record s { valid = false }

unfoldable pub take_at : ℕ → Buffer → Request × Buffer
take_at i b = (
  (get_or b.slots i empty_slot).request,
  record { slots = modify b.slots i clear_slot; buff_count = b.buff_count - 1 },
)

unfoldable pub get : Buffer → Request × Buffer
unfolding take_at
get b = take_at (scan b.slots 0 no_best).1 b

-- A round of `producer` and of `consumer` under the lock; `none` is a wait on the condition.
unfoldable pub producer : Request → Buffer → Option Buffer
producer r b = if b.buff_count == buffer_size b then none else some (put r b)

unfoldable pub consumer : Buffer → Option (Request × Buffer)
consumer b = if b.buff_count == 0 then none else some (get b)

-- The slots that `main` sets up: none is valid.
unfoldable pub clear_slots : ℕ → List Slot
clear_slots zero = []
clear_slots (suc n) = empty_slot ∷ clear_slots n

unfoldable pub start : ℕ → Buffer
unfolding clear_slots
start n = record { slots = clear_slots n; buff_count = 0 }
