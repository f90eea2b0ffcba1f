-- ===== src/Bio.antt =====
-- The buffer cache, kernel/bio.c of "triple file system". The list through `prev` and `next` is a
-- list of buffers, the one used last in front; a buffer is named by its index in `bcache.buf`.
pub mod View
pub mod Recycle
pub mod Read
mod Tests
use operation_system_project.Prelude.{
  ℕ, zero, suc, ◌+◌, ◌-◌, Bool, true, false, not, ◌&&◌, List, [], ◌∷◌, Option, none, some, ◌==◌,
  if◌then◌else◌, Result, ok, panic, ◌>>=◌,
}

-- `struct buf`; the flags are B_BUSY, B_VALID and B_DIRTY.
pub record Buf : Type 0 where
  pub id : ℕ
  pub dev : ℕ
  pub sector : ℕ
  pub busy : Bool
  pub valid : Bool
  pub dirty : Bool
  pub bytes : List ℕ

-- The disks: what each sector of each device holds.
abbrev pub Disk : Type 0
Disk = ℕ → ℕ → List ℕ

-- The device -1 of a buffer that has not been used.
abbrev pub no_dev : ℕ
no_dev = 0xFFFFFFFF

-- The buffers of `binit`: each goes to the front of the list.
unfoldable pub binit : ℕ → List Buf
binit zero = []
binit (suc n) =
    record {
      id = n;
      dev = no_dev;
      sector = 0;
      busy = false;
      valid = false;
      dirty = false;
      bytes = [];
    }
    ∷ binit n

abbrev pub holds : (dev sector : ℕ) → Buf → Bool
holds d s b = b.dev == d && b.sector == s

-- The first loop of `bget`: the buffer of a sector.
unfoldable pub find : (dev sector : ℕ) → List Buf → Option Buf
find d s [] = none
find d s (b ∷ bs) = let rest = find d s bs in if holds d s b then some b else rest

-- A change of the buffer with a given index.
unfoldable pub change : ℕ → (Buf → Buf) → List Buf → List Buf
change i g [] = []
change i g (b ∷ bs) = if b.id == i then g b ∷ bs else b ∷ change i g bs

-- A buffer given to a sector: `b->flags = B_BUSY`.
abbrev pub given : (dev sector : ℕ) → Buf → Buf
given d s b = record b { dev = d; sector = s; busy = true; valid = false; dirty = false }

-- The second loop of `bget` at a buffer, after those behind it.
unfoldable pub recycle_at :
    (dev sector : ℕ) → Buf → List Buf → Option (ℕ × List Buf) → Option (ℕ × List Buf)
recycle_at d s b bs (some (i, bs')) = some (i, b ∷ bs')
recycle_at d s b bs none = if b.busy then none else some (b.id, given d s b ∷ bs)

-- That loop, from the end of the list: the first buffer that is not busy is given to the sector.
unfoldable pub recycle : (dev sector : ℕ) → List Buf → Option (ℕ × List Buf)
unfolding recycle_at
recycle d s [] = none
recycle d s (b ∷ bs) = recycle_at d s b bs (recycle d s bs)

-- What a pass of `bget` comes to: the buffer, or a sleep until it is released.
pub data Got : Type 0 where
  buffer : ℕ → List Buf → Got
  asleep : ℕ → Got

abbrev pub set_busy : Bool → Buf → Buf
set_busy f b = record b { busy = f }

unfoldable pub recycled : Option (ℕ × List Buf) → Result Got
recycled none = panic
recycled (some (i, bs)) = ok (buffer i bs)

unfoldable pub bget_found : (dev sector : ℕ) → List Buf → Option Buf → Result Got
unfolding recycled
bget_found d s bs none = recycled (recycle d s bs)
bget_found d s bs (some b) =
    if b.busy then ok (asleep b.id) else ok (buffer b.id (change b.id (set_busy true) bs))

unfoldable pub bget : (dev sector : ℕ) → List Buf → Result Got
unfolding bget_found
bget d s bs = bget_found d s bs (find d s bs)

-- `iderw` of a buffer that is not valid, when the driver is done: the sector is read.
abbrev pub read_in : Disk → Buf → Buf
read_in disk b =
    if b.valid then b else record b { bytes = disk b.dev b.sector; valid = true; dirty = false }

-- `bread`
unfoldable pub read_got : Disk → Got → Got
read_got disk (asleep i) = asleep i
read_got disk (buffer i bs) = buffer i (change i (read_in disk) bs)

unfoldable pub bread : Disk → (dev sector : ℕ) → List Buf → Result Got
unfolding read_got
bread disk d s bs = bget d s bs >>= λ g. ok (read_got disk g)

-- The buffer with a given index, and the others in their order.
unfoldable pub pick : ℕ → List Buf → Option Buf
pick i [] = none
pick i (b ∷ bs) = let rest = pick i bs in if b.id == i then some b else rest

unfoldable pub without : ℕ → List Buf → List Buf
without i [] = []
without i (b ∷ bs) = if b.id == i then bs else b ∷ without i bs

abbrev pub write_disk : Disk → (dev sector : ℕ) → List ℕ → Disk
write_disk disk d s w d' s' = if d' == d && s' == s then w else disk d' s'

-- `bwrite`, when the driver is done: the bytes are on the disk, and the buffer is valid.
unfoldable pub bwrite_picked : Disk → List Buf → Option Buf → Result (Disk × List Buf)
bwrite_picked disk bs none = panic
bwrite_picked disk bs (some b) =
    if b.busy
    then ok (
      write_disk disk b.dev b.sector b.bytes,
      change b.id (λ c. record c { valid = true; dirty = false }) bs,
    )
    else panic

unfoldable pub bwrite : Disk → ℕ → List Buf → Result (Disk × List Buf)
unfolding pick bwrite_picked
bwrite disk i bs = bwrite_picked disk bs (pick i bs)

-- `brelse`: the buffer goes to the front of the list, and is not busy any more.
unfoldable pub brelse_picked : List Buf → Option Buf → Result (List Buf)
brelse_picked bs none = panic
brelse_picked bs (some b) = if b.busy then ok (set_busy false b ∷ without b.id bs) else panic

unfoldable pub brelse : ℕ → List Buf → Result (List Buf)
unfolding pick brelse_picked without
brelse i bs = brelse_picked bs (pick i bs)
