-- ===== src/Fs.antt =====
-- The state of the file system of "triple file system": the inode at hand, the buffers and the
-- disk, and commands over them. `cached b` is the contents of the buffer that `bread` returns for
-- block `b`; a change of it is on the disk after `bwrite`. Buffers are not recycled, and a
-- process does not ask for a buffer that it holds.
pub mod Blocks
pub mod Data
pub mod Write
pub mod Mirror
pub mod Copies
pub mod Heal
pub mod Agree
pub mod OneBlock
pub mod RoundTrip
pub mod Names
pub mod Compare
pub mod Bitmap
pub mod Inodes
mod Tests
use operation_system_project.Prelude.{
  ℕ, ◌+◌, ◌≡◌, List, ◌++◌, take, drop, ◌==◌, Bool, if◌then◌else◌, Result, ok, panic,
}

abbrev pub Block : Type 0
Block = List ℕ

-- BSIZE, NDIRECT, NINDIRECT of fs.h.
abbrev pub block_size : ℕ
block_size = 512

abbrev pub ndirect : ℕ
ndirect = 12

abbrev pub nindirect : ℕ
nindirect = 128

-- T_DEV and T_MIRRORED of stat.h.
abbrev pub t_dev : ℕ
t_dev = 3

abbrev pub t_mirrored : ℕ
t_mirrored = 4

-- `struct inode` of file.h; `busy` and `valid` are the bits of its flags. A `short` is kept as the
-- number of its 16 bits.
pub record Inode : Type 0 where
  pub dev : ℕ
  pub inum : ℕ
  pub ref : ℕ
  pub busy : Bool
  pub valid : Bool
  pub kind : ℕ
  pub major : ℕ
  pub minor : ℕ
  pub nlink : ℕ
  pub logical_size : ℕ
  pub addrs : List ℕ

pub record Fs : Type 0 where
  pub inode : Inode
  pub cached : ℕ → Block
  pub disk : ℕ → Block

-- A command runs, or panics.
abbrev pub M : Type 0 → Type 0
M A = Fs → Result (A × Fs)

abbrev pub pure : {A : Type 0} → A → M A
pure a s = ok (a, s)

abbrev pub and_then : {A B : Type 0} → Result (A × Fs) → (A → M B) → Result (B × Fs)
and_then (ok (a, s)) f = f a s
and_then panic f = panic

infixl 5 ◌>>=◌ ◌>>◌
abbrev pub ◌>>=◌ : {A B : Type 0} → M A → (A → M B) → M B
◌>>=◌ m f s = and_then (m s) f

abbrev pub ◌>>◌ : {B : Type 0} → M (Unit {0}) → M B → M B
m >> k = m >>= λ _. k

abbrev pub fault : {A : Type 0} → M A
fault s = panic

abbrev pub update : (ℕ → Block) → ℕ → Block → ℕ → Block
update f b d c = if c == b then d else f c

unfoldable pub bread : ℕ → M Block
bread b s = ok (s.cached b, s)

-- A change of the bytes of a buffer that is held.
unfoldable pub change : ℕ → (Block → Block) → M (Unit {0})
change b f s = ok (tt, record s { cached = update s.cached b (f (s.cached b)) })

unfoldable pub bwrite : ℕ → M (Unit {0})
bwrite b s = ok (tt, record s { disk = update s.disk b (s.cached b) })

-- `memmove(dst, data + o, m)` and `memmove(data + o, src, m)`.
abbrev pub slice : ℕ → ℕ → Block → List ℕ
slice o m d = take m (drop o d)

abbrev pub splice : ℕ → ℕ → List ℕ → Block → Block
splice o m src d = take o d ++ (take m src ++ drop (o + m) d)
