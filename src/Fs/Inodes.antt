-- ===== src/Fs/Inodes.antt =====
-- Inodes on the disk and their copies: `ialloc`, `iupdate`, `ilock` and `iunlock`, kernel/fs.c of
-- "triple file system", with `struct dinode` of include/fs.h. The blocks of the state are those of the
-- inode's device.
pub mod Freeing
pub mod Truncating
pub mod Releasing
pub mod Emptied
pub mod Cache
pub mod Scanning
pub mod Distinct
pub mod Slices
pub mod Encoding
pub mod Updating
pub mod Allocating
mod Tests
mod FileTests
use operation_system_project.Prelude.{
  ℕ, zero, suc, ◌+◌, ◌-◌, ◌*◌, ◌/◌, ◌%◌, ◌^◌, Bool, true, false, ◌&&◌, not, Option, none, some,
  List, [], ◌∷◌, ◌++◌, get_or, drop, replicate, ltb, leb, ◌==◌, if◌then◌else◌, ok, panic,
}
use operation_system_project.Fs.{
  Block, Inode, Fs, M, pure, ◌>>=◌, ◌>>◌, fault, ndirect, nindirect, t_mirrored, bread, change,
  bwrite, slice, splice,
}
use operation_system_project.Fs.Blocks.{word_at, get_addr, set_addr}
use operation_system_project.Fs.Bitmap.{Superblock, inodes_per_block, readsb, bfree}

pub record Dinode : Type 0 where
  pub kind : ℕ
  pub major : ℕ
  pub minor : ℕ
  pub nlink : ℕ
  pub logical_size : ℕ
  pub addrs : List ℕ

-- `sizeof(struct dinode)`.
abbrev pub dinode_size : ℕ
dinode_size = 64

-- IBLOCK of fs.h, and the place of an inode in its block.
abbrev pub inode_block : ℕ → ℕ
inode_block i = i / inodes_per_block + 2

abbrev pub inode_offset : ℕ → ℕ
inode_offset i = i % inodes_per_block * dinode_size

-- The bytes of a `short` and of a `uint`, the least one first.
abbrev pub short_bytes : ℕ → List ℕ
short_bytes w = w % 256 ∷ w / 256 % 256 ∷ []

abbrev pub word_bytes : ℕ → List ℕ
word_bytes w = w % 256 ∷ w / 256 % 256 ∷ w / 65536 % 256 ∷ w / 16777216 % 256 ∷ []

abbrev pub words_bytes : List ℕ → List ℕ
words_bytes [] = []
words_bytes (w ∷ ws) = word_bytes w ++ words_bytes ws

abbrev pub read_words : List ℕ → List ℕ
read_words (a ∷ b ∷ c ∷ d ∷ bytes) = (a + 256 * b + 65536 * c + 16777216 * d) ∷ read_words bytes
read_words bytes = []

abbrev pub short_at : List ℕ → ℕ → ℕ
short_at bytes i = get_or bytes (2 * i) 0 + 256 * get_or bytes (2 * i + 1) 0

-- A `struct dinode` as its bytes, which its fields fill in this order.
unfoldable pub encode : Dinode → List ℕ
encode d =
    short_bytes d.kind
    ++ (short_bytes d.major
        ++ (short_bytes d.minor
            ++ (short_bytes d.nlink ++ (word_bytes d.logical_size ++ words_bytes d.addrs))))

unfoldable pub decode : List ℕ → Dinode
unfolding word_at
decode bytes = record {
  kind = short_at bytes 0;
  major = short_at bytes 1;
  minor = short_at bytes 2;
  nlink = short_at bytes 3;
  logical_size = word_at bytes 2;
  addrs = read_words (drop 12 bytes);
}

-- `(struct dinode*)bp->data + i%IPB`, read and written.
unfoldable pub read_dinode : ℕ → Block → Dinode
unfolding decode
read_dinode i d = decode (slice (inode_offset i) dinode_size d)

unfoldable pub write_dinode : ℕ → Dinode → Block → Block
unfolding encode
write_dinode i e d = splice (inode_offset i) dinode_size (encode e) d

-- The part of an inode that is on the disk.
abbrev pub disk_part : Inode → Dinode
disk_part ip = record {
  kind = ip.kind;
  major = ip.major;
  minor = ip.minor;
  nlink = ip.nlink;
  logical_size = ip.logical_size;
  addrs = ip.addrs;
}

abbrev pub load_part : Inode → Dinode → Inode
load_part ip e = record ip {
  kind = e.kind;
  major = e.major;
  minor = e.minor;
  nlink = e.nlink;
  logical_size = e.logical_size;
  addrs = e.addrs;
}

-- A write of inode `i` to the disk.
unfoldable pub store_dinode : ℕ → Dinode → M (Unit {0})
unfolding change bwrite write_dinode
store_dinode i e = do change (inode_block i) (write_dinode i e); bwrite (inode_block i)

unfoldable pub iupdate : M (Unit {0})
unfolding store_dinode
iupdate s = store_dinode s.inode.inum (disk_part s.inode) s

abbrev pub set_inode : Inode → M (Unit {0})
set_inode ip s = ok (tt, record s { inode = ip })

-- The reading of an inode by `ilock`.
unfoldable pub load_inode : M (Unit {0})
unfolding bread read_dinode
load_inode s =
    let ip = s.inode in
    (bread (inode_block ip.inum) >>= λ d.
    (if (read_dinode ip.inum d).kind == 0
      then fault
      else set_inode (record (load_part ip (read_dinode ip.inum d)) { valid = true })))
      s

-- The result is `false` where the process goes to sleep, to try again when it is woken.
unfoldable pub ilock : M Bool
unfolding load_inode
ilock s =
    let ip = s.inode in
    let locked = record s { inode = record ip { busy = true } } in
    if ltb ip.ref 1
    then panic
    else (if ip.busy
        then ok (false, s)
        else (if ip.valid then pure true locked else (load_inode >> pure true) locked))

-- The wakeup of the processes that sleep is left out.
unfoldable pub iunlock : M (Unit {0})
iunlock s =
    if not s.inode.busy
    then panic
    else (if ltb s.inode.ref 1 then panic else set_inode (record (s.inode) { busy = false }) s)

-- A new inode: zeros, and the type.
abbrev pub new_dinode : ℕ → Dinode
new_dinode kind = record {
  kind = kind;
  major = 0;
  minor = 0;
  nlink = 0;
  logical_size = 0;
  addrs = replicate (ndirect + 1) 0;
}

-- The body of the loop of `ialloc`, with the rest of the loop, and the loop. The call of `iget`
-- with the number is left to the caller.
unfoldable pub try_inode : M ℕ → (i kind : ℕ) → M ℕ
unfolding bread read_dinode store_dinode
try_inode more i kind = bread (inode_block i) >>= λ d.
    if (read_dinode i d).kind == 0 then store_dinode i (new_dinode kind) >> pure i else more

unfoldable pub ialloc_from : (fuel i kind ninodes : ℕ) → M ℕ
unfolding try_inode
ialloc_from zero i kind ninodes = fault
ialloc_from (suc fuel) i kind ninodes =
    let more = ialloc_from fuel (i + 1) kind ninodes in
    if ltb i ninodes then try_inode more i kind else fault

unfoldable pub ialloc : ℕ → M ℕ
unfolding readsb ialloc_from
ialloc kind = do sb ← readsb; ialloc_from sb.ninodes 1 kind sb.ninodes
