-- ===== src/Fs/Inodes/Encoding.antt =====
-- The bytes of an inode on the disk and back: kernel/fs.c and include/fs.h of "triple file system".
use operation_system_project.Prelude.{
  ℕ, ◌+◌, ◌*◌, ◌/◌, ◌%◌, ◌^◌, ◌≡◌, ◌≢◌, ◌≤◌, ◌<◌, ◌⊎◌, inl, inr, refl, ap, ◌∙◌, List, [], ◌∷◌,
  length, All, arith,
}
use operation_system_project.Fs.{Block, block_size, ndirect, slice, splice}
use operation_system_project.Fs.Blocks.{word_at}
use operation_system_project.Fs.Inodes.{
  Dinode, dinode_size, inode_offset, words_bytes, read_words, encode, decode, read_dinode,
  write_dinode,
}
use operation_system_project.Fs.Inodes.Slices.{slice-splice_self, slice_before, slice_behind}

-- Every field fits, and there is an address for each slot.
pub record IsFitting (e : Dinode) : Type 0 where
  pub kind : e.kind < 65536
  pub major : e.major < 65536
  pub minor : e.minor < 65536
  pub nlink : e.nlink < 65536
  pub logical_size : e.logical_size < 2 ^ 32
  pub addrs : All (λ a. a < 2 ^ 32) e.addrs
  pub slots : length e.addrs ≡ ndirect + 1

short_back : (w : ℕ) → w < 65536 → w % 256 + 256 * (w / 256 % 256) ≡ w
short_back w h = omega (arith, h)

word_back :
    (w : ℕ)
    → w < 2 ^ 32
    → w % 256 + 256 * (w / 256 % 256) + 65536 * (w / 65536 % 256) + 16777216 * (w / 16777216 % 256)
      ≡ w
word_back w h = omega (arith, h)

read_words-words_bytes : (ws : List ℕ) → All (λ a. a < 2 ^ 32) ws → read_words (words_bytes ws) ≡ ws
read_words-words_bytes [] h = refl
read_words-words_bytes (w ∷ ws) h = rw (word_back w h.0, read_words-words_bytes ws h.1)

decode-encode : (e : Dinode) → IsFitting e → decode (encode e) ≡ e
unfolding decode encode word_at
decode-encode e h = rw (
  short_back e.kind h.kind,
  short_back e.major h.major,
  short_back e.minor h.minor,
  short_back e.nlink h.nlink,
  word_back e.logical_size h.logical_size,
  read_words-words_bytes e.addrs h.addrs,
)

length-words_bytes : (ws : List ℕ) → length (words_bytes ws) ≡ 4 * length ws
length-words_bytes [] = refl
length-words_bytes (w ∷ ws) = omega (arith, length-words_bytes ws)

length-encode : (e : Dinode) → IsFitting e → length (encode e) ≡ dinode_size
unfolding encode
length-encode e h = omega (arith, length-words_bytes e.addrs, h.slots)

inside : (i : ℕ) (d : Block) → length d ≡ block_size → inode_offset i ≤ length d
inside i d e = omega (arith, e)

inside_end : (i : ℕ) (d : Block) → length d ≡ block_size → inode_offset i + dinode_size ≤ length d
inside_end i d e = omega (arith, e)

pub read_dinode-write_dinode_self :
    (i : ℕ) (e : Dinode) (d : Block)
    → IsFitting e
    → length d ≡ block_size
    → read_dinode i (write_dinode i e d) ≡ e
unfolding read_dinode write_dinode
read_dinode-write_dinode_self i e d h sized =
    ap decode (
      slice-splice_self (inode_offset i) dinode_size (encode e) d (inside i d sized)
        (length-encode e h))
    ∙ decode-encode e h

sides :
    (i j : ℕ)
    → i % 8 ≢ j % 8
    → (inode_offset j + dinode_size ≤ inode_offset i)
      ⊎ (inode_offset i + dinode_size ≤ inode_offset j)
sides i j ne = ground arith

pub read_dinode-write_dinode_ne :
    (i j : ℕ) (e : Dinode) (d : Block)
    → IsFitting e
    → length d ≡ block_size
    → i % 8 ≢ j % 8
    → read_dinode j (write_dinode i e d) ≡ read_dinode j d
unfolding read_dinode write_dinode
read_dinode-write_dinode_ne i j e d h sized ne = ap decode (by_side (sides i j ne))
  where
    by_side :
        (inode_offset j + dinode_size ≤ inode_offset i)
          ⊎ (inode_offset i + dinode_size ≤ inode_offset j)
        → slice (inode_offset j) dinode_size (splice (inode_offset i) dinode_size (encode e) d)
          ≡ slice (inode_offset j) dinode_size d
    by_side (inl l) =
        slice_before (inode_offset j) dinode_size (inode_offset i) d _ l (inside i d sized)
    by_side (inr l) =
        slice_behind (inode_offset j) dinode_size (inode_offset i) dinode_size (encode e) d l
          (length-encode e h) (inside_end i d sized)
