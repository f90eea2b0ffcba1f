-- ===== src/Fs/Tests.antt =====
-- A mirrored file of one block, and runs of the routines on it.
use operation_system_project.Prelude.{
  List, take, false, true, ◌↔◌, ℕ, ◌≡◌, refl, [], ◌∷◌, Option, none, some, ◌==◌, if◌then◌else◌,
  arith, Returns,
}
use operation_system_project.Str.{strncpy}
use operation_system_project.Fs.{Block, Fs, M, fault, t_mirrored, ◌>>◌}
use operation_system_project.Fs.Data.{readi}
use operation_system_project.Fs.Write.{write_round}
use operation_system_project.Fs.Mirror.{IsMapped}
use operation_system_project.Fs.Copies.{IsWritten, write_round-IsWritten}
use operation_system_project.Fs.OneBlock.{readi-one_block}
use operation_system_project.Fs.Agree.{IsRead}
use operation_system_project.Fs.Names.{
  dir_size, namecmp_differs, put_name, IsCopied, skipelem, skipelem-elem,
}
use operation_system_project.Fs.Compare.{namecmp_iff}
use operation_system_project.Fs.RoundTrip.{readi-write_round}

-- A disk without a free block.
abbrev full_disk : M ℕ
full_disk = fault

abbrev no_device {ℓ} : {A : Type ℓ} → ℕ → Option A
no_device major = none

abbrev three_blocks : (b₁ b₂ b₃ : Block) → ℕ → Block
three_blocks b₁ b₂ b₃ b = if b == 30 then b₁ else if b == 31 then b₂ else b₃

-- A mirrored file of three bytes with the given copies in blocks 30, 31 and 32.
abbrev mirrored_file : (b₁ b₂ b₃ : Block) → Fs
mirrored_file b₁ b₂ b₃ = record {
  inode = record {
    dev = 1;
    inum = 3;
    ref = 1;
    busy = true;
    valid = true;
    kind = t_mirrored;
    major = 0;
    minor = 0;
    nlink = 1;
    logical_size = 3;
    addrs = 30 ∷ 31 ∷ 32 ∷ [];
  };
  cached = three_blocks b₁ b₂ b₃;
  disk = three_blocks b₁ b₂ b₃;
}

abbrev good : Block
good = 71 ∷ 72 ∷ 73 ∷ []

abbrev bad : Block
bad = 71 ∷ 9 ∷ 73 ∷ []

mirrored_file-IsMapped : (b₁ b₂ b₃ : Block) → IsMapped (mirrored_file b₁ b₂ b₃).inode 0
mirrored_file-IsMapped b₁ b₂ b₃ = record {
  direct = omega arith;
  first = omega arith;
  second = omega arith;
  third = omega arith;
  apart12 = λ e. omega (arith, e);
  apart13 = λ e. omega (arith, e);
  apart23 = λ e. omega (arith, e);
}

write_round-IsWritten_example :
    Returns
      (λ r. IsWritten (mirrored_file bad bad bad) r.1 0 0 3 good)
      (write_round full_disk 0 3 good (mirrored_file bad bad bad))
write_round-IsWritten_example =
    write_round-IsWritten full_disk (mirrored_file bad bad bad) 0 3 good
      (mirrored_file-IsMapped bad bad bad)

readi-one_block_example :
    Returns
      (λ r. IsRead 3 good good bad bad r.0)
      (readi full_disk no_device 0 3 (mirrored_file good good bad))
readi-one_block_example =
    readi-one_block full_disk no_device (mirrored_file good good bad) 0 3 refl (omega arith)
      (omega arith) (omega arith) (omega arith) (mirrored_file-IsMapped good good bad)

readi-write_round_example :
    Returns
      (λ r. r.0 ≡ some good)
      ((write_round full_disk 0 3 good >> readi full_disk no_device 0 3)
        (mirrored_file bad [] good))
readi-write_round_example =
    readi-write_round full_disk no_device (mirrored_file bad [] good) 0 3 good refl (omega arith)
      refl (omega arith) (omega arith) (omega arith) (omega arith)
      (mirrored_file-IsMapped bad [] good)

-- "//ab/c": slashes, an element, a slash and the rest.
skipelem-elem_example :
    (buf : List ℕ) × (skipelem (47 ∷ 47 ∷ 97 ∷ 98 ∷ 47 ∷ 99 ∷ []) [] ≡ some (99 ∷ [], buf))
    × IsCopied (97 ∷ 98 ∷ []) [] buf
skipelem-elem_example =
    skipelem-elem 2 97 (98 ∷ []) 1 (99 ∷ []) []
      ((λ e. omega (arith, e)), ((λ e. omega (arith, e)), tt))
      ((λ e. omega (arith, e)), omega arith)

namecmp_iff_example :
    (namecmp_differs (put_name (97 ∷ []) (1 ∷ 2 ∷ 3 ∷ [])) (strncpy (98 ∷ []) dir_size) ≡ false)
    ↔ (take {A = ℕ} dir_size (97 ∷ []) ≡ take {A = ℕ} dir_size (98 ∷ []))
namecmp_iff_example =
    namecmp_iff (97 ∷ []) (98 ∷ []) (1 ∷ 2 ∷ 3 ∷ []) ((λ e. omega (arith, e)), tt)
      ((λ e. omega (arith, e)), tt)
