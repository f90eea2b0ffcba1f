-- ===== src/Str.antt =====
-- Byte strings as the kernel compares them, kernel/string.c of "triple file system".
pub mod Move
mod Tests
use operation_system_project.Prelude.{
  ℕ, zero, suc, Bool, false, not, ◌&&◌, List, [], ◌∷◌, ◌==◌, if◌then◌else◌,
}

-- Whether `strncmp` is not 0: the bytes are compared up to the first difference, up to a byte 0
-- that both share, or up to `n` of them. The end of an array stops the comparison as a byte 0 does.
unfoldable pub strncmp_differs : List ℕ → List ℕ → ℕ → Bool
strncmp_differs p q zero = false
strncmp_differs [] [] (suc n) = false
strncmp_differs [] (y ∷ ys) (suc n) = not (y == 0)
strncmp_differs (x ∷ xs) [] (suc n) = not (x == 0)
strncmp_differs (x ∷ xs) (y ∷ ys) (suc n) =
    let rest = strncmp_differs xs ys n in if not (x == 0) && (x == y) then rest else not (x == y)

-- The `n` bytes that `strncpy` writes.
unfoldable pub strncpy : List ℕ → ℕ → List ℕ
strncpy t zero = []
strncpy [] (suc n) = 0 ∷ strncpy [] n
strncpy (c ∷ t) (suc n) = c ∷ strncpy t n
