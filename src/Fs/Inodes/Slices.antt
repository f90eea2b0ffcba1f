-- ===== src/Fs/Inodes/Slices.antt =====
-- Bytes put into a block and read from it: the copies of kernel/fs.c of "triple file system".
use operation_system_project.Prelude.{
  ℕ, zero, suc, ◌+◌, ◌≡◌, ◌≤◌, refl, ap, List, [], ◌∷◌, ◌++◌, take, drop, length, arith,
}
use operation_system_project.Fs.{slice, splice}

take_self : (m : ℕ) (src rest : List ℕ) → length src ≡ m → take m (take m src ++ rest) ≡ src
take_self zero [] rest e = refl
take_self zero (x ∷ src) rest e = absurd (omega (arith, e))
take_self (suc m) [] rest e = absurd (omega (arith, e))
take_self (suc m) (x ∷ src) rest e = ap (λ t. x ∷ t) (take_self m src rest (omega (arith, e)))

self_at :
    (o m : ℕ) (src d rest : List ℕ)
    → o ≤ length d
    → length src ≡ m
    → slice o m (take o d ++ (take m src ++ rest)) ≡ src
self_at zero m src d rest h e = take_self m src rest e
self_at (suc o) m src [] rest h e = elim h [ ]
self_at (suc o) m src (x ∷ d) rest h e = self_at o m src d rest (omega (arith, h)) e

pub slice-splice_self :
    (o m : ℕ) (src d : List ℕ) → o ≤ length d → length src ≡ m → slice o m (splice o m src d) ≡ src
slice-splice_self o m src d h e = self_at o m src d (drop (o + m) d) h e

take_before :
    (m o : ℕ) (d rest : List ℕ) → m ≤ o → o ≤ length d → take m (take o d ++ rest) ≡ take m d
take_before zero o d rest h h' = refl
take_before (suc m) zero d rest h h' = elim h [ ]
take_before (suc m) (suc o) [] rest h h' = elim h' [ ]
take_before (suc m) (suc o) (x ∷ d) rest h h' =
    ap (λ t. x ∷ t) (take_before m o d rest (omega (arith, h)) (omega (arith, h')))

pub slice_before :
    (i n o : ℕ) (d rest : List ℕ)
    → i + n ≤ o
    → o ≤ length d
    → slice i n (take o d ++ rest) ≡ slice i n d
slice_before zero n o d rest h h' = take_before n o d rest (omega (arith, h)) h'
slice_before (suc i) n zero d rest h h' = absurd (omega (arith, h))
slice_before (suc i) n (suc o) [] rest h h' = elim h' [ ]
slice_before (suc i) n (suc o) (x ∷ d) rest h h' =
    slice_before i n o d rest (omega (arith, h)) (omega (arith, h'))

drop_behind :
    (i m : ℕ) (src d : List ℕ)
    → m ≤ i
    → length src ≡ m
    → m ≤ length d
    → drop i (take m src ++ drop m d) ≡ drop i d
drop_behind i zero src d h e h' = refl
drop_behind zero (suc m) src d h e h' = elim h [ ]
drop_behind (suc i) (suc m) [] d h e h' = absurd (omega (arith, e))
drop_behind (suc i) (suc m) (x ∷ src) [] h e h' = elim h' [ ]
drop_behind (suc i) (suc m) (x ∷ src) (y ∷ d) h e h' =
    drop_behind i m src d (omega (arith, h)) (omega (arith, e)) (omega (arith, h'))

zero_end : (k m : ℕ) → k ≡ 0 + m → k ≡ m
zero_end k m q = omega (arith, q)

behind_at :
    (i n o m k : ℕ) (src d : List ℕ)
    → k ≡ o + m
    → k ≤ i
    → length src ≡ m
    → k ≤ length d
    → slice i n (take o d ++ (take m src ++ drop k d)) ≡ slice i n d
behind_at i n zero m k src d q h e h' =
    rw (zero_end k m q)
      (ap (take n) (drop_behind i m src d (omega (arith, q, h)) e (omega (arith, q, h'))))
behind_at i n (suc o) m zero src d q h e h' = absurd (omega (arith, q))
behind_at zero n (suc o) m (suc k) src d q h e h' = elim h [ ]
behind_at (suc i) n (suc o) m (suc k) src [] q h e h' = elim h' [ ]
behind_at (suc i) n (suc o) m (suc k) src (x ∷ d) q h e h' =
    behind_at i n o m k src d (omega (arith, q)) (omega (arith, h)) e (omega (arith, h'))

pub slice_behind :
    (i n o m : ℕ) (src d : List ℕ)
    → o + m ≤ i
    → length src ≡ m
    → o + m ≤ length d
    → slice i n (splice o m src d) ≡ slice i n d
slice_behind i n o m src d h e h' = behind_at i n o m (o + m) src d refl h e h'
