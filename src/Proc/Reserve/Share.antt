-- ===== src/Proc/Reserve/Share.antt =====
-- What the process table holds of tickets through `sys_reserve` and `sys_spot`.
use operation_system_project.Prelude.{
  ℕ, zero, suc, ◌+◌, ◌≤◌, ◌≡◌, refl, List, Option, [], ◌∷◌, modify, arith,
}
use operation_system_project.Prelude.Int.{ℤ, pos, pos_part}
use operation_system_project.Proc.{Proc, Table}
use operation_system_project.Proc.Reserve.{sys_reserve, sys_spot}

-- The tickets that the slots of the table hold, runnable or not.
abbrev pub reserved : Table → ℕ
reserved [] = 0
reserved (p ∷ ps) = p.rpercent + reserved ps

-- The tickets never exceed what was counted, nor the 200 that the lottery draws from.
pub record IsShared (total : ℕ) (t : Table) : Type 0 where
  pub counted : reserved t ≤ total
  pub fits : reserved t ≤ 200

reserved-modify :
    (t : Table) (i n : ℕ) (f : Proc → Proc)
    → ((p : Proc) → (f p).rpercent ≡ n)
    → reserved (modify t i f) ≤ reserved t + n
reserved-modify [] i n f h = omega arith
reserved-modify (p ∷ ps) zero n f h = omega (arith, h p)
reserved-modify (p ∷ ps) (suc i) n f h = omega (arith, reserved-modify ps i n f h)

-- `sys_reserve`, accepted or not, keeps the tickets of the table within the count and within 200.
pub sys_reserve-IsShared :
    (cur : ℕ) (n : ℤ) (total : ℕ) (t : Table)
    → IsShared total t
    → let (r, total', t') = sys_reserve cur n total t in IsShared total' t'
unfolding sys_reserve
sys_reserve-IsShared cur n total t h = ground (
  arith,
  reserved-modify t cur (pos_part n) (λ p. record p { spotbid = pos 0; rpercent = pos_part n })
      (λ p. refl),
)

pub sys_spot-IsShared :
    (cur : ℕ) (n : ℤ) (total : ℕ) (t : Table)
    → IsShared total t
    → IsShared total (sys_spot cur n t).1
unfolding sys_spot
sys_spot-IsShared cur n total t h =
    let le = reserved-modify t cur 0 (λ p. record p { rpercent = 0; spotbid = n }) (λ p. refl) in
    record { counted = omega arith; fits = omega arith }

-- The results of calls one after the other, each by some process with some argument, where the
-- table may change in between.
unfoldable pub reserve_all : List (ℕ × (ℤ × Table)) → ℕ → List (Option ℕ)
reserve_all [] total = []
reserve_all ((cur, (n, t)) ∷ calls) total =
    let r = sys_reserve cur n total t in r.0 ∷ reserve_all calls r.1
