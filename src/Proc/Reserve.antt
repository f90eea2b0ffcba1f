-- ===== src/Proc/Reserve.antt =====
-- The system calls that set a process's share, kernel/sysproc.c of "simple shell/xv6".
pub mod Share
use operation_system_project.Prelude.{ℕ, ◌+◌, ◌||◌, Option, none, some, ltb, if◌then◌else◌, modify}
use operation_system_project.Prelude.Int.{ℤ, pos, ltb_ℤ, pos_part}
use operation_system_project.Proc.{Table}

-- `sys_reserve` by process `cur` with the argument that `argint` fetched: the result (`none` stands
-- for -1), `totalpercent` and the table.
unfoldable pub sys_reserve : ℕ → ℤ → ℕ → Table → Option ℕ × ℕ × Table
sys_reserve cur n total t =
    if ltb_ℤ n (pos 0) || ltb_ℤ (pos 100) n
    then (none, total, t)
    else (let total' = pos_part n + total in
        if ltb 200 total' then (none, total', t) else (
          some (pos_part n),
          total',
          modify t cur (λ p. record p { spotbid = pos 0; rpercent = pos_part n }),
        ))

unfoldable pub sys_spot : ℕ → ℤ → Table → ℤ × Table
sys_spot cur n t = (n, modify t cur (λ p. record p { rpercent = 0; spotbid = n }))
