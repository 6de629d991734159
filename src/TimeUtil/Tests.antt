-- ===== src/TimeUtil/Tests.antt =====
-- Times at concrete fields.
use long.Base.{◌≡◌, refl, length, arith}
use long.Text.{codes, decimal_loop}
use long.TimeUtil.{Tm, zeros, now_str, compact_time}
use long.TimeUtil.Compact.{compacted, compact_time-now_str}

-- 2026-07-01 09:35:07
abbrev morning : Tm
morning = record { tm_year = 126; tm_mon = 6; tm_mday = 1; tm_hour = 9; tm_min = 35; tm_sec = 7 }

now_str_runs :
    (now_str morning ≡ codes "2026-07-01 09:35:07")
    × (compact_time (now_str morning) ≡ codes "20260701-093507")
unfolding now_str compact_time zeros decimal_loop
now_str_runs = (refl, refl)

compact_time-now_str_example :
    (compact_time (now_str morning) ≡ compacted morning)
    × (length (compact_time (now_str morning)) ≡ 15)
compact_time-now_str_example =
    compact_time-now_str morning
      (omega arith, omega arith, omega arith, omega arith, omega arith, omega arith)
