-- ===== src/TimeUtil.antt =====
-- include/utils/TimeUtil.h, and `compactTime` of src/main.cpp.
pub mod Compact
mod Tests
use long.Base.{ℕ, ◌+◌, ◌-◌, Bool, List, [], ◌∷◌, ◌++◌, ◌||◌, if◌then◌else◌, ◌==◌, length, take}
use long.Text.{decimal}

-- What `localtime_r` yields. The year counts from 1900, on a clock that is not before that.
pub record Tm : Type 0 where
  pub tm_year : ℕ
  pub tm_mon : ℕ
  pub tm_mday : ℕ
  pub tm_hour : ℕ
  pub tm_min : ℕ
  pub tm_sec : ℕ

unfoldable pub zeros : ℕ → List ℕ
zeros ℕ.zero = []
zeros (ℕ.suc n) = b'0' ∷ zeros n

-- `%04d` and `%02d`.
abbrev pub padded : ℕ → ℕ → List ℕ
padded w n = zeros (w - length (decimal n)) ++ decimal n

-- `%04d-%02d-%02d %02d:%02d:%02d` in a buffer of 80 bytes, which `Logger::log` writes, too.
unfoldable pub now_str : Tm → List ℕ
now_str t = take 79 (
    padded 4 (t.tm_year + 1900)
    ++ (b'-'
        ∷ (padded 2 (t.tm_mon + 1)
            ++ (b'-'
                ∷ (padded 2 t.tm_mday
                    ++ (b' '
                        ∷ (padded 2 t.tm_hour
                            ++ (b':' ∷ (padded 2 t.tm_min ++ (b':' ∷ padded 2 t.tm_sec))))))))))

-- The loop of `compactTime`.
unfoldable pub compact_time : List ℕ → List ℕ
compact_time [] = []
compact_time (c ∷ s) =
    let rest = compact_time s in
    if (c == b'-') || (c == b':') then rest else (if c == b' ' then b'-' else c) ∷ rest
