-- ===== src/Logger/Tests.antt =====
-- Lines of the log, and the theorems on it at concrete calls.
use long.Base.{◌≡◌, refl, List, [], ◌∷◌, some}
use long.Base.Int.{pos}
use long.Text.{codes, decimal_loop}
use long.TimeUtil.{Tm, zeros, now_str}
use long.Logger.{debug, info, warn, Logger, LogCall, base_loop, base_name, line_text, fopened}
use long.Logger.Streams.{Op, log_op, file_op, level_op, close_op}

abbrev noon : Tm
noon = record { tm_year = 126; tm_mon = 0; tm_mday = 31; tm_hour = 12; tm_min = 0; tm_sec = 5 }

abbrev call : LogCall
call = record {
  level = warn;
  source = codes "src/app/a.cpp";
  line = pos 12;
  time = noon;
  message = codes "low";
}

abbrev quiet : LogCall
quiet = record call { level = debug }

line_text_runs : line_text call ≡ codes "[2026-01-31 12:00:05][WARN ][a.cpp:12] low\n"
unfolding line_text now_str base_loop zeros decimal_loop
line_text_runs = refl

base_name_runs : base_name (codes "C:\\x/y.h") ≡ codes "y.h"
unfolding base_loop
base_name_runs = refl

abbrev ops : List Op
ops =
    log_op call
    ∷ file_op (codes "a.log") (some 3)
    ∷ log_op call
    ∷ level_op debug
    ∷ file_op (codes "b.log") (some 4)
    ∷ log_op quiet
    ∷ close_op
    ∷ log_op call
    ∷ []

abbrev with_file : Logger
with_file = record { level = info; file = some 3; outputs = fopened (codes "a.log") (some 3) ∷ [] }
