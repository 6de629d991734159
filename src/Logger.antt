-- ===== src/Logger.antt =====
-- src/modules/logger/Logger.cpp and its header. Each call holds the mutex while it uses the file,
-- so calls of several threads are calls one after the other.
pub mod BaseName
pub mod Streams
pub mod Lines
pub mod Paths
mod Tests
use long.Base.{
  ℕ, ◌+◌, Bool, true, false, ◌||◌, List, [], ◌∷◌, ◌++◌, Option, none, some, if◌then◌else◌, ◌==◌,
  ltb, take,
}
use long.Base.Int.{ℤ}
use long.Text.{codes, print_int}
use long.TimeUtil.{Tm, now_str}

pub data LogLevel : Type 0 where
  debug info warn error : LogLevel

-- Its number in the enumeration.
abbrev pub rank : LogLevel → ℕ
rank debug = 0
rank info = 1
rank warn = 2
rank error = 3

abbrev pub level_tag : LogLevel → List ℕ
level_tag debug = codes "DEBUG"
level_tag info = codes "INFO "
level_tag warn = codes "WARN "
level_tag error = codes "ERROR"

abbrev pub is_separator : ℕ → Bool
is_separator c = (c == b'/') || (c == b'\\')

-- The loop of `baseName`: `base` is what stands behind the last separator so far.
unfoldable pub base_loop : List ℕ → List ℕ → List ℕ
base_loop [] base = base
base_loop (c ∷ p) base = base_loop p (if is_separator c then p else base)

abbrev pub base_name : List ℕ → List ℕ
base_name path = base_loop path path

-- What the logger asks of the C library. A stream is a number; `fopen` has a path and its answer.
pub data Output : Type 0 where
  fopened : List ℕ → Option ℕ → Output
  fclosed : ℕ → Output
  to_stderr : List ℕ → Output
  to_file : ℕ → List ℕ → Output

-- `g_level` and `g_file`, and what was asked so far, the latest first.
pub record Logger : Type 0 where
  pub level : LogLevel
  pub file : Option ℕ
  pub outputs : List Output

abbrev pub initial : Logger
initial = record { level = info; file = none; outputs = [] }

unfoldable pub set_level : LogLevel → Logger → Logger
set_level l g = record g { level = l }

close_stream : Option ℕ → Logger → Logger
close_stream none g = g
close_stream (some n) g = record g { file = none; outputs = fclosed n ∷ g.outputs }

unfoldable pub close_log_file : Logger → Logger
unfolding close_stream
close_log_file g = close_stream g.file g

-- `g_file = std::fopen(…)`, by what it yields.
open_stream : List ℕ → Option ℕ → Logger → Logger
open_stream path answer g = record g { file = answer; outputs = fopened path answer ∷ g.outputs }

abbrev pub is_open : Option ℕ → Bool
is_open none = false
is_open (some n) = true

-- The logger and the result, for the path and for what `fopen` yields.
unfoldable pub set_log_file : List ℕ → Option ℕ → Logger → Logger × Bool
unfolding open_stream
set_log_file [] answer g = (close_log_file g, true)
set_log_file (c ∷ path) answer g =
    let g' = open_stream (c ∷ path) answer (close_log_file g) in (g', is_open g'.file)

-- A call of `log` from a place in the source at a time, with its message formatted.
pub record LogCall : Type 0 where
  pub level : LogLevel
  pub source : List ℕ
  pub line : ℤ
  pub time : Tm
  pub message : List ℕ

-- `[%s][%s][%s:%d] %s\n`; the message is cut to its buffer of 4096 bytes.
unfoldable pub line_text : LogCall → List ℕ
line_text r =
    (b'[' ∷ now_str r.time)
    ++ (codes "]["
        ++ (level_tag r.level
            ++ (codes "]["
                ++ (base_name r.source
                    ++ (b':'
                        ∷ (print_int r.line
                            ++ (codes "] " ++ (take 4095 r.message ++ (b'\n' ∷ [])))))))))

pub write_line : List ℕ → Option ℕ → Logger → Logger
write_line text none g = record g { outputs = to_stderr text ∷ g.outputs }
write_line text (some n) g = record g { outputs = to_file n text ∷ to_stderr text ∷ g.outputs }

unfoldable pub log : LogCall → Logger → Logger
unfolding write_line
log r g = if ltb (rank r.level) (rank g.level) then g else write_line (line_text r) g.file g
