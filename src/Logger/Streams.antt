-- ===== src/Logger/Streams.antt =====
-- The log file of src/modules/logger/Logger.cpp: when it is open, and what is written to it.
use long.Base.{
  ℕ, ◌≡◌, refl, Bool-cases, inl, inr, List, [], ◌∷◌, Option, none, some, if◌then◌else◌, ◌==◌,
  ==-refl, ltb,
}
use long.Logger.{
  LogLevel, rank, Output, fopened, fclosed, to_stderr, to_file, Logger, initial, set_level,
  close_log_file, set_log_file, LogCall, line_text, write_line, log,
}

-- The calls of other parts.
pub data Op : Type 0 where
  level_op : LogLevel → Op
  file_op : List ℕ → Option ℕ → Op
  close_op : Op
  log_op : LogCall → Op

abbrev pub apply : Op → Logger → Logger
apply (level_op l) g = set_level l g
apply (file_op path answer) g = (set_log_file path answer g).0
apply close_op g = close_log_file g
apply (log_op r) g = log r g

abbrev pub apply_all : List Op → Logger → Logger
apply_all [] g = g
apply_all (o ∷ os) g = apply_all os (apply o g)

-- The stream that is open after an output, where at most one is open before it; `none` where the
-- output opens a second one, or closes or writes one that is not open.
abbrev after : Option (Option ℕ) → Output → Option (Option ℕ)
after none o = none
after (some s) (to_stderr text) = some s
after (some none) (fopened path answer) = some answer
after (some none) (fclosed n) = none
after (some none) (to_file n text) = none
after (some (some m)) (fopened path answer) = none
after (some (some m)) (fclosed n) = if m == n then some none else none
after (some (some m)) (to_file n text) = if m == n then some (some m) else none

abbrev pub replay : List Output → Option (Option ℕ)
replay [] = some none
replay (o ∷ earlier) = after (replay earlier) o

-- The outputs so far leave open the one stream that the logger holds, or none if it holds none.
abbrev pub IsOrderly : Logger → Type 0
IsOrderly g = replay g.outputs ≡ some g.file

pub close_log_file-IsOrderly :
    (l : LogLevel) (file : Option ℕ) (outputs : List Output)
    → replay outputs ≡ some file
    → IsOrderly (close_log_file (record { level = l; file = file; outputs = outputs }))
      × ((close_log_file (record { level = l; file = file; outputs = outputs })).file ≡ none)
unfolding close_log_file
close_log_file-IsOrderly l none outputs e = (e, refl)
close_log_file-IsOrderly l (some n) outputs e = (rw (e, ==-refl n) refl, refl)

pub set_log_file-IsOrderly :
    (path : List ℕ) (answer : Option ℕ) (g : Logger)
    → IsOrderly g
    → IsOrderly (set_log_file path answer g).0
unfolding set_log_file
set_log_file-IsOrderly [] answer g e = (close_log_file-IsOrderly g.level g.file g.outputs e).0
set_log_file-IsOrderly (c ∷ path) answer g e =
    let h = close_log_file-IsOrderly g.level g.file g.outputs e in rw (h.0, h.1) refl

pub log-IsOrderly : (r : LogCall) (g : Logger) → IsOrderly g → IsOrderly (log r g)
unfolding log
log-IsOrderly r g e = elim (Bool-cases (ltb (rank r.level) (rank g.level))) [
  | inl t ↦ rw (t, log) e
  | inr t ↦ rw (t, log) (go g.level g.file g.outputs e)
]
  where
    go :
        (l : LogLevel) (file : Option ℕ) (outputs : List Output)
        → replay outputs ≡ some file
        → IsOrderly
            (write_line (line_text r) file (record { level = l; file = file; outputs = outputs }))
    go l none outputs e = rw e refl
    go l (some n) outputs e = rw (e, ==-refl n) refl

apply-IsOrderly : (o : Op) (g : Logger) → IsOrderly g → IsOrderly (apply o g)
unfolding set_level
apply-IsOrderly (level_op l) g e = e
apply-IsOrderly (file_op path answer) g e = set_log_file-IsOrderly path answer g e
apply-IsOrderly close_op g e = (close_log_file-IsOrderly g.level g.file g.outputs e).0
apply-IsOrderly (log_op r) g e = log-IsOrderly r g e

apply_all_from : (os : List Op) (g : Logger) → IsOrderly g → IsOrderly (apply_all os g)
apply_all_from [] g e = e
apply_all_from (o ∷ os) g e = apply_all_from os (apply o g) (apply-IsOrderly o g e)

-- Whatever is called, and whatever `fopen` yields: at most one log file is open at a time, lines go
-- only to the one that is open, and the logger holds exactly that one.
pub apply_all-IsOrderly : (os : List Op) → IsOrderly (apply_all os initial)
apply_all-IsOrderly os = apply_all_from os initial refl
