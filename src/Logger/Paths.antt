-- ===== src/Logger/Paths.antt =====
-- The files that src/modules/logger/Logger.cpp opens.
use long.Base.{
  ℕ, ◌≡◌, refl, ◌∙◌, Bool, true, false, List, [], ◌∷◌, Option, none, some, if◌then◌else◌, ltb,
}
use long.Logger.{
  LogLevel, rank, Output, fopened, Logger, LogCall, log, line_text, write_line, close_log_file,
}
use long.Logger.Lines.{log_all}

-- The paths that were handed to `fopen`, the latest first.
abbrev pub paths : List Output → List (List ℕ)
paths [] = []
paths (fopened path answer ∷ earlier) = path ∷ paths earlier
paths (_ ∷ earlier) = paths earlier

log-paths : (r : LogCall) (g : Logger) → paths (log r g).outputs ≡ paths g.outputs
unfolding log write_line
log-paths r g = go (ltb (rank r.level) (rank g.level)) g.file
  where
    go :
        (b : Bool) (file : Option ℕ)
        → paths (if b then g else write_line (line_text r) file g).outputs ≡ paths g.outputs
    go true file = refl
    go false none = refl
    go false (some n) = refl

pub log_all-paths :
    (rs : List LogCall) (g : Logger) → paths (log_all rs g).outputs ≡ paths g.outputs
log_all-paths [] g = refl
log_all-paths (r ∷ rs) g = log_all-paths rs (log r g) ∙ log-paths r g

pub close_log_file-paths : (g : Logger) → paths (close_log_file g).outputs ≡ paths g.outputs
unfolding close_log_file
close_log_file-paths g = go g.level g.file g.outputs
  where
    go :
        (l : LogLevel) (file : Option ℕ) (outputs : List Output)
        → paths (close_log_file (record { level = l; file = file; outputs = outputs })).outputs
          ≡ paths outputs
    go l none outputs = refl
    go l (some m) outputs = refl
