-- ===== src/Main/Log.antt =====
-- The log of a run of src/main.cpp.
use long.Base.{ℕ, ◌≡◌, List, [], ◌∷◌, ◌++◌, Option, none, some, if◌then◌else◌}
use long.Cli.{Settings}
use long.Text.{codes}
use long.TimeUtil.{Tm, now_str, compact_time}
use long.Logger.{LogLevel, Logger}
use long.Logger.Paths.{paths}
use long.Logger.Streams.{replay, IsOrderly}
use long.Logger.Lines.{streams, err_text, file_text}

-- The log file that is asked for, if it can be opened.
abbrev pub log_stream : Settings → Option ℕ → Option ℕ
log_stream s answer = elim s.log_file [
  | c ∷ file ↦ answer
  | [] ↦ elim s.log_dir [ c ∷ dir ↦ answer | [] ↦ none ]
]

-- The path of the log file that is asked for, if one is: `--log-file` gives it whole, and goes
-- before `--log-dir`, which gives the directory of a file named by the version and the time.
abbrev wanted_in : List ℕ → List ℕ → List ℕ → Tm → List (List ℕ)
wanted_in [] [] version t = []
wanted_in [] (d ∷ dir) version t =
    ((d ∷ dir)
      ++ (codes "/patrol-v"
          ++ (version ++ (codes "-" ++ (compact_time (now_str t) ++ codes ".log")))))
    ∷ []
wanted_in (c ∷ file) dir version t = (c ∷ file) ∷ []

abbrev pub wanted : Settings → List ℕ → Tm → List (List ℕ)
wanted s version t = wanted_in s.log_file s.log_dir version t

-- What the log of a run has opened and written, and what it leaves open.
pub record IsLogged (g : Logger) (opened : List (List ℕ)) (stderr : List ℕ) (stream : Option ℕ)
    (late : List ℕ) : Type 0 where
  pub at_path : paths g.outputs ≡ opened
  pub closed : g.file ≡ none
  pub orderly : replay g.outputs ≡ some none
  pub on_stderr : err_text g.outputs ≡ stderr
  pub in_file : (n : ℕ) → file_text n g.outputs ≡ (if streams stream n then late else [])

-- The level is set, the file is open, and nothing has been written meanwhile.
record IsSetUp (g h : Logger) (opened : List (List ℕ)) (l : LogLevel) (stream : Option ℕ)
    : Type 0 where
  pub at_path : paths h.outputs ≡ opened ++ paths g.outputs
  pub level_is : h.level ≡ l
  pub stream_is : h.file ≡ stream
  pub err_kept : err_text h.outputs ≡ err_text g.outputs
  pub file_kept : (n : ℕ) → file_text n h.outputs ≡ file_text n g.outputs
  pub orderly : IsOrderly h
