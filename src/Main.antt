-- ===== src/Main.antt =====
-- src/main.cpp: the configuration under the options, and the log.
pub mod Options
pub mod Log
pub mod Exit
mod Tests
use long.Base.{ℕ, Bool, true, false, List, [], ◌∷◌, ◌++◌, Option, none, some, if◌then◌else◌}
use long.Base.Int.{ℤ}
use long.Text.{codes}
use long.Config.{ConfigManager, default_config, load}
use long.App.Whole.{Try, Visit, application}
use long.Cli.{Settings, Parsed, exits, goes_on, main_options}
use long.TimeUtil.{Tm, now_str, compact_time}
use long.Logger.{
  LogLevel, debug, info, Logger, initial, set_level, set_log_file, close_log_file, LogCall,
}
use long.Logger.Lines.{log_all}

-- `cfg` and the variables of the options, before the options are read.
abbrev pub settings_of : ConfigManager → Settings
settings_of c = record {
  device = c.camera.device;
  width = c.camera.width;
  height = c.camera.height;
  fps = c.camera.fps;
  port = c.network.port;
  bind_addr = c.network.bind_addr;
  verbose = false;
  log_dir = [];
  log_file = [];
}

-- Up to the end of the second loop, by what each file holds, if it can be read.
abbrev pub main_config : (List ℕ → ℤ) → (List ℕ → Option (List ℕ)) → List (List ℕ) → Parsed
main_config to_long files args =
    main_options (λ path. settings_of (load to_long (files path) default_config).1) args

-- The name of the log file in a directory.
abbrev pub log_path : List ℕ → List ℕ → Tm → List ℕ
log_path dir version t =
    dir ++ (codes "/patrol-v" ++ (version ++ (b'-' ∷ (compact_time (now_str t) ++ codes ".log"))))

-- `--log-file` goes before `--log-dir`; `answer` is what `fopen` yields.
unfoldable pub set_up_file : List ℕ → List ℕ → List ℕ → Tm → Option ℕ → Logger → Logger
set_up_file (c ∷ file) dir version t answer g = (set_log_file (c ∷ file) answer g).0
set_up_file [] (c ∷ dir) version t answer g =
    (set_log_file (log_path (c ∷ dir) version t) answer g).0
set_up_file [] [] version t answer g = g

abbrev pub level_of : Settings → LogLevel
level_of s = if s.verbose then debug else info

abbrev pub set_up_log : Settings → List ℕ → Tm → Option ℕ → Logger → Logger
set_up_log s version t answer g =
    set_up_file s.log_file s.log_dir version t answer (set_level (level_of s) g)

-- The log of a whole run: `early` are the calls before it is set up, `late` those after.
unfoldable pub main_log : Settings → List ℕ → Tm → Option ℕ → List LogCall → List LogCall → Logger
main_log s version t answer early late =
    close_log_file (log_all late (set_up_log s version t answer (log_all early initial)))

-- The exit code of `main`, by what its options make of it and by what its application finds, which
-- asks the camera for the rate of the settings.
unfoldable pub exit_code : Parsed → List Try → Bool → Bool → List Visit → Option ℕ
exit_code (exits code) tries running listened visits = some code
exit_code (goes_on s) tries running listened visits =
    elim (application s.fps tries running listened visits) [
      | none ↦ none
      | some (cam, code) ↦ some code
    ]
