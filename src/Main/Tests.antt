-- ===== src/Main/Tests.antt =====
-- The start of the program at concrete arguments.
use long.Base.{ℕ, ◌≡◌, refl, true, List, [], ◌∷◌, Option, none, some, arith}
use long.Base.Int.{ℤ, pos}
use long.Text.{codes, decimal_loop}
use long.Config.{default_config, ConfigManager, save}
use long.Cli.{
  main_options, scan_config, option_of, parse_loop, config_opt, width_opt, verbose_opt, Settings,
  goes_on,
}
use long.Cli.Spelled.{Item, spell}
use long.TimeUtil.{Tm, zeros, now_str, compact_time}
use long.Logger.{debug, LogCall}
use long.Main.Exit.{Why, main_config-Why}
use long.Main.{exit_code, settings_of, main_config, log_path}
use long.Main.Options.{Configured, main_config-save}

-- -c x -W 320 -v
abbrev items : List Item
items =
    record { opt = config_opt; short = true; value = codes "x" }
    ∷ record { opt = width_opt; short = true; value = codes "320" }
    ∷ record { opt = verbose_opt; short = true; value = [] }
    ∷ []

abbrev saved : ConfigManager
saved = record default_config {
  camera = record { device = codes "v0"; width = pos 640; height = pos 480; fps = pos 5 };
  network = record { bind_addr = codes "::"; port = 9 };
  serial = record { device = codes "S"; baud = pos 9600 };
}

abbrev files : List ℕ → Option (List ℕ)
files path = (save true none saved).1

abbrev to_long : List ℕ → ℤ
to_long s = pos 0

main_config-save_example :
    (s : Settings) × (main_config to_long files (spell items) ≡ goes_on s)
    × Configured saved items s
main_config-save_example =
    main_config-save to_long files items saved none
      ((tt, (refl, refl)), ((tt, (refl, refl)), ((tt, (refl, refl)), tt)))
      ((omega arith, omega arith, omega arith), omega arith, omega arith)
      (record {
        camera_device = (
          (λ e. omega arith, λ e. omega arith, λ e. omega arith),
          ((λ e. omega arith, λ e. omega arith, λ e. omega arith), tt),
        );
        bind_addr = (
          (λ e. omega arith, λ e. omega arith, λ e. omega arith),
          ((λ e. omega arith, λ e. omega arith, λ e. omega arith), tt),
        );
        serial_device = ((λ e. omega arith, λ e. omega arith, λ e. omega arith), tt);
      })
      refl

abbrev at_nine : Tm
at_nine = record { tm_year = 126; tm_mon = 6; tm_mday = 1; tm_hour = 9; tm_min = 35; tm_sec = 7 }

log_path_runs :
    log_path (codes "/var/log") (codes "1.2") at_nine
    ≡ codes "/var/log/patrol-v1.2-20260701-093507.log"
unfolding now_str compact_time zeros decimal_loop
log_path_runs = refl

abbrev settings : Settings
settings = record (settings_of saved) { verbose = true; log_dir = codes "/var/log" }

abbrev call : LogCall
call = record {
  level = debug;
  source = codes "src/main.cpp";
  line = pos 139;
  time = at_nine;
  message = codes "=";
}

-- An unknown option.
abbrev bad_args : List (List ℕ)
bad_args = codes "-x" ∷ []

bad_args_runs : exit_code (main_config to_long files bad_args) [] true true [] ≡ some 2
unfolding exit_code main_options scan_config option_of parse_loop
bad_args_runs = refl

main_config-Why_example : Why (main_config to_long files bad_args) true true 2
main_config-Why_example = main_config-Why to_long files bad_args [] true true [] 2 bad_args_runs
