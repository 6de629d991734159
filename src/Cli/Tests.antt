-- ===== src/Cli/Tests.antt =====
-- Command lines at concrete arguments, and the theorems at inputs that meet their hypotheses.
use long.Base.{ℕ, ◌≡◌, refl, List, [], ◌∷◌, ◌++◌, true, false}
use long.Base.Int.{pos, negsuc}
use long.Text.{codes, atoi, atoll, leading_int, digits}
use long.Cli.{
  config_opt, port_opt, verbose_opt, Settings, goes_on, exits, default_path, main_options,
  scan_config, option_of, parse_loop,
}
use long.Cli.Spelled.{Item, spell}
use long.Cli.Parse.{unknown, main_options_rejects}
use long.Cli.Says.{last_value, said, Says, main_options-Says}

atoi_runs : (atoi (32 ∷ 45 ∷ 52 ∷ 50 ∷ 120 ∷ []) ≡ negsuc 41) × (atoi (120 ∷ 49 ∷ []) ≡ pos 0)
unfolding atoi atoll leading_int digits
atoi_runs = (refl, refl)

-- The settings tell the path by the device.
abbrev loaded : List ℕ → Settings
loaded path = record {
  device = path;
  width = pos 1280;
  height = pos 720;
  fps = pos 30;
  port = 8080;
  bind_addr = [];
  verbose = false;
  log_dir = [];
  log_file = [];
}

-- -p 70000 --verbose -c x
abbrev items : List Item
items =
    record { opt = port_opt; short = true; value = 55 ∷ 48 ∷ 48 ∷ 48 ∷ 48 ∷ [] }
    ∷ record { opt = verbose_opt; short = false; value = [] }
    ∷ record { opt = config_opt; short = true; value = 120 ∷ [] }
    ∷ []

-- The port wraps.
main_options_runs :
    main_options loaded (spell items)
    ≡ goes_on (record (loaded (120 ∷ [])) { port = 4464; verbose = true })
unfolding main_options scan_config option_of parse_loop atoi atoll leading_int digits
main_options_runs = refl

main_options-Says_example :
    (s : Settings) × (main_options loaded (spell items) ≡ goes_on s)
    × Says (loaded (said (λ v. v) default_path (last_value config_opt items))) items s
main_options-Says_example =
    main_options-Says loaded items
      ((tt, (refl, refl)), ((tt, (refl, refl)), ((tt, (refl, refl)), tt)))

main_options_rejects_example :
    main_options loaded (spell items ++ (codes "-x" ∷ codes "1" ∷ [])) ≡ exits 2
main_options_rejects_example =
    main_options_rejects loaded items (codes "-x") (codes "1" ∷ [])
      ((tt, (refl, refl)), ((tt, (refl, refl)), ((tt, (refl, refl)), tt))) (refl, (refl, tt))
      (unknown (unfold option_of in refl))
