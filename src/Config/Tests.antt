-- ===== src/Config/Tests.antt =====
-- Configurations at concrete files, and the theorems at inputs that meet their hypotheses.
use long.Base.{ℕ, ◌≡◌, refl, true, false, List, Option, none, some, arith}
use long.Base.Int.{ℤ, pos, negsuc}
use long.Text.{codes, c_str, digits, leading_int, atoll, decimal_loop}
use long.Json.{
  parse_null, parse_bool, after, parse_number, skip_digits, parse_string, string_loop, expect,
  skip_ws, put, find,
}
use long.Json.Parser.{parse, parse_value, members, elements, opened, next, first, parse_key}
use long.Config.{
  ConfigManager, default_config, load, load_root, load_camera, load_network, load_serial, save,
  config_text,
}
use long.Config.Range.{InRange}
use long.Config.Saved.{IsPlainConfig}
use long.Config.Saved.Again.{load-save}

-- Of a double, the whole part.
abbrev whole_part : List ℕ → ℤ
whole_part s = atoll s

abbrev file : Option (List ℕ)
file = some (
    codes
      "{\"camera\": {\"width\": 640.5, \"fps\": true}, \"network\": {\"port\": 70000}, \"serial\": 1}")

load_runs : load whole_part file default_config ≡ (
  true,
  record default_config {
    camera = record {
      device = codes "/dev/video0";
      width = pos 640;
      height = pos 720;
      fps = pos 30;
    };
    network = record { bind_addr = codes "0.0.0.0"; port = 4464 };
  },
)
unfolding load load_root load_camera load_network load_serial parse parse_value members elements
    opened next first parse_key parse_null parse_bool after parse_number skip_digits parse_string
    string_loop expect skip_ws put find atoll leading_int digits
load_runs = refl

load_fails_runs :
    (load whole_part none default_config ≡ (false, default_config))
    × (load whole_part (some (codes "null")) default_config ≡ (false, default_config))
    × (load whole_part (some (codes "{,")) default_config ≡ (false, default_config))
unfolding load load_root load_camera load_network load_serial parse parse_value members elements
    opened next first parse_key parse_null parse_bool after parse_number skip_digits parse_string
    string_loop expect skip_ws put find atoll leading_int digits
load_fails_runs = (refl, refl, refl)

-- A quote within a string is written as it is, and the file is not loaded.
abbrev quoting : ConfigManager
quoting = record default_config { serial = record { device = codes "/dev/\"x\""; baud = pos 9600 } }

quoting_runs : load whole_part (save true none quoting).1 default_config ≡ (false, default_config)
unfolding load load_root load_camera load_network load_serial parse parse_value members elements
    opened next first parse_key parse_null parse_bool after parse_number skip_digits parse_string
    string_loop expect skip_ws put find atoll leading_int digits save config_text c_str decimal_loop
quoting_runs = refl

abbrev short : ConfigManager
short = record {
  camera = record { device = codes "v0"; width = pos 640; height = negsuc 0; fps = pos 5 };
  network = record { bind_addr = codes "::"; port = 9 };
  serial = record { device = codes "S"; baud = pos 9600 };
}

short-InRange : InRange short
short-InRange = ((omega arith, omega arith, omega arith), omega arith, omega arith)

short-IsPlainConfig : IsPlainConfig short
short-IsPlainConfig = record {
  camera_device = (
    (λ e. omega arith, λ e. omega arith, λ e. omega arith),
    ((λ e. omega arith, λ e. omega arith, λ e. omega arith), tt),
  );
  bind_addr = (
    (λ e. omega arith, λ e. omega arith, λ e. omega arith),
    ((λ e. omega arith, λ e. omega arith, λ e. omega arith), tt),
  );
  serial_device = ((λ e. omega arith, λ e. omega arith, λ e. omega arith), tt);
}

load-save_example : load whole_part (save true none short).1 default_config ≡ (true, short)
load-save_example = load-save whole_part short default_config none short-InRange short-IsPlainConfig
