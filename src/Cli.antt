-- ===== src/Cli.antt =====
-- src/main.cpp: the options of the command line. A string is the list of its bytes.
pub mod Spelled
pub mod Parse
pub mod Says
pub mod Exits
mod Tests
use long.Base.{
  ℕ, zero, suc, ◌+◌, ◌-◌, ◌*◌, ◌%◌, ◌^◌, Bool, true, false, not, ◌&&◌, ◌||◌, List, [], ◌∷◌, Option,
  none, some, if◌then◌else◌, ◌==◌, leb,
}
use long.Base.Int.{ℤ, to_u16}
use long.Text.{same_text, atoi}

-- The options.
pub data Opt : Type 0 where
  config_opt device_opt width_opt height_opt fps_opt port_opt bind_opt log_dir_opt log_file_opt
        verbose_opt version_opt help_opt :
      Opt

-- Their names: the short one, if there is one, and the long one.
abbrev pub short_name : Opt → Option (List ℕ)
-- -c
short_name config_opt = some (45 ∷ 99 ∷ [])
-- -d
short_name device_opt = some (45 ∷ 100 ∷ [])
-- -W
short_name width_opt = some (45 ∷ 87 ∷ [])
-- -H
short_name height_opt = some (45 ∷ 72 ∷ [])
-- -f
short_name fps_opt = some (45 ∷ 102 ∷ [])
-- -p
short_name port_opt = some (45 ∷ 112 ∷ [])
-- -b
short_name bind_opt = some (45 ∷ 98 ∷ [])
short_name log_dir_opt = none
short_name log_file_opt = none
-- -v
short_name verbose_opt = some (45 ∷ 118 ∷ [])
-- -V
short_name version_opt = some (45 ∷ 86 ∷ [])
-- -h
short_name help_opt = some (45 ∷ 104 ∷ [])

abbrev pub long_name : Opt → List ℕ
-- --config
long_name config_opt = 45 ∷ 45 ∷ 99 ∷ 111 ∷ 110 ∷ 102 ∷ 105 ∷ 103 ∷ []
-- --device
long_name device_opt = 45 ∷ 45 ∷ 100 ∷ 101 ∷ 118 ∷ 105 ∷ 99 ∷ 101 ∷ []
-- --width
long_name width_opt = 45 ∷ 45 ∷ 119 ∷ 105 ∷ 100 ∷ 116 ∷ 104 ∷ []
-- --height
long_name height_opt = 45 ∷ 45 ∷ 104 ∷ 101 ∷ 105 ∷ 103 ∷ 104 ∷ 116 ∷ []
-- --fps
long_name fps_opt = 45 ∷ 45 ∷ 102 ∷ 112 ∷ 115 ∷ []
-- --port
long_name port_opt = 45 ∷ 45 ∷ 112 ∷ 111 ∷ 114 ∷ 116 ∷ []
-- --bind
long_name bind_opt = 45 ∷ 45 ∷ 98 ∷ 105 ∷ 110 ∷ 100 ∷ []
-- --log-dir
long_name log_dir_opt = 45 ∷ 45 ∷ 108 ∷ 111 ∷ 103 ∷ 45 ∷ 100 ∷ 105 ∷ 114 ∷ []
-- --log-file
long_name log_file_opt = 45 ∷ 45 ∷ 108 ∷ 111 ∷ 103 ∷ 45 ∷ 102 ∷ 105 ∷ 108 ∷ 101 ∷ []
-- --verbose
long_name verbose_opt = 45 ∷ 45 ∷ 118 ∷ 101 ∷ 114 ∷ 98 ∷ 111 ∷ 115 ∷ 101 ∷ []
-- --version
long_name version_opt = 45 ∷ 45 ∷ 118 ∷ 101 ∷ 114 ∷ 115 ∷ 105 ∷ 111 ∷ 110 ∷ []
-- --help
long_name help_opt = 45 ∷ 45 ∷ 104 ∷ 101 ∷ 108 ∷ 112 ∷ []

-- `a == "-c" || a == "--config"`, and so for each.
abbrev pub names : List ℕ → Opt → Bool
names a o = elim (short_name o) [
  | none ↦ same_text a (long_name o)
  | some s ↦ same_text a s || same_text a (long_name o)
]

abbrev pub first_named : List ℕ → List Opt → Option Opt
first_named a [] = none
first_named a (o ∷ os) = let rest = first_named a os in if names a o then some o else rest

-- The tests of the second loop, in their order.
unfoldable pub option_of : List ℕ → Option Opt
option_of a = first_named a (
    config_opt ∷ device_opt ∷ width_opt ∷ height_opt ∷ fps_opt ∷ port_opt ∷ bind_opt ∷ log_dir_opt
    ∷ log_file_opt ∷ verbose_opt ∷ version_opt ∷ help_opt ∷ [])

-- `cfg`, `verbose`, `logDir` and `logFile`.
pub record Settings : Type 0 where
  pub device : List ℕ
  pub width : ℤ
  pub height : ℤ
  pub fps : ℤ
  pub port : ℕ
  pub bind_addr : List ℕ
  pub verbose : Bool
  pub log_dir : List ℕ
  pub log_file : List ℕ

-- What `main` does with its options: it ends with a code, or goes on with these settings.
pub data Parsed : Type 0 where
  exits : ℕ → Parsed
  goes_on : Settings → Parsed

-- The first loop: `none` for `-V`, or else the path of the configuration. A `-c` at the end is not
-- followed by a path, and is passed over.
unfoldable pub scan_config : List (List ℕ) → List ℕ → Option (List ℕ)
scan_config [] path = some path
scan_config (a ∷ []) path = if names a version_opt then none else some path
scan_config (a ∷ b ∷ more) path =
    let skipped = scan_config more b in
    let rest = scan_config (b ∷ more) path in
    if names a version_opt then none else if names a config_opt then skipped else rest

-- An option with a value.
abbrev pub set_value : Opt → List ℕ → Settings → Settings
set_value device_opt v s = record s { device = v }
set_value width_opt v s = record s { width = atoi v }
set_value height_opt v s = record s { height = atoi v }
set_value fps_opt v s = record s { fps = atoi v }
set_value port_opt v s = record s { port = to_u16 (atoi v) }
set_value bind_opt v s = record s { bind_addr = v }
set_value log_dir_opt v s = record s { log_dir = v }
set_value log_file_opt v s = record s { log_file = v }
set_value _ v s = s

-- What an option asks of the loop.
pub data Arity : Type 0 where
  takes_value skips_value stands_alone : Arity
  ends : ℕ → Arity

abbrev pub arity : Option Opt → Arity
arity none = ends 2
arity (some config_opt) = skips_value
arity (some verbose_opt) = stands_alone
arity (some version_opt) = ends 0
arity (some help_opt) = ends 0
arity (some o) = takes_value

abbrev pub set_alone : Settings → Settings
set_alone s = record s { verbose = true }

-- The last argument: a value that is missing ends the program.
pub last_option : Arity → Settings → Parsed
last_option takes_value s = exits 2
last_option skips_value s = goes_on s
last_option stands_alone s = goes_on (set_alone s)
last_option (ends code) s = exits code

-- An argument before others, by what the loop makes of those where it takes a value, skips one or
-- stands alone.
pub next_option : Arity → Parsed → Parsed → Parsed → Parsed
next_option takes_value valued skipped alone = valued
next_option skips_value valued skipped alone = skipped
next_option stands_alone valued skipped alone = alone
next_option (ends code) valued skipped alone = exits code

abbrev pub set_option : Option Opt → List ℕ → Settings → Settings
set_option none v s = s
set_option (some o) v s = set_value o v s

-- The second loop.
unfoldable pub parse_loop : List (List ℕ) → Settings → Parsed
unfolding last_option next_option
parse_loop [] s = goes_on s
parse_loop (a ∷ []) s = last_option (arity (option_of a)) s
parse_loop (a ∷ b ∷ more) s =
    let o = option_of a in
    let valued = parse_loop more (set_option o b s) in
    let skipped = parse_loop more s in
    let alone = parse_loop (b ∷ more) (set_alone s) in next_option (arity o) valued skipped alone

-- /etc/patrol/config.json
abbrev pub default_path : List ℕ
default_path =
    47 ∷ 101 ∷ 116 ∷ 99 ∷ 47 ∷ 112 ∷ 97 ∷ 116 ∷ 114 ∷ 111 ∷ 108 ∷ 47 ∷ 99 ∷ 111 ∷ 110 ∷ 102 ∷ 105
    ∷ 103 ∷ 46 ∷ 106 ∷ 115 ∷ 111 ∷ 110 ∷ []

-- `load` is what the configuration at a path makes of the settings.
unfoldable pub main_options : (List ℕ → Settings) → List (List ℕ) → Parsed
main_options load args = elim (scan_config args default_path) [
  | none ↦ exits 0
  | some path ↦ parse_loop args (load path)
]
