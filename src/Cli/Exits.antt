-- ===== src/Cli/Exits.antt =====
-- The codes with which the options of src/main.cpp end the program.
use long.Base.{ℕ, ◌≡◌, refl, ◌⊎◌, inl, inr, List, [], ◌∷◌, Option, none, some}
use long.Cli.{
  Opt, config_opt, device_opt, width_opt, height_opt, fps_opt, port_opt, bind_opt, log_dir_opt,
  log_file_opt, verbose_opt, version_opt, help_opt, option_of, Settings, Parsed, exits, goes_on,
  Arity, takes_value, skips_value, stands_alone, ends, arity, set_alone, set_option, last_option,
  next_option, parse_loop, scan_config, default_path, main_options,
}

-- The options end the program with 0 or with 2, or not at all.
abbrev pub EndsWell : Parsed → Type 0
EndsWell (exits code) = (code ≡ 0) ⊎ (code ≡ 2)
EndsWell (goes_on s) = Unit

abbrev CodeOf : Arity → Type 0
CodeOf (ends code) = (code ≡ 0) ⊎ (code ≡ 2)
CodeOf _ = Unit

arity-CodeOf : (o : Option Opt) → CodeOf (arity o)
arity-CodeOf none = inr refl
arity-CodeOf (some config_opt) = tt
arity-CodeOf (some device_opt) = tt
arity-CodeOf (some width_opt) = tt
arity-CodeOf (some height_opt) = tt
arity-CodeOf (some fps_opt) = tt
arity-CodeOf (some port_opt) = tt
arity-CodeOf (some bind_opt) = tt
arity-CodeOf (some log_dir_opt) = tt
arity-CodeOf (some log_file_opt) = tt
arity-CodeOf (some verbose_opt) = tt
arity-CodeOf (some version_opt) = inl refl
arity-CodeOf (some help_opt) = inl refl

last_option-EndsWell : (a : Arity) (s : Settings) → CodeOf a → EndsWell (last_option a s)
unfolding last_option
last_option-EndsWell takes_value s h = inr refl
last_option-EndsWell skips_value s h = tt
last_option-EndsWell stands_alone s h = tt
last_option-EndsWell (ends code) s h = h

next_option-EndsWell :
    (a : Arity) (valued skipped alone : Parsed)
    → CodeOf a
    → EndsWell valued
    → EndsWell skipped
    → EndsWell alone
    → EndsWell (next_option a valued skipped alone)
unfolding next_option
next_option-EndsWell takes_value valued skipped alone h v k n = v
next_option-EndsWell skips_value valued skipped alone h v k n = k
next_option-EndsWell stands_alone valued skipped alone h v k n = n
next_option-EndsWell (ends code) valued skipped alone h v k n = h

parse_loop-EndsWell : (args : List (List ℕ)) (s : Settings) → EndsWell (parse_loop args s)
unfolding parse_loop
parse_loop-EndsWell [] s = tt
parse_loop-EndsWell (a ∷ []) s =
    last_option-EndsWell (arity (option_of a)) s (arity-CodeOf (option_of a))
parse_loop-EndsWell (a ∷ b ∷ more) s =
    next_option-EndsWell (arity (option_of a)) _ _ _ (arity-CodeOf (option_of a))
      (parse_loop-EndsWell more (set_option (option_of a) b s)) (parse_loop-EndsWell more s)
      (parse_loop-EndsWell (b ∷ more) (set_alone s))

pub main_options-EndsWell :
    (load : List ℕ → Settings) (args : List (List ℕ)) → EndsWell (main_options load args)
unfolding main_options
main_options-EndsWell load args = go (scan_config args default_path)
  where
    go :
        (o : Option (List ℕ))
        → EndsWell (elim o [ none ↦ exits 0 | some path ↦ parse_loop args (load path) ])
    go none = inl refl
    go (some path) = parse_loop-EndsWell args (load path)
