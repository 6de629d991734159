-- ===== src/Cli/Parse.antt =====
-- The second loop of `main`: the settings that a command line makes.
use long.Base.{
  ℕ, ◌≡◌, refl, sym, ap, ◌∙◌, Bool, false, List, [], ◌∷◌, ◌++◌, append-nil, none, some,
  if◌then◌else◌, All,
}
use long.Cli.{
  Opt, config_opt, device_opt, width_opt, height_opt, fps_opt, port_opt, bind_opt, log_dir_opt,
  log_file_opt, verbose_opt, version_opt, help_opt, option_of, Settings, Parsed, exits, goes_on,
  set_value, set_alone, arity, last_option, next_option, parse_loop, scan_config, default_path,
  main_options,
}
use long.Cli.Spelled.{
  Item, word, is_alone, spell, IsSetting, IsItem, path_in, settings_in, word-IsWord, tail_of,
  tail_append, NoVersion, scan_config_finds, scan_config-spell,
}

next_item :
    (o : Opt) (v : List ℕ) (s : Settings) (alone : Parsed) (parse : Settings → Parsed)
    → IsSetting o
    → is_alone o ≡ false
    → next_option (arity (some o)) (parse (set_value o v s)) (parse s) alone
      ≡ parse (set_value o v s)
unfolding next_option
next_item config_opt v s alone parse h k = refl
next_item device_opt v s alone parse h k = refl
next_item width_opt v s alone parse h k = refl
next_item height_opt v s alone parse h k = refl
next_item fps_opt v s alone parse h k = refl
next_item port_opt v s alone parse h k = refl
next_item bind_opt v s alone parse h k = refl
next_item log_dir_opt v s alone parse h k = refl
next_item log_file_opt v s alone parse h k = refl
next_item verbose_opt v s alone parse h k = absurd cc
next_item version_opt v s alone parse h k = absurd h
next_item help_opt v s alone parse h k = absurd h

parse_value :
    (o : Opt) (w v : List ℕ) (more : List (List ℕ)) (s : Settings)
    → IsSetting o
    → is_alone o ≡ false
    → option_of w ≡ some o
    → parse_loop (w ∷ v ∷ more) s ≡ parse_loop more (set_value o v s)
unfolding parse_loop
parse_value o w v more s h k e =
    rw e (next_item o v s (parse_loop (v ∷ more) (set_alone s)) (parse_loop more) h k)

parse_alone :
    (w : List ℕ) (more : List (List ℕ)) (s : Settings)
    → option_of w ≡ some verbose_opt
    → parse_loop (w ∷ more) s ≡ parse_loop more (set_alone s)
unfolding parse_loop last_option next_option
parse_alone w [] s e = rw e refl
parse_alone w (b ∷ more) s e = rw e refl

parse_item :
    (o : Opt) (w v : List ℕ) (more : List (List ℕ)) (s : Settings)
    → IsSetting o
    → option_of w ≡ some o
    → parse_loop (w ∷ tail_of o v more) s
      ≡ parse_loop more (if is_alone o then set_alone s else set_value o v s)
parse_item verbose_opt w v more s h e = parse_alone w more s e
parse_item version_opt w v more s h e = absurd h
parse_item help_opt w v more s h e = absurd h
parse_item config_opt w v more s h e = parse_value config_opt w v more s h refl e
parse_item device_opt w v more s h e = parse_value device_opt w v more s h refl e
parse_item width_opt w v more s h e = parse_value width_opt w v more s h refl e
parse_item height_opt w v more s h e = parse_value height_opt w v more s h refl e
parse_item fps_opt w v more s h e = parse_value fps_opt w v more s h refl e
parse_item port_opt w v more s h e = parse_value port_opt w v more s h refl e
parse_item bind_opt w v more s h e = parse_value bind_opt w v more s h refl e
parse_item log_dir_opt w v more s h e = parse_value log_dir_opt w v more s h refl e
parse_item log_file_opt w v more s h e = parse_value log_file_opt w v more s h refl e

-- What arguments follow some items does not change what the items set.
pub parse_loop-spell :
    (is : List Item) (s : Settings) (more : List (List ℕ))
    → All IsItem is
    → parse_loop (spell is ++ more) s ≡ parse_loop more (settings_in s is)
parse_loop-spell [] s more h = refl
parse_loop-spell (i ∷ is) s more h =
    ap (λ t. parse_loop (word i.opt i.short ∷ t) s) (tail_append i.opt i.value (spell is) more)
    ∙ parse_item i.opt (word i.opt i.short) i.value (spell is ++ more) s h.0.0
        (word-IsWord i.opt i.short h.0.0).option
    ∙ parse_loop-spell is (if is_alone i.opt then set_alone s else set_value i.opt i.value s) more
        h.1

-- The configuration is the last one named, and the items go over it in their turn.
pub main_options-spell :
    (load : List ℕ → Settings) (is : List Item)
    → All IsItem is
    → main_options load (spell is) ≡ goes_on (settings_in (load (path_in default_path is)) is)
unfolding main_options parse_loop scan_config
main_options-spell load is h =
    ap (main_options load) (sym (append-nil (spell is)))
    ∙ rw (scan_config-spell is default_path [] h, main_options)
        (parse_loop-spell is (load (path_in default_path is)) [] h)

-- An option with a value, other than the path of the configuration.
abbrev pub IsValued : Opt → Type 0
IsValued config_opt = ⊥
IsValued verbose_opt = ⊥
IsValued version_opt = ⊥
IsValued help_opt = ⊥
IsValued _ = Unit {0}

-- The argument is no option, or it is such an option without its value behind it.
pub data IsWrong (w : List ℕ) (more : List (List ℕ)) : Type 0 where
  unknown : option_of w ≡ none → IsWrong w more
  valueless : (o : Opt) (short : Bool) → IsValued o → w ≡ word o short → more ≡ [] → IsWrong w more

last_valued :
    (o : Opt) (w : List ℕ) (s : Settings)
    → IsValued o
    → option_of w ≡ some o
    → parse_loop (w ∷ []) s ≡ exits 2
unfolding parse_loop last_option
last_valued config_opt w s v e = absurd v
last_valued device_opt w s v e = rw e refl
last_valued width_opt w s v e = rw e refl
last_valued height_opt w s v e = rw e refl
last_valued fps_opt w s v e = rw e refl
last_valued port_opt w s v e = rw e refl
last_valued bind_opt w s v e = rw e refl
last_valued log_dir_opt w s v e = rw e refl
last_valued log_file_opt w s v e = rw e refl
last_valued verbose_opt w s v e = absurd v
last_valued version_opt w s v e = absurd v
last_valued help_opt w s v e = absurd v

valued-IsSetting : (o : Opt) → IsValued o → IsSetting o
valued-IsSetting config_opt v = tt
valued-IsSetting device_opt v = tt
valued-IsSetting width_opt v = tt
valued-IsSetting height_opt v = tt
valued-IsSetting fps_opt v = tt
valued-IsSetting port_opt v = tt
valued-IsSetting bind_opt v = tt
valued-IsSetting log_dir_opt v = tt
valued-IsSetting log_file_opt v = tt
valued-IsSetting verbose_opt v = tt
valued-IsSetting version_opt v = v
valued-IsSetting help_opt v = v

wrong_exits :
    (w : List ℕ) (more : List (List ℕ)) (s : Settings)
    → IsWrong w more
    → parse_loop (w ∷ more) s ≡ exits 2
unfolding parse_loop last_option next_option
wrong_exits w [] s (unknown e) = rw e refl
wrong_exits w (b ∷ more) s (unknown e) = rw e refl
wrong_exits w more s (valueless o short v e f) =
    rw f
      (last_valued o w s v (ap option_of e ∙ (word-IsWord o short (valued-IsSetting o v)).option))

-- After options that are written out, an argument that is no option ends the program with code 2,
-- and so does an option other than `-c` that lacks its value, as the last argument. The options
-- before ask neither for help nor for the version, no value of theirs reads like `-V` or `-c`, in
-- its short form or its long, and no argument behind them asks for the version.
pub main_options_rejects :
    (load : List ℕ → Settings) (is : List Item) (w : List ℕ) (more : List (List ℕ))
    → All IsItem is
    → NoVersion (w ∷ more)
    → IsWrong w more
    → main_options load (spell is ++ (w ∷ more)) ≡ exits 2
unfolding main_options
main_options_rejects load is w more h n k =
    let (path, e) = scan_config_finds (w ∷ more) (path_in default_path is) n in
    rw (scan_config-spell is default_path (w ∷ more) h ∙ e, main_options)
      (parse_loop-spell is (load path) (w ∷ more) h
        ∙ wrong_exits w more (settings_in (load path) is) k)
