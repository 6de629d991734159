-- ===== src/Main/Options.antt =====
-- A saved configuration under the options of src/main.cpp.
use long.Base.{ℕ, ◌≡◌, refl, ap, subst, ◌∙◌, Bool, true, false, ◌||◌, List, [], Option, All}
use long.Base.Int.{ℤ, to_u16}
use long.Text.{atoi}
use long.Config.{ConfigManager, default_config, load, save}
use long.Config.Range.{InRange}
use long.Config.Saved.{IsPlainConfig}
use long.Config.Saved.Again.{load-save}
use long.Cli.{
  config_opt, device_opt, width_opt, height_opt, fps_opt, port_opt, bind_opt, log_dir_opt,
  log_file_opt, verbose_opt, Settings, goes_on, default_path,
}
use long.Cli.Spelled.{Item, IsItem, spell}
use long.Cli.Says.{last_value, said, asked, Says, main_options-Says}
use long.Main.{settings_of, main_config}

-- The settings are those of the configuration, but for what the items say.
pub record Configured (c : ConfigManager) (is : List Item) (s : Settings) : Type 0 where
  pub device : s.device ≡ said (λ v. v) c.camera.device (last_value device_opt is)
  pub width : s.width ≡ said atoi c.camera.width (last_value width_opt is)
  pub height : s.height ≡ said atoi c.camera.height (last_value height_opt is)
  pub fps : s.fps ≡ said atoi c.camera.fps (last_value fps_opt is)
  pub port : s.port ≡ said (λ v. to_u16 (atoi v)) c.network.port (last_value port_opt is)
  pub bind_addr : s.bind_addr ≡ said (λ v. v) c.network.bind_addr (last_value bind_opt is)
  pub verbose : s.verbose ≡ asked verbose_opt is
  pub log_dir : s.log_dir ≡ said (λ v. v) [] (last_value log_dir_opt is)
  pub log_file : s.log_file ≡ said (λ v. v) [] (last_value log_file_opt is)

or_false : (b : Bool) → (b || false) ≡ b
or_false true = refl
or_false false = refl

settings_again :
    (c : ConfigManager) (is : List Item) (s : Settings)
    → Says (settings_of c) is s
    → Configured c is s
settings_again c is s h = record {
  device = h.device;
  width = h.width;
  height = h.height;
  fps = h.fps;
  port = h.port;
  bind_addr = h.bind_addr;
  verbose = h.verbose ∙ or_false (asked verbose_opt is);
  log_dir = h.log_dir;
  log_file = h.log_file;
}

-- Where the file that the last `-c` names, or else the default one, was written by `save`, the
-- program goes on with the saved device, size, rate, port and address, each of them replaced by
-- what the last option for it says; it is verbose if that is asked for, and logs to the directory
-- and the file that the options name. The options ask neither for help nor for the version, and no
-- value of theirs reads like `-V` or `-c`, in its short form or its long; the numbers of the
-- configuration are in the range of their types, and its strings hold no quote, backslash or NUL.
pub main_config-save :
    (to_long : List ℕ → ℤ) (files : List ℕ → Option (List ℕ)) (is : List Item) (c : ConfigManager)
    (held : Option (List ℕ))
    → All IsItem is
    → InRange c
    → IsPlainConfig c
    → files (said (λ v. v) default_path (last_value config_opt is)) ≡ (save true held c).1
    → (s : Settings) × (main_config to_long files (spell is) ≡ goes_on s) × Configured c is s
main_config-save to_long files is c held i r p e =
    let given = said (λ v. v) default_path (last_value config_opt is) in
    let from = λ (path : List ℕ). settings_of (load to_long (files path) default_config).1 in
    let again : from given ≡ settings_of c =
      ap (λ f. settings_of (load to_long f default_config).1) e
      ∙ ap (λ l. settings_of l.1) (load-save to_long c default_config held r p) in
    let (s, ends, says) = main_options-Says from is i in
    (s, ends, settings_again c is s (subst (λ t. Says t is s) again says))
