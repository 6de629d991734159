-- ===== src/Cli/Spelled.antt =====
-- Options as they are written on the command line, and the first loop of `main`.
use long.Base.{
  ℕ, ◌≡◌, refl, ◌∙◌, Bool, true, false, List, [], ◌∷◌, ◌++◌, ap, some, if◌then◌else◌, All,
}
use long.Text.{codes}
use long.Cli.{
  Opt, config_opt, device_opt, width_opt, height_opt, fps_opt, port_opt, bind_opt, log_dir_opt,
  log_file_opt, verbose_opt, version_opt, help_opt, names, option_of, Settings, scan_config,
  set_value, set_alone,
}

-- An option, whether it is written by its short name where it has one, and its value.
pub record Item : Type 0 where
  pub opt : Opt
  pub short : Bool
  pub value : List ℕ

-- As the usage text lists them.
abbrev pub word : Opt → Bool → List ℕ
word config_opt true = codes "-c"
word config_opt false = codes "--config"
word device_opt true = codes "-d"
word device_opt false = codes "--device"
word width_opt true = codes "-W"
word width_opt false = codes "--width"
word height_opt true = codes "-H"
word height_opt false = codes "--height"
word fps_opt true = codes "-f"
word fps_opt false = codes "--fps"
word port_opt true = codes "-p"
word port_opt false = codes "--port"
word bind_opt true = codes "-b"
word bind_opt false = codes "--bind"
word log_dir_opt short = codes "--log-dir"
word log_file_opt short = codes "--log-file"
word verbose_opt true = codes "-v"
word verbose_opt false = codes "--verbose"
word version_opt true = codes "-V"
word version_opt false = codes "--version"
word help_opt true = codes "-h"
word help_opt false = codes "--help"

abbrev pub is_alone : Opt → Bool
is_alone verbose_opt = true
is_alone _ = false

abbrev pub is_config : Opt → Bool
is_config config_opt = true
is_config _ = false

-- The arguments for some items.
abbrev pub spell : List Item → List (List ℕ)
spell [] = []
spell (i ∷ is) = word i.opt i.short ∷ (if is_alone i.opt then spell is else i.value ∷ spell is)

abbrev pub IsSetting : Opt → Type 0
IsSetting version_opt = ⊥
IsSetting help_opt = ⊥
IsSetting _ = Unit {0}

-- Neither help nor the version is asked for, and a value does not look like that, or like a
-- configuration.
abbrev pub IsItem : Item → Type 0
IsItem i =
    IsSetting i.opt × ((names i.value version_opt ≡ false) × (names i.value config_opt ≡ false))

-- What the items say: the configuration, and the settings that they change, each in its turn.
abbrev pub path_in : List ℕ → List Item → List ℕ
path_in path [] = path
path_in path (i ∷ is) = path_in (if is_config i.opt then i.value else path) is

abbrev pub settings_in : Settings → List Item → Settings
settings_in s [] = s
settings_in s (i ∷ is) =
    settings_in (if is_alone i.opt then set_alone s else set_value i.opt i.value s) is

-- A word is its option's, and no other's.
pub record IsWord (o : Opt) (w : List ℕ) : Type 0 where
  pub option : option_of w ≡ some o
  pub version : names w version_opt ≡ false
  pub config : names w config_opt ≡ is_config o

pub word-IsWord : (o : Opt) (short : Bool) → IsSetting o → IsWord o (word o short)
unfolding option_of
word-IsWord config_opt true h = record { option = refl; version = refl; config = refl }
word-IsWord config_opt false h = record { option = refl; version = refl; config = refl }
word-IsWord device_opt true h = record { option = refl; version = refl; config = refl }
word-IsWord device_opt false h = record { option = refl; version = refl; config = refl }
word-IsWord width_opt true h = record { option = refl; version = refl; config = refl }
word-IsWord width_opt false h = record { option = refl; version = refl; config = refl }
word-IsWord height_opt true h = record { option = refl; version = refl; config = refl }
word-IsWord height_opt false h = record { option = refl; version = refl; config = refl }
word-IsWord fps_opt true h = record { option = refl; version = refl; config = refl }
word-IsWord fps_opt false h = record { option = refl; version = refl; config = refl }
word-IsWord port_opt true h = record { option = refl; version = refl; config = refl }
word-IsWord port_opt false h = record { option = refl; version = refl; config = refl }
word-IsWord bind_opt true h = record { option = refl; version = refl; config = refl }
word-IsWord bind_opt false h = record { option = refl; version = refl; config = refl }
word-IsWord log_dir_opt true h = record { option = refl; version = refl; config = refl }
word-IsWord log_dir_opt false h = record { option = refl; version = refl; config = refl }
word-IsWord log_file_opt true h = record { option = refl; version = refl; config = refl }
word-IsWord log_file_opt false h = record { option = refl; version = refl; config = refl }
word-IsWord verbose_opt true h = record { option = refl; version = refl; config = refl }
word-IsWord verbose_opt false h = record { option = refl; version = refl; config = refl }
word-IsWord version_opt true h = absurd h
word-IsWord version_opt false h = absurd h
word-IsWord help_opt true h = absurd h
word-IsWord help_opt false h = absurd h

-- An argument that the first loop passes over.
scan_pass :
    (w : List ℕ) (more : List (List ℕ)) (path : List ℕ)
    → names w version_opt ≡ false
    → names w config_opt ≡ false
    → scan_config (w ∷ more) path ≡ scan_config more path
unfolding scan_config
scan_pass w [] path h k = rw h refl
scan_pass w (b ∷ more) path h k = rw (h, k) refl

scan_path :
    (w v : List ℕ) (more : List (List ℕ)) (path : List ℕ)
    → names w version_opt ≡ false
    → names w config_opt ≡ true
    → scan_config (w ∷ v ∷ more) path ≡ scan_config more v
unfolding scan_config
scan_path w v more path h k = rw (h, k) refl

abbrev pub tail_of : Opt → List ℕ → List (List ℕ) → List (List ℕ)
tail_of o v more = if is_alone o then more else v ∷ more

scan_item :
    (o : Opt) (w v : List ℕ) (more : List (List ℕ)) (path : List ℕ)
    → IsWord o w
    → names v version_opt ≡ false
    → names v config_opt ≡ false
    → scan_config (w ∷ tail_of o v more) path ≡ scan_config more (if is_config o then v else path)
scan_item config_opt w v more path k a b = scan_path w v more path k.version k.config
scan_item verbose_opt w v more path k a b = scan_pass w more path k.version k.config
scan_item device_opt w v more path k a b =
    scan_pass w (v ∷ more) path k.version k.config ∙ scan_pass v more path a b
scan_item width_opt w v more path k a b =
    scan_pass w (v ∷ more) path k.version k.config ∙ scan_pass v more path a b
scan_item height_opt w v more path k a b =
    scan_pass w (v ∷ more) path k.version k.config ∙ scan_pass v more path a b
scan_item fps_opt w v more path k a b =
    scan_pass w (v ∷ more) path k.version k.config ∙ scan_pass v more path a b
scan_item port_opt w v more path k a b =
    scan_pass w (v ∷ more) path k.version k.config ∙ scan_pass v more path a b
scan_item bind_opt w v more path k a b =
    scan_pass w (v ∷ more) path k.version k.config ∙ scan_pass v more path a b
scan_item log_dir_opt w v more path k a b =
    scan_pass w (v ∷ more) path k.version k.config ∙ scan_pass v more path a b
scan_item log_file_opt w v more path k a b =
    scan_pass w (v ∷ more) path k.version k.config ∙ scan_pass v more path a b
scan_item version_opt w v more path k a b =
    scan_pass w (v ∷ more) path k.version k.config ∙ scan_pass v more path a b
scan_item help_opt w v more path k a b =
    scan_pass w (v ∷ more) path k.version k.config ∙ scan_pass v more path a b

pub tail_append :
    (o : Opt) (v : List ℕ) (xs ys : List (List ℕ)) → tail_of o v xs ++ ys ≡ tail_of o v (xs ++ ys)
tail_append o v xs ys = go (is_alone o)
  where
    go : (b : Bool) → (if b then xs else v ∷ xs) ++ ys ≡ (if b then xs ++ ys else v ∷ (xs ++ ys))
    go true = refl
    go false = refl

pub scan_config-spell :
    (is : List Item) (path : List ℕ) (more : List (List ℕ))
    → All IsItem is
    → scan_config (spell is ++ more) path ≡ scan_config more (path_in path is)
scan_config-spell [] path more h = refl
scan_config-spell (i ∷ is) path more h =
    ap (λ t. scan_config (word i.opt i.short ∷ t) path) (tail_append i.opt i.value (spell is) more)
    ∙ scan_item i.opt (word i.opt i.short) i.value (spell is ++ more) path
        (word-IsWord i.opt i.short h.0.0) h.0.1.0 h.0.1.1
    ∙ scan_config-spell is (if is_config i.opt then i.value else path) more h.1

-- No argument asks for the version.
abbrev pub NoVersion : List (List ℕ) → Type 0
NoVersion args = All (λ a. names a version_opt ≡ false) args

pub scan_config_finds :
    (args : List (List ℕ)) (path : List ℕ)
    → NoVersion args
    → (found : List ℕ) × (scan_config args path ≡ some found)
unfolding scan_config
scan_config_finds [] path h = (path, refl)
scan_config_finds (a ∷ []) path h = (path, rw h.0 refl)
scan_config_finds (a ∷ b ∷ more) path h = rw h.0 (
    go (names a config_opt) (scan_config_finds more b h.1.1)
      (scan_config_finds (b ∷ more) path h.1))
  where
    go :
        (t : Bool)
        → (found : List ℕ) × (scan_config more b ≡ some found)
        → (found : List ℕ) × (scan_config (b ∷ more) path ≡ some found)
        → (found : List ℕ) × ((if t then scan_config more b else scan_config (b ∷ more) path)
            ≡ some found)
    go true p q = p
    go false p q = q
