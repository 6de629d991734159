-- ===== src/Cli/Says.antt =====
-- What the options of src/main.cpp say, one setting at a time.
use long.Base.{
  ℕ, ◌≡◌, refl, ap, subst, ◌∙◌, Bool, true, false, ◌||◌, List, [], ◌∷◌, Option, none, some,
  if◌then◌else◌, ◌==◌, All,
}
use long.Base.Int.{to_u16}
use long.Text.{atoi}
use long.Cli.{
  Opt, config_opt, device_opt, width_opt, height_opt, fps_opt, port_opt, bind_opt, log_dir_opt,
  log_file_opt, verbose_opt, version_opt, help_opt, Settings, goes_on, set_value, set_alone,
  default_path, main_options,
}
use long.Cli.Spelled.{Item, is_alone, is_config, IsItem, spell, path_in, settings_in}
use long.Cli.Parse.{main_options-spell}

abbrev pub number : Opt → ℕ
number config_opt = 0
number device_opt = 1
number width_opt = 2
number height_opt = 3
number fps_opt = 4
number port_opt = 5
number bind_opt = 6
number log_dir_opt = 7
number log_file_opt = 8
number verbose_opt = 9
number version_opt = 10
number help_opt = 11

abbrev pub same_opt : Opt → Opt → Bool
same_opt o p = number o == number p

-- The value of the last item of this option, if there is one.
abbrev pub last_value : Opt → List Item → Option (List ℕ)
last_value o [] = none
last_value o (i ∷ is) = elim (last_value o is) [
  | some v ↦ some v
  | none ↦ if same_opt i.opt o then some i.value else none
]

-- What it says by `f`, or `d` where there is none.
abbrev pub said {ℓ} : {A : Type ℓ} → (List ℕ → A) → A → Option (List ℕ) → A
said f d none = d
said f d (some v) = f v

abbrev pub asked : Opt → List Item → Bool
asked o [] = false
asked o (i ∷ is) = same_opt i.opt o || asked o is

-- The settings `s'` are `s`, but for what the items say.
pub record Says (s : Settings) (is : List Item) (s' : Settings) : Type 0 where
  pub device : s'.device ≡ said (λ v. v) s.device (last_value device_opt is)
  pub width : s'.width ≡ said atoi s.width (last_value width_opt is)
  pub height : s'.height ≡ said atoi s.height (last_value height_opt is)
  pub fps : s'.fps ≡ said atoi s.fps (last_value fps_opt is)
  pub port : s'.port ≡ said (λ v. to_u16 (atoi v)) s.port (last_value port_opt is)
  pub bind_addr : s'.bind_addr ≡ said (λ v. v) s.bind_addr (last_value bind_opt is)
  pub verbose : s'.verbose ≡ (asked verbose_opt is || s.verbose)
  pub log_dir : s'.log_dir ≡ said (λ v. v) s.log_dir (last_value log_dir_opt is)
  pub log_file : s'.log_file ≡ said (λ v. v) s.log_file (last_value log_file_opt is)

abbrev change : Settings → Opt → List ℕ → Settings
change s o v = if is_alone o then set_alone s else set_value o v s

abbrev Changes : Settings → Opt → List ℕ → Settings → Type 0
Changes s o v s' =
    (s'.device ≡ (if same_opt o device_opt then v else s.device))
    × (s'.width ≡ (if same_opt o width_opt then atoi v else s.width))
    × (s'.height ≡ (if same_opt o height_opt then atoi v else s.height))
    × (s'.fps ≡ (if same_opt o fps_opt then atoi v else s.fps))
    × (s'.port ≡ (if same_opt o port_opt then to_u16 (atoi v) else s.port))
    × (s'.bind_addr ≡ (if same_opt o bind_opt then v else s.bind_addr))
    × (s'.verbose ≡ (same_opt o verbose_opt || s.verbose))
    × (s'.log_dir ≡ (if same_opt o log_dir_opt then v else s.log_dir))
    × (s'.log_file ≡ (if same_opt o log_file_opt then v else s.log_file))

change-Changes : (o : Opt) (s : Settings) (v : List ℕ) → Changes s o v (change s o v)
change-Changes config_opt s v = (refl, refl, refl, refl, refl, refl, refl, refl, refl)
change-Changes device_opt s v = (refl, refl, refl, refl, refl, refl, refl, refl, refl)
change-Changes width_opt s v = (refl, refl, refl, refl, refl, refl, refl, refl, refl)
change-Changes height_opt s v = (refl, refl, refl, refl, refl, refl, refl, refl, refl)
change-Changes fps_opt s v = (refl, refl, refl, refl, refl, refl, refl, refl, refl)
change-Changes port_opt s v = (refl, refl, refl, refl, refl, refl, refl, refl, refl)
change-Changes bind_opt s v = (refl, refl, refl, refl, refl, refl, refl, refl, refl)
change-Changes log_dir_opt s v = (refl, refl, refl, refl, refl, refl, refl, refl, refl)
change-Changes log_file_opt s v = (refl, refl, refl, refl, refl, refl, refl, refl, refl)
change-Changes verbose_opt s v = (refl, refl, refl, refl, refl, refl, refl, refl, refl)
change-Changes version_opt s v = (refl, refl, refl, refl, refl, refl, refl, refl, refl)
change-Changes help_opt s v = (refl, refl, refl, refl, refl, refl, refl, refl, refl)

said-last_value {ℓ} :
    {A : Type ℓ} (f : List ℕ → A) (d e : A) (o : Opt) (i : Item) (is : List Item)
    → e ≡ (if same_opt i.opt o then f i.value else d)
    → said f e (last_value o is) ≡ said f d (last_value o (i ∷ is))
said-last_value f d e o i is k =
    ap (λ d. said f d (last_value o is)) k ∙ go (last_value o is) (same_opt i.opt o)
  where
    go :
        (l : Option (List ℕ)) (b : Bool)
        → said f (if b then f i.value else d) l
          ≡ said f d (elim l [ some v ↦ some v | none ↦ if b then some i.value else none ])
    go none true = refl
    go none false = refl
    go (some v) b = refl

asked_first : (a b c : Bool) → (b || (a || c)) ≡ ((a || b) || c)
asked_first true true c = refl
asked_first true false c = refl
asked_first false b c = refl

settings_in-Says : (is : List Item) (s : Settings) → Says s is (settings_in s is)
settings_in-Says [] s = record {
  device = refl;
  width = refl;
  height = refl;
  fps = refl;
  port = refl;
  bind_addr = refl;
  verbose = refl;
  log_dir = refl;
  log_file = refl;
}
settings_in-Says (i ∷ is) s =
    let first = change-Changes i.opt s i.value in
    let rest = settings_in-Says is (change s i.opt i.value) in
    record {
      device = rest.device ∙ said-last_value _ _ _ device_opt i is first.0;
      width = rest.width ∙ said-last_value _ _ _ width_opt i is first.1;
      height = rest.height ∙ said-last_value _ _ _ height_opt i is first.2;
      fps = rest.fps ∙ said-last_value _ _ _ fps_opt i is first.3;
      port = rest.port ∙ said-last_value _ _ _ port_opt i is first.4;
      bind_addr = rest.bind_addr ∙ said-last_value _ _ _ bind_opt i is first.5;
      verbose =
          rest.verbose
          ∙ ap (λ b. asked verbose_opt is || b) first.6
          ∙ asked_first (same_opt i.opt verbose_opt) (asked verbose_opt is) s.verbose;
      log_dir = rest.log_dir ∙ said-last_value _ _ _ log_dir_opt i is first.7;
      log_file = rest.log_file ∙ said-last_value _ _ _ log_file_opt i is first.8;
    }

pub path_in-last_value :
    (is : List Item) (path : List ℕ)
    → path_in path is ≡ said (λ v. v) path (last_value config_opt is)
path_in-last_value [] path = refl
path_in-last_value (i ∷ is) path =
    path_in-last_value is (if is_config i.opt then i.value else path)
    ∙ said-last_value _ _ _ config_opt i is (go i.opt)
  where
    go :
        (o : Opt)
        → (if is_config o then i.value else path)
          ≡ (if same_opt o config_opt then i.value else path)
    go config_opt = refl
    go device_opt = refl
    go width_opt = refl
    go height_opt = refl
    go fps_opt = refl
    go port_opt = refl
    go bind_opt = refl
    go log_dir_opt = refl
    go log_file_opt = refl
    go verbose_opt = refl
    go version_opt = refl
    go help_opt = refl

-- Written out on the command line, by short names or long, options make the program go on with
-- settings in which each text, number and port is that of the last option for it, as `atoi` reads
-- it, the port cut to 16 bits, or as the configuration has it where there is none; and the program
-- is verbose if that is asked for or was set before. The configuration is the last one named, or
-- else the default. The options ask neither for help nor for the version, and no value of theirs
-- reads like `-V` or `-c`, in its short form or its long.
pub main_options-Says :
    (load : List ℕ → Settings) (is : List Item)
    → All IsItem is
    → (s : Settings) × (main_options load (spell is) ≡ goes_on s)
      × Says (load (said (λ v. v) default_path (last_value config_opt is))) is s
main_options-Says load is h = (
  settings_in (load (path_in default_path is)) is,
  main_options-spell load is h,
  subst (λ p. Says (load p) is (settings_in (load (path_in default_path is)) is))
      (path_in-last_value is default_path) (settings_in-Says is (load (path_in default_path is))),
)
