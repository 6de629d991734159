-- ===== src/Main/Exit.antt =====
-- How src/main.cpp ends.
use long.Base.{
  ℕ, ◌≡◌, sym, ap, subst, ◌∙◌, ◌⊎◌, inl, inr, Bool, true, false, List, Option, none, some,
  eq_of_some,
}
use long.Base.Int.{ℤ}
use long.Camera.{Camera}
use long.App.Whole.{Try, Visit, application}
use long.App.Whole.Code.{Coded, application-Coded}
use long.Cli.{Settings, Parsed, exits, goes_on}
use long.Cli.Exits.{EndsWell, main_options-EndsWell}
use long.Config.{default_config, load}
use long.Main.{settings_of, main_config, exit_code}

-- Why a program ends with this code: its command line is bad, the port cannot be listened on, or
-- all is well.
pub data Why (p : Parsed) (running listened : Bool) (code : ℕ) : Type 0 where
  bad_options : code ≡ 2 → p ≡ exits 2 → Why p running listened code
  cannot_listen : code ≡ 1 → running ≡ true → listened ≡ false → Why p running listened code
  well : code ≡ 0 → Why p running listened code

options-Why :
    (running listened : Bool) (code : ℕ)
    → (code ≡ 0) ⊎ (code ≡ 2)
    → Why (exits code) running listened code
options-Why running listened code (inl e) = well e
options-Why running listened code (inr e) = bad_options e (ap exits e)

application-Why :
    (s : Settings) (running listened : Bool) (o : Option (Camera × ℕ)) (code : ℕ)
    → Coded running listened o
    → elim o [ none ↦ none | some (cam, c) ↦ some c ] ≡ some code
    → Why (goes_on s) running listened code
application-Why s running listened none code h e = absurd cc
application-Why s running listened (some (cam, c)) code (inl z) e = well (sym (eq_of_some e) ∙ z)
application-Why s running listened (some (cam, c)) code (inr w) e =
    cannot_listen (sym (eq_of_some e) ∙ w.0) w.1 w.2

exit_code-Why :
    (p : Parsed) (tries : List Try) (running listened : Bool) (visits : List Visit) (code : ℕ)
    → EndsWell p
    → exit_code p tries running listened visits ≡ some code
    → Why p running listened code
unfolding exit_code
exit_code-Why (exits c) tries running listened visits code h e =
    subst (Why (exits c) running listened) (eq_of_some e) (options-Why running listened c h)
exit_code-Why (goes_on s) tries running listened visits code h e =
    application-Why s running listened (application s.fps tries running listened visits) code
      (application-Coded s.fps tries running listened visits) e

-- The exit code of the program, on any command line, files and run: 2 only for a command line that
-- the options reject, 1 only where the port cannot be listened on, and 0 otherwise.
pub main_config-Why :
    (to_long : List ℕ → ℤ) (files : List ℕ → Option (List ℕ)) (args : List (List ℕ))
    (tries : List Try) (running listened : Bool) (visits : List Visit) (code : ℕ)
    → exit_code (main_config to_long files args) tries running listened visits ≡ some code
    → Why (main_config to_long files args) running listened code
main_config-Why to_long files args tries running listened visits code e =
    exit_code-Why (main_config to_long files args) tries running listened visits code
      (main_options-EndsWell (λ path. settings_of (load to_long (files path) default_config).1)
        args)
      e
