-- ===== src/Logger/Lines.antt =====
-- What src/modules/logger/Logger.cpp writes for a run of calls.
use long.Base.{
  ℕ, ◌≡◌, refl, sym, ap, subst, ◌∙◌, Bool, true, false, Bool-cases, inl, inr, List, [], ◌∷◌, ◌++◌,
  append_assoc, append-nil, Option, none, some, if◌then◌else◌, ◌==◌, ltb, leb, arith,
}
use long.Logger.{
  LogLevel, rank, Output, to_stderr, to_file, Logger, LogCall, line_text, write_line, log,
}

-- What was written so far to stderr, and to a stream; the latest output stands first.
abbrev pub err_text : List Output → List ℕ
err_text [] = []
err_text (to_stderr text ∷ earlier) = err_text earlier ++ text
err_text (_ ∷ earlier) = err_text earlier

abbrev pub file_text : ℕ → List Output → List ℕ
file_text n [] = []
file_text n (to_file m text ∷ earlier) = file_text n earlier ++ (if m == n then text else [])
file_text n (_ ∷ earlier) = file_text n earlier

abbrev pub log_all : List LogCall → Logger → Logger
log_all [] g = g
log_all (r ∷ rs) g = log_all rs (log r g)

-- The lines of the calls that reach the threshold.
abbrev pub lines_from : LogLevel → List LogCall → List ℕ
lines_from threshold [] = []
lines_from threshold (r ∷ rs) =
    (if leb (rank threshold) (rank r.level) then line_text r else []) ++ lines_from threshold rs

-- The stream is the one numbered `n`.
abbrev pub streams : Option ℕ → ℕ → Bool
streams none n = false
streams (some m) n = m == n

abbrev pub holds : Logger → ℕ → Bool
holds g n = streams g.file n

-- The logger has written the text, to stderr and to the file that it holds.
pub record Appends (g g' : Logger) (text : List ℕ) : Type 0 where
  pub same_level : g'.level ≡ g.level
  pub same_file : g'.file ≡ g.file
  pub on_stderr : err_text g'.outputs ≡ err_text g.outputs ++ text
  pub in_file :
      (n : ℕ) → file_text n g'.outputs ≡ file_text n g.outputs ++ (if holds g n then text else [])

nothing : (b : Bool) → ◌≡◌ {A = List ℕ} (if b then [] else []) []
nothing true = refl
nothing false = refl

nothing-Appends : (g : Logger) → Appends g g []
nothing-Appends g = record {
  same_level = refl;
  same_file = refl;
  on_stderr = sym (append-nil (err_text g.outputs));
  in_file = λ n.
      sym (append-nil (file_text n g.outputs))
      ∙ ap (◌++◌ (file_text n g.outputs)) (sym (nothing (holds g n)));
}

write_line-Appends :
    (text : List ℕ) (file : Option ℕ) (l : LogLevel) (outputs : List Output)
    → Appends
        (record { level = l; file = file; outputs = outputs })
        (write_line text file (record { level = l; file = file; outputs = outputs }))
        text
unfolding write_line
write_line-Appends text none l outputs = record {
  same_level = refl;
  same_file = refl;
  on_stderr = refl;
  in_file = λ n. sym (append-nil (file_text n outputs));
}
write_line-Appends text (some m) l outputs = record {
  same_level = refl;
  same_file = refl;
  on_stderr = refl;
  in_file = λ n. refl;
}

log-Appends :
    (r : LogCall) (g : Logger)
    → Appends g (log r g) (if leb (rank g.level) (rank r.level) then line_text r else [])
unfolding log
log-Appends r g = elim (Bool-cases (ltb (rank r.level) (rank g.level))) [
  | inl t ↦ rw (t, below (rank r.level) (rank g.level) t, log) (nothing-Appends g)
  | inr t ↦
      rw (t, above (rank r.level) (rank g.level) t, log)
        (write_line-Appends (line_text r) g.file g.level g.outputs)
]
  where
    below : (a b : ℕ) → ltb a b ≡ true → leb b a ≡ false
    below a b t = ground arith

    above : (a b : ℕ) → ltb a b ≡ false → leb b a ≡ true
    above a b t = ground arith

joined :
    (b : Bool) (t u : List ℕ)
    → (if b then t else []) ++ (if b then u else []) ≡ (if b then t ++ u else [])
joined true t u = refl
joined false t u = refl

then-Appends :
    (g h k : Logger) (t u : List ℕ) → Appends g h t → Appends h k u → Appends g k (t ++ u)
then-Appends g h k t u p q = record {
  same_level = q.same_level ∙ p.same_level;
  same_file = q.same_file ∙ p.same_file;
  on_stderr =
      q.on_stderr ∙ ap (λ (s : List ℕ). s ++ u) p.on_stderr ∙ append_assoc (err_text g.outputs) t u;
  in_file = λ n.
      let b = holds g n in
      let here : holds h n ≡ b = ap (λ f. streams f n) p.same_file in
      q.in_file n
      ∙ ap (λ c. file_text n h.outputs ++ (if c then u else [])) here
      ∙ ap (λ (s : List ℕ). s ++ (if b then u else [])) (p.in_file n)
      ∙ append_assoc (file_text n g.outputs) (if b then t else []) (if b then u else [])
      ∙ ap (◌++◌ (file_text n g.outputs)) (joined b t u);
}

-- A run of calls writes the lines of those that reach the threshold, whole and in their order, to
-- stderr and, where a log file is open, the same lines to that file and to no other.
pub log_all-Appends :
    (rs : List LogCall) (g : Logger) → Appends g (log_all rs g) (lines_from g.level rs)
log_all-Appends [] g = nothing-Appends g
log_all-Appends (r ∷ rs) g =
    let first = log-Appends r g in
    then-Appends g (log r g) (log_all rs (log r g)) _ (lines_from g.level rs) first (
      subst (λ l. Appends (log r g) (log_all rs (log r g)) (lines_from l rs)) first.same_level
        (log_all-Appends rs (log r g)))
