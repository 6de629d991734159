-- ===== src/Business/Patrol/Runs.antt =====
-- Runs of calls of the patrol controller.
use long.Base.{ℕ, ◌≡◌, refl, ap, ◌∙◌, Bool, true, false, List, [], ◌∷◌, ◌++◌, Option, none, some}
use long.Model.{Waypoint}
use long.Business.Patrol.{PatrolController, start, pause, resume, abort, tick}

pub data Call : Type 0 where
  start_call : List Waypoint → Option ℕ → Call
  pause_call resume_call abort_call tick_call : Call

abbrev pub step : PatrolController → Call → PatrolController × List (ℕ × Bool)
step p (start_call path cb) = ((start p path cb).0, [])
step p pause_call = (pause p, [])
step p resume_call = (resume p, [])
step p abort_call = abort p
step p tick_call = (tick p, [])

abbrev pub steps : PatrolController → List Call → PatrolController × List (ℕ × Bool)
steps p [] = (p, [])
steps p (c ∷ cs) = ((steps (step p c).0 cs).0, (step p c).1 ++ (steps (step p c).0 cs).1)

-- What the calls say of the controller, read from the last call backwards: whether it runs.
abbrev pub runs : List Call → Option Bool
runs [] = none
runs (c ∷ cs) = elim (runs cs) [
  | some b ↦ some b
  | none ↦ elim c [
    | start_call [] cb ↦ none
    | start_call (w ∷ ws) cb ↦ some true
    | pause_call ↦ some false
    | resume_call ↦ some true
    | abort_call ↦ some false
    | tick_call ↦ none
  ]
]

-- The calls of callbacks: each abort calls the one that the last start with a path has given, also
-- if an earlier abort has done so.
abbrev pub aborts : Option ℕ → List Call → List (ℕ × Bool)
aborts cb [] = []
aborts cb (start_call [] cb' ∷ cs) = aborts cb cs
aborts cb (start_call (w ∷ ws) cb' ∷ cs) = aborts cb' cs
aborts cb (pause_call ∷ cs) = aborts cb cs
aborts cb (resume_call ∷ cs) = aborts cb cs
aborts cb (abort_call ∷ cs) = elim cb [ none ↦ [] | some n ↦ (n, false) ∷ [] ] ++ aborts cb cs
aborts cb (tick_call ∷ cs) = aborts cb cs

abbrev pub or_else : Bool → Option Bool → Bool
or_else d none = d
or_else d (some b) = b

pub record IsRun (p : PatrolController) (cs : List Call) : Type 0 where
  pub running : (steps p cs).0.running ≡ or_else p.running (runs cs)
  pub current_wp : (steps p cs).0.current_wp ≡ 0
  pub told : (steps p cs).1 ≡ aborts p.done_cb cs

running_step :
    (p : PatrolController) (c : Call) (o : Option Bool)
    → or_else (step p c).0.running o
      ≡ or_else p.running (elim o [
        | some b ↦ some b
        | none ↦ elim c [
          | start_call [] cb ↦ none
          | start_call (w ∷ ws) cb ↦ some true
          | pause_call ↦ some false
          | resume_call ↦ some true
          | abort_call ↦ some false
          | tick_call ↦ none
        ]
      ])
unfolding start pause resume abort tick
running_step p c (some b) = refl
running_step p (start_call [] cb) none = refl
running_step p (start_call (w ∷ ws) cb) none = refl
running_step p pause_call none = refl
running_step p resume_call none = refl
running_step p abort_call none = refl
running_step p tick_call none = refl

current_wp_step : (p : PatrolController) (c : Call) → p.current_wp ≡ 0 → (step p c).0.current_wp ≡ 0
unfolding start pause resume abort tick
current_wp_step p (start_call [] cb) e = e
current_wp_step p (start_call (w ∷ ws) cb) e = refl
current_wp_step p pause_call e = e
current_wp_step p resume_call e = e
current_wp_step p abort_call e = refl
current_wp_step p tick_call e = e

told_step :
    (p : PatrolController) (c : Call) (cs : List Call)
    → (step p c).1 ++ aborts (step p c).0.done_cb cs ≡ aborts p.done_cb (c ∷ cs)
unfolding start pause resume abort tick
told_step p (start_call [] cb) cs = refl
told_step p (start_call (w ∷ ws) cb) cs = refl
told_step p pause_call cs = refl
told_step p resume_call cs = refl
told_step p abort_call cs = refl
told_step p tick_call cs = refl

-- After any calls from a controller at its first waypoint: it runs as the last call that says so
-- wants it, it is still at its first waypoint, and its callbacks were told of aborts only, never of
-- success.
pub steps-IsRun : (p : PatrolController) (cs : List Call) → p.current_wp ≡ 0 → IsRun p cs
steps-IsRun p [] e = record { running = refl; current_wp = e; told = refl }
steps-IsRun p (c ∷ cs) e =
    let rest = steps-IsRun (step p c).0 cs (current_wp_step p c e) in
    record {
      running = rest.running ∙ running_step p c (runs cs);
      current_wp = rest.current_wp;
      told = ap (λ t. (step p c).1 ++ t) rest.told ∙ told_step p c cs;
    }
