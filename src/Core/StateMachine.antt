-- ===== src/Core/StateMachine.antt =====
-- include/core/StateMachine.h. A call of `process` holds the mutex to its end. States and events
-- are the integers of their enumerations.
pub mod Follow
use long.Base.{
  ℕ, Bool, true, false, not, ◌&&◌, List, [], ◌∷◌, ◌++◌, Option, none, some, if◌then◌else◌, ◌==◌,
}

-- `guard` is `none` where there is none; `has_action` is that `action` is set.
pub record Info : Type 0 where
  pub to : ℕ
  pub has_action : Bool
  pub guard : Option (ℕ → ℕ → Bool)

-- `trans_` as an association list; `enter_cb` and `exit_cb` tell for which states a callback is
-- set.
pub record StateMachine : Type 0 where
  pub cur : ℕ
  pub trans : List ((ℕ × ℕ) × Info)
  pub enter_cb : ℕ → Bool
  pub exit_cb : ℕ → Bool

abbrev pub new_machine : ℕ → StateMachine
new_machine initial = record {
  cur = initial;
  trans = [];
  enter_cb = λ s. false;
  exit_cb = λ s. false;
}

-- The keys compare equal where neither is less.
abbrev pub same_key : ℕ × ℕ → ℕ × ℕ → Bool
same_key (from, ev) (from', ev') = (from == from') && (ev == ev')

-- `trans_[k] = …`
unfoldable pub put : List ((ℕ × ℕ) × Info) → ℕ × ℕ → Info → List ((ℕ × ℕ) × Info)
put [] k i = (k, i) ∷ []
put ((k', i') ∷ kis) k i =
    let rest = put kis k i in if same_key k' k then (k, i) ∷ kis else (k', i') ∷ rest

unfoldable pub find : List ((ℕ × ℕ) × Info) → ℕ × ℕ → Option Info
find [] k = none
find ((k', i') ∷ kis) k = let rest = find kis k in if same_key k' k then some i' else rest

unfoldable pub add_transition :
    StateMachine → ℕ → ℕ → ℕ → Bool → Option (ℕ → ℕ → Bool) → StateMachine
add_transition m from ev to has_action guard = record m {
  trans = put m.trans (from, ev) (record { to = to; has_action = has_action; guard = guard });
}

abbrev pub on_enter : StateMachine → ℕ → Bool → StateMachine
on_enter m s set = record m { enter_cb = λ t. if t == s then set else m.enter_cb t }

abbrev pub on_exit : StateMachine → ℕ → Bool → StateMachine
on_exit m s set = record m { exit_cb = λ t. if t == s then set else m.exit_cb t }

-- The calls that `process` makes.
pub data Effect : Type 0 where
  exited entered : ℕ → Effect
  acted : ℕ → ℕ → ℕ → Effect

-- `!t.guard || t.guard(cur_, ev)`
abbrev pub allowed : Info → ℕ → ℕ → Bool
allowed t cur ev = elim t.guard [ none ↦ true | some g ↦ g cur ev ]

unfoldable pub take_transition : StateMachine → ℕ → Info → StateMachine × (Bool × List Effect)
take_transition m ev t =
    if allowed t m.cur ev
    then (
      record m { cur = t.to },
      (
        true,
        (if m.exit_cb m.cur then exited m.cur ∷ [] else [])
            ++ ((if t.has_action then acted m.cur ev t.to ∷ [] else [])
                ++ (if m.enter_cb t.to then entered t.to ∷ [] else [])),
      ),
    )
    else (m, (false, []))

unfoldable pub found : StateMachine → ℕ → Option Info → StateMachine × (Bool × List Effect)
found m ev none = (m, (false, []))
found m ev (some t) = take_transition m ev t

-- The machine after the call, its result, and the callbacks that it calls, in order.
unfoldable pub process : StateMachine → ℕ → StateMachine × (Bool × List Effect)
unfolding found
process m ev = found m ev (find m.trans (m.cur, ev))
