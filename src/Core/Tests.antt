-- ===== src/Core/Tests.antt =====
-- Runs of the core, and its theorems at inputs that meet their hypotheses.
use long.Base.{ℕ, ◌*◌, ◌≡◌, refl, List, [], ◌∷◌, map, none, some, true, arith}
use long.Core.EventBus.{
  empty_bus, publish, subscribe, unsubscribe, push_sub, erase_sub, erase_from, lookup,
}
use long.Core.EventBus.Ledger.{Op, subscribe_op, unsubscribe_op, run, list_run, listeners}
use long.Core.EventBus.Refines.{publish-listeners}
use long.Core.StateMachine.{StateMachine, new_machine}
use long.Core.StateMachine.Follow.{process_all, follow, process_all-follow}
use long.Core.Clock.{Timer, new_timer, start, check, TaskScheduler, tick}
use long.Core.Clock.Spaced.{fires, Spaced, fires-Spaced}
use long.Core.Clock.Schedule.{checked, called, tick-check}

-- Handlers 7, 8 and 9, of which the second is taken off again.
abbrev ops : List Op
ops =
    subscribe_op (97 ∷ []) 7
    ∷ subscribe_op (97 ∷ []) 8
    ∷ subscribe_op (98 ∷ []) 9
    ∷ unsubscribe_op 1
    ∷ subscribe_op (97 ∷ []) 9
    ∷ []

publish_runs : publish (run empty_bus ops) (97 ∷ []) ≡ 7 ∷ 9 ∷ []
unfolding publish subscribe unsubscribe push_sub erase_sub erase_from lookup
publish_runs = refl

publish-listeners_example :
    publish (run empty_bus ops) (97 ∷ [])
    ≡ map (λ s. s.handler) (listeners (list_run 0 [] ops) (97 ∷ []))
publish-listeners_example = publish-listeners ops (97 ∷ [])

-- From 0 to 1 on event 5, and back on event 6.
abbrev switch : StateMachine
switch = record (new_machine 0) {
  trans =
      ((0, 5), record { to = 1; has_action = true; guard = none })
      ∷ ((1, 6), record { to = 0; has_action = true; guard = some (λ s e. true) })
      ∷ [];
  enter_cb = λ s. true;
}

process_all-follow_example :
    follow (some 0) (process_all switch (5 ∷ 5 ∷ 6 ∷ [])).1
    ≡ some (process_all switch (5 ∷ 5 ∷ 6 ∷ [])).0.cur
process_all-follow_example = process_all-follow switch (5 ∷ 5 ∷ 6 ∷ []) (refl, (refl, tt))

abbrev ms : ℕ → ℕ
ms n = n * 1000000

-- Ten milliseconds, checked after 9, 10, 15 and 25.
abbrev ten : Timer
ten = start (new_timer 10 true true) 0

abbrev checks : List ℕ
checks = ms 9 ∷ ms 10 ∷ ms 15 ∷ ms 25 ∷ []

fires_runs : fires ten checks ≡ ms 10 ∷ ms 25 ∷ []
unfolding check
fires_runs = refl

fires-Spaced_example : Spaced 10 0 (fires ten checks)
fires-Spaced_example =
    fires-Spaced ten checks (omega arith, (omega arith, (omega arith, (omega arith, tt))))

abbrev two_rates : TaskScheduler
two_rates = record {
  tasks =
      record { id = 0; interval_ms = 10; has_fn = true; last = 0 }
      ∷ record { id = 1; interval_ms = 20; has_fn = true; last = 0 }
      ∷ [];
  next_id = 2;
}

tick-check_example : tick two_rates (ms 15) ≡ (
  record two_rates { tasks = map (checked (ms 15)) two_rates.tasks },
  called (ms 15) two_rates.tasks,
)
tick-check_example = tick-check two_rates (ms 15)
