-- ===== src/Business/Tests.antt =====
-- Runs of the business layer, and its theorems at inputs that meet their hypotheses.
use long.Base.{◌≡◌, refl, List, [], ◌∷◌, some, true, false, map, arith}
use long.Model.{default_state, default_task}
use long.Network.Frame.{Command}
use long.Business.Robot.Latest.{handle_all, IsLatest, handle_all-IsLatest}
use long.Business.Mission.{MissionManager, initial, enqueue, cancel, cancel_loop}
use long.Business.Mission.Cancel.{cancel-map, cancelled_at, find, to_report, told_of}
use long.Business.Mission.Valid.{Reachable, started, enqueued, IsValid, reachable-IsValid}
use long.Business.Patrol as Controller
use long.Business.Patrol.Runs.{
  Call, start_call, resume_call, abort_call, tick_call, IsRun, steps-IsRun,
}

-- The fan on, an emergency stop, a mode that no name stands for, an unknown command.
abbrev commands : List Command
commands =
    record { cmd_id = 1; value = 1 }
    ∷ record { cmd_id = 6; value = 0 }
    ∷ record { cmd_id = 5; value = 9 }
    ∷ record { cmd_id = 77; value = 1 }
    ∷ []

handle_all-IsLatest_example : IsLatest default_state commands (handle_all default_state commands)
handle_all-IsLatest_example = handle_all-IsLatest default_state commands

abbrev two_tasks : MissionManager
two_tasks = (enqueue (enqueue initial default_task).state default_task).state

abbrev two_tasks-Reachable : Reachable 2 two_tasks
two_tasks-Reachable = enqueued 1 _ default_task (enqueued 0 initial default_task started)

reachable-IsValid_example : (two_tasks.next_id ≡ 3) × IsValid two_tasks
reachable-IsValid_example = reachable-IsValid 2 two_tasks two_tasks-Reachable (omega arith)

cancel-map_example :
    cancel two_tasks 2
    ≡ told_of two_tasks (map (cancelled_at 2) two_tasks.queue) (to_report (find 2 two_tasks.queue))
cancel-map_example =
    cancel-map two_tasks 2 1 3 (unfold enqueue in (omega arith, (omega arith, omega arith)))

cancel_runs : ((cancel two_tasks 2).result ≡ true) × ((cancel two_tasks 3).result ≡ false)
unfolding cancel enqueue cancel_loop
cancel_runs = (refl, refl)

abbrev calls : List Call
calls =
    start_call (record { x = 0; y = 0; heading_deg = 0; dwell_ms = 5 } ∷ []) (some 7)
    ∷ tick_call
    ∷ abort_call
    ∷ resume_call
    ∷ abort_call
    ∷ []

steps-IsRun_example : IsRun Controller.initial calls
steps-IsRun_example = steps-IsRun Controller.initial calls refl
