-- ===== src/App/Run.antt =====
-- src/app/Application.cpp: `interruptibleSleep` and `run`.
pub mod Sleep
pub mod Orderly
pub mod Ends
use long.Base.{
  ℕ, zero, suc, ◌+◌, Bool, true, false, not, ◌&&◌, List, [], ◌∷◌, ◌++◌, Option, none, some,
  if◌then◌else◌, ltb,
}
use long.Base.Int.{ℤ, pos, negsuc}
use long.Handle.{Handle}
use long.Network.Listener.{SelectAnswer, AcceptAnswer, accept_client}

-- The loop of `interruptibleSleep`. The list is what `running_.load()` answers, call by call;
-- `none` means that it ends before the loop does. The result, and the milliseconds slept.
unfoldable pub sleep_loop : List Bool → ℕ → ℕ → Option (Bool × ℕ)
sleep_loop [] slept total_ms = none
sleep_loop (running ∷ loads) slept total_ms =
    let rest = sleep_loop loads (slept + 100) total_ms in
    if ltb slept total_ms
    then if not running then some (false, slept) else rest
    else some (running, slept)

unfoldable pub interruptible_sleep : List Bool → ℕ → Option (Bool × ℕ)
interruptible_sleep loads total_ms = sleep_loop loads 0 total_ms

abbrev pub health_check : Bool → Bool → Bool
health_check cam_ok net_ok = cam_ok && net_ok

-- A round of the loop that opens the camera: `running_`, the result of `open`, and that of the
-- sleep after it.
pub record Attempt : Type 0 where
  pub running : Bool
  pub opened : Bool
  pub slept : Bool

-- How that loop ends.
pub data OpenEnd : Type 0 where
  camera_ready not_running interrupted : OpenEnd

unfoldable pub open_loop : List Attempt → Option OpenEnd
open_loop [] = none
open_loop (a ∷ more) =
    let rest = open_loop more in
    if a.running
    then if a.opened then some camera_ready else if a.slept then rest else some interrupted
    else some not_running

-- What `run` does, in order.
pub data Event : Type 0 where
  camera_opened camera_closed listening server_closed : Event
  served closed_client : ℤ → Event

-- A round of the loop that accepts clients.
pub record Arrival : Type 0 where
  pub running : Bool
  pub selected : SelectAnswer
  pub accepted : AcceptAnswer

pub arrived : ℤ → Option (List Event) → Option (List Event)
arrived (negsuc zero) rest = rest
arrived (negsuc (suc zero)) rest = some []
arrived fd none = none
arrived fd (some events) = some (served fd ∷ closed_client fd ∷ events)

unfoldable pub accept_loop : Handle → List Arrival → Option (List Event)
unfolding arrived
accept_loop server [] = none
accept_loop server (a ∷ more) =
    let rest = accept_loop server more in
    if a.running then arrived (accept_client server a.selected a.accepted) rest else some []

-- What a call of `run` finds: `still_running` is `running_` once the camera is open, `listened` the
-- result of `listen`.
pub record RunAnswers : Type 0 where
  pub attempts : List Attempt
  pub still_running : Bool
  pub listened : Bool
  pub server : Handle
  pub arrivals : List Arrival

pub closing : Option (List Event) → Option (ℕ × List Event)
closing none = none
closing (some events) =
    some (0, camera_opened ∷ listening ∷ (events ++ (camera_closed ∷ server_closed ∷ [])))

pub run_from : RunAnswers → OpenEnd → Option (ℕ × List Event)
unfolding closing
run_from a interrupted = some (0, [])
run_from a not_running = some (0, [])
run_from a camera_ready =
    if not a.still_running
    then some (0, camera_opened ∷ [])
    else if not a.listened
    then some (1, camera_opened ∷ camera_closed ∷ [])
    else closing (accept_loop a.server a.arrivals)

-- The exit code, and what was done.
unfoldable pub run : RunAnswers → Option (ℕ × List Event)
unfolding run_from
run a = elim (open_loop a.attempts) [ none ↦ none | some e ↦ run_from a e ]
