-- ===== src/Business/Patrol.antt =====
-- include/business/PatrolController.h and src/business/PatrolController.cpp.
pub mod Runs
use long.Base.{ℕ, Bool, true, false, List, [], ◌∷◌, Option, none, some}
use long.Model.{Waypoint}

-- A callback is its name; `done_cb` is `none` where `doneCb_` is empty.
pub record PatrolController : Type 0 where
  pub path : List Waypoint
  pub current_wp : ℕ
  pub running : Bool
  pub done_cb : Option ℕ

abbrev pub initial : PatrolController
initial = record { path = []; current_wp = 0; running = false; done_cb = none }

-- The new state and the result.
unfoldable pub start : PatrolController → List Waypoint → Option ℕ → PatrolController × Bool
start p [] cb = (p, false)
start p (w ∷ ws) cb = (record { path = w ∷ ws; current_wp = 0; running = true; done_cb = cb }, true)

unfoldable pub pause : PatrolController → PatrolController
pause p = record p { running = false }

unfoldable pub resume : PatrolController → PatrolController
resume p = record p { running = true }

-- The new state and the calls of `doneCb_`, each with its argument.
unfoldable pub abort : PatrolController → PatrolController × List (ℕ × Bool)
abort p = (
  record p { running = false; current_wp = 0 },
  elim p.done_cb [ none ↦ [] | some cb ↦ (cb, false) ∷ [] ],
)

-- What follows the early return is a comment in the source.
unfoldable pub tick : PatrolController → PatrolController
tick p = p
