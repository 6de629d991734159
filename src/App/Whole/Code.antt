-- ===== src/App/Whole/Code.antt =====
-- The exit code of a whole run.
use long.Base.{ℕ, ◌≡◌, refl, ◌⊎◌, inl, inr, Bool, true, false, List, Option, none, some}
use long.Base.Int.{ℤ}
use long.Camera.{Camera, new_camera}
use long.App.Run.{OpenEnd, camera_ready, not_running, interrupted}
use long.App.Whole.{
  Try, Visit, try_loop, visit_loop, closing_camera, run_on, run_whole, destroyed, application,
}

-- The code is 0, or it is 1 and the port cannot be listened on.
abbrev pub Coded : Bool → Bool → Option (Camera × ℕ) → Type 0
Coded running listened none = Unit
Coded running listened (some (cam, code)) =
    (code ≡ 0) ⊎ ((code ≡ 1) × (running ≡ true) × (listened ≡ false))

closing_camera-Coded :
    (running listened : Bool) (o : Option Camera) → Coded running listened (closing_camera o)
unfolding closing_camera
closing_camera-Coded running listened none = tt
closing_camera-Coded running listened (some cam) = inl refl

run_on-Coded :
    (running listened : Bool) (visits : List Visit) (o : Option (Camera × OpenEnd))
    → Coded running listened (run_on running listened visits o)
unfolding run_on
run_on-Coded running listened visits none = tt
run_on-Coded running listened visits (some (cam, not_running)) = inl refl
run_on-Coded running listened visits (some (cam, interrupted)) = inl refl
run_on-Coded false listened visits (some (cam, camera_ready)) = inl refl
run_on-Coded true false visits (some (cam, camera_ready)) = inr (refl, refl, refl)
run_on-Coded true true visits (some (cam, camera_ready)) =
    closing_camera-Coded true true (visit_loop cam visits)

destroyed-Coded :
    (running listened : Bool) (o : Option (Camera × ℕ))
    → Coded running listened o
    → Coded running listened (destroyed o)
unfolding destroyed
destroyed-Coded running listened none h = tt
destroyed-Coded running listened (some (cam, code)) h = h

pub application-Coded :
    (fps : ℤ) (tries : List Try) (running listened : Bool) (visits : List Visit)
    → Coded running listened (application fps tries running listened visits)
unfolding application run_whole
application-Coded fps tries running listened visits =
    destroyed-Coded running listened (run_whole new_camera fps tries running listened visits)
      (run_on-Coded running listened visits (try_loop new_camera fps tries))
