-- ===== src/App/Whole.antt =====
-- src/app/Application.cpp: `run` with the camera and the clients it serves.
pub mod Closed
pub mod Code
mod Tests
use long.Base.{
  ℕ, zero, suc, Bool, true, false, not, List, [], ◌∷◌, Option, none, some, if◌then◌else◌,
}
use long.Base.Int.{ℤ, pos, negsuc}
use long.Network.Socket.{SendAnswer}
use long.Camera.{Camera, OpenAnswers, open_camera, close_camera, new_camera}
use long.App.Serve.{Outcome, goes_on, stops}
use long.App.Stream.{Shot, stream_client}
use long.App.Run.{OpenEnd, camera_ready, not_running, interrupted}

-- A round of the loop that opens the camera: `running_`, the kernel's answers to `open`, and the
-- result of the sleep.
pub record Try : Type 0 where
  pub running : Bool
  pub answers : OpenAnswers
  pub slept : Bool

pub tried :
    Bool → Option (Camera × Bool) → (Camera → Option (Camera × OpenEnd)) → Option (Camera × OpenEnd)
tried slept none next = none
tried slept (some (cam, true)) next = some (cam, camera_ready)
tried true (some (cam, false)) next = next cam
tried false (some (cam, false)) next = some (cam, interrupted)

-- `none` means that the answers end before the loop does.
unfoldable pub try_loop : Camera → ℤ → List Try → Option (Camera × OpenEnd)
unfolding tried
try_loop cam fps [] = none
try_loop cam fps (a ∷ more) =
    let rest = tried a.slept (open_camera cam fps a.answers) (λ c. try_loop c fps more) in
    if a.running then rest else some (cam, not_running)

-- A round of the loop that accepts clients: `running_`, what `acceptClient` returns, and what
-- `serveClient` finds.
pub record Visit : Type 0 where
  pub running : Bool
  pub client : ℤ
  pub oks : List Bool
  pub on : Bool
  pub now : ℕ
  pub answers : List SendAnswer
  pub shots : List Shot

-- `serveClient` has returned only where its loop was left.
pub visited : Option (Camera × Outcome) → (Camera → Option Camera) → Option Camera
visited none next = none
visited (some (cam, goes_on c)) next = none
visited (some (cam, stops why c)) next = next cam

pub client_visit : ℤ → Camera → Visit → (Camera → Option Camera) → Option Camera
unfolding visited
client_visit (negsuc zero) cam v next = next cam
client_visit (negsuc (suc zero)) cam v next = some cam
client_visit fd cam v next = visited (stream_client cam v.oks v.on v.now v.answers v.shots) next

unfoldable pub visit_loop : Camera → List Visit → Option Camera
unfolding client_visit
visit_loop cam [] = none
visit_loop cam (v ∷ more) =
    let rest = client_visit v.client cam v (λ c. visit_loop c more) in
    if v.running then rest else some cam

pub closing_camera : Option Camera → Option (Camera × ℕ)
closing_camera none = none
closing_camera (some cam) = some (close_camera cam, 0)

pub run_on : Bool → Bool → List Visit → Option (Camera × OpenEnd) → Option (Camera × ℕ)
unfolding closing_camera
run_on running listened visits none = none
run_on running listened visits (some (cam, not_running)) = some (cam, 0)
run_on running listened visits (some (cam, interrupted)) = some (cam, 0)
run_on running listened visits (some (cam, camera_ready)) =
    let served = closing_camera (visit_loop cam visits) in
    if not running
    then some (cam, 0)
    else if not listened
    then some (close_camera cam, 1)
    else served

-- The camera after `run`, and the exit code: `running` is `running_` once the camera is open,
-- `listened` the result of `listen`.
unfoldable pub run_whole : Camera → ℤ → List Try → Bool → Bool → List Visit → Option (Camera × ℕ)
unfolding run_on
run_whole cam fps tries running listened visits =
    run_on running listened visits (try_loop cam fps tries)

pub destroyed : Option (Camera × ℕ) → Option (Camera × ℕ)
destroyed none = none
destroyed (some (cam, code)) = some (close_camera cam, code)

-- The application from its construction to its destruction, which destroys the camera.
unfoldable pub application : ℤ → List Try → Bool → Bool → List Visit → Option (Camera × ℕ)
unfolding destroyed
application fps tries running listened visits =
    destroyed (run_whole new_camera fps tries running listened visits)
