-- ===== src/App/Stream.antt =====
-- src/app/Application.cpp: `serveClient` with its camera, src/modules/camera/CameraManager.cpp.
pub mod Rounds
pub mod Held
mod Tests
pub mod Shut
pub mod Idle
use long.Base.{ℕ, Bool, true, false, List, [], ◌∷◌, ◌++◌, Option, none, some, if◌then◌else◌, take}
use long.Text.{codes, print_int}
use long.Network.Socket.{SendAnswer, RecvAnswer}
use long.Network.Send.{Sending, send_text}
use long.Camera.{Camera, GrabAnswers, grab_frame, start_streaming, stop_streaming}
use long.App.Serve.{
  Client, Round, Stop, not_streaming, stop_requested, Outcome, goes_on, stops, new_client, round,
}

-- What a round finds: `running_`, the answers of the kernel to the grab, the bytes in the buffer
-- that is grabbed, the time, and the answers of `recv`.
pub record Shot : Type 0 where
  pub running : Bool
  pub answers : GrabAnswers
  pub bytes : List ℕ
  pub now : ℕ
  pub reads : List RecvAnswer

-- `data` and `size`.
abbrev pub frame_of : List ℕ → Option (ℕ × ℕ) → Option (List ℕ)
frame_of bytes none = none
frame_of bytes (some (index, size)) = some (take size bytes)

abbrev pub round_of : Shot → Option (ℕ × ℕ) → Round
round_of s got = record {
  running = s.running;
  grab = frame_of s.bytes got;
  now = s.now;
  reads = s.reads;
}

-- What comes after a round: the next one, or the end with the camera as it is.
pub after_round :
    Camera → Option Outcome → (Client → Option (Camera × Outcome)) → Option (Camera × Outcome)
after_round cam none next = none
after_round cam (some (goes_on c)) next = next c
after_round cam (some (stops why c)) next = some (cam, stops why c)

unfoldable pub stream_loop : Camera → Client → List Shot → Option (Camera × Outcome)
unfolding after_round
stream_loop cam c [] = some (cam, goes_on c)
stream_loop cam c (s ∷ more) =
    let (grabbed, got) = grab_frame cam s.answers in
    let rest = after_round grabbed (round c (round_of s got)) (λ c'. stream_loop grabbed c' more) in
    if s.running then rest else some (cam, stops stop_requested c)

-- The greeting.
unfoldable pub ready_text : Camera → List ℕ
ready_text cam =
    codes "PatrolSystem ready "
    ++ (print_int cam.width
        ++ (b'x'
            ∷ (print_int cam.height ++ (if cam.is_mjpeg then codes " MJPEG" else codes " RAW"))))

-- Streaming is stopped once the loop is left.
pub shut : Option (Camera × Outcome) → Option (Camera × Outcome)
shut none = none
shut (some (cam, goes_on c)) = some (cam, goes_on c)
shut (some (cam, stops why c)) = some (stop_streaming cam, stops why c)

pub stream_greeted : Camera → ℕ → List Shot → Option Sending → Option (Camera × Outcome)
stream_greeted cam t shots none = none
stream_greeted cam t shots (some r) = shut (stream_loop cam (new_client t r.wire r.answers) shots)

pub stream_started :
    ℕ → List SendAnswer → List Shot → Option (Camera × Bool) → Option (Camera × Outcome)
stream_started t answers shots none = none
stream_started t answers shots (some (cam, false)) =
    some (cam, stops not_streaming (new_client t [] answers))
stream_started t answers shots (some (cam, true)) =
    stream_greeted cam t shots (send_text answers (ready_text cam) [])

-- `oks` and `on` are the answers to `startStreaming`.
unfoldable pub stream_client :
    Camera → List Bool → Bool → ℕ → List SendAnswer → List Shot → Option (Camera × Outcome)
unfolding stream_started stream_greeted shut
stream_client cam oks on t answers shots =
    stream_started t answers shots (start_streaming cam oks on)
