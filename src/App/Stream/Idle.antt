-- ===== src/App/Stream/Idle.antt =====
-- `serveClient` leaves the camera as it found it.
use long.Base.{ℕ, ◌≡◌, Bool, true, false, List, [], ◌∷◌, Option, none, some, if◌then◌else◌}
use long.Network.Send.{Sending, send_text}
use long.Network.Socket.{SendAnswer}
use long.Camera.{Camera, start_streaming, grab_frame}
use long.Camera.Held.{IsHeld, stop_streaming-Stopped}
use long.Camera.Kept.{
  Same-IsHeld, grab_frame-Same, Starts, start_streaming-Starts, stop_streaming-IsHeld,
}
use long.App.Serve.{Client, Outcome, goes_on, stops, stop_requested, new_client, round}
use long.App.Stream.{
  Shot, round_of, after_round, stream_loop, ready_text, shut, stream_greeted, stream_started,
  stream_client,
}

-- The camera holds what it should, and does not stream.
pub record Idle (cam : Camera) : Type 0 where
  pub held : IsHeld cam
  pub off : cam.streaming ≡ false

-- The camera during the loop of `serveClient`, and once that is left.
abbrev LeavesHeld : Option (Camera × Outcome) → Type 0
LeavesHeld none = Unit
LeavesHeld (some (cam, o)) = IsHeld cam

abbrev pub LeavesIdle : Option (Camera × Outcome) → Type 0
LeavesIdle none = Unit
LeavesIdle (some (cam, goes_on c)) = Unit
LeavesIdle (some (cam, stops why c)) = Idle cam

after_round-LeavesHeld :
    (cam : Camera) (o : Option Outcome) (next : Client → Option (Camera × Outcome))
    → IsHeld cam
    → ((c : Client) → LeavesHeld (next c))
    → LeavesHeld (after_round cam o next)
unfolding after_round
after_round-LeavesHeld cam none next h k = tt
after_round-LeavesHeld cam (some (goes_on c)) next h k = k c
after_round-LeavesHeld cam (some (stops why c)) next h k = h

stream_loop-LeavesHeld :
    (cam : Camera) (c : Client) (shots : List Shot)
    → IsHeld cam
    → LeavesHeld (stream_loop cam c shots)
unfolding stream_loop
stream_loop-LeavesHeld cam c [] h = h
stream_loop-LeavesHeld cam c (x ∷ more) h =
    let grabbed = (grab_frame cam x.answers).0 in
    let k = Same-IsHeld cam grabbed (grab_frame-Same cam x.answers) h in
    go x.running (
      after_round-LeavesHeld grabbed (round c (round_of x (grab_frame cam x.answers).1)) _ k
        λ c'. stream_loop-LeavesHeld grabbed c' more k)
  where
    rest : Option (Camera × Outcome)
    rest =
        after_round (grab_frame cam x.answers).0 (round c (round_of x (grab_frame cam x.answers).1))
          (λ c'. stream_loop (grab_frame cam x.answers).0 c' more)

    go :
        (b : Bool)
        → LeavesHeld rest
        → LeavesHeld (if b then rest else some (cam, stops stop_requested c))
    go true s = s
    go false s = h

shut-LeavesIdle : (o : Option (Camera × Outcome)) → LeavesHeld o → LeavesIdle (shut o)
unfolding shut
shut-LeavesIdle none h = tt
shut-LeavesIdle (some (cam, goes_on c)) h = tt
shut-LeavesIdle (some (cam, stops why c)) h = record {
  held = stop_streaming-IsHeld cam h;
  off = (stop_streaming-Stopped cam h).stopped;
}

stream_started-LeavesIdle :
    (t : ℕ) (answers : List SendAnswer) (shots : List Shot) (o : Option (Camera × Bool))
    → Starts o
    → LeavesIdle (stream_started t answers shots o)
unfolding stream_started stream_greeted
stream_started-LeavesIdle t answers shots none s = tt
stream_started-LeavesIdle t answers shots (some (cam, false)) s = record { held = s.0; off = s.1 }
stream_started-LeavesIdle t answers shots (some (cam, true)) s =
    greet (send_text answers (ready_text cam) [])
  where
    greet : (o : Option Sending) → LeavesIdle (stream_greeted cam t shots o)
    greet none = tt
    greet (some r) =
        shut-LeavesIdle (stream_loop cam (new_client t r.wire r.answers) shots)
          (stream_loop-LeavesHeld cam (new_client t r.wire r.answers) shots s.0)

pub stream_client-LeavesIdle :
    (cam : Camera) (oks : List Bool) (on : Bool) (t : ℕ) (answers : List SendAnswer)
    (shots : List Shot)
    → Idle cam
    → LeavesIdle (stream_client cam oks on t answers shots)
unfolding stream_client
stream_client-LeavesIdle cam oks on t answers shots i =
    stream_started-LeavesIdle t answers shots (start_streaming cam oks on)
      (start_streaming-Starts cam oks on i.held i.off)
