-- ===== src/App/Stream/Shut.antt =====
-- How `serveClient` begins and ends its use of the camera.
use long.Base.{ℕ, ◌≡◌, refl, sym, subst, Bool, true, false, List, [], ◌∷◌, Option, none, some}
use long.Network.Socket.{SendAnswer}
use long.Network.Send.{Sending, send_text}
use long.Camera.{Camera, start_streaming, stop_streaming, grab_frame}
use long.Camera.Begun.{start_streaming_begun}
use long.Camera.Grabs.{IsOut, start_streaming-IsOut}
use long.App.Serve.{Client, Outcome, goes_on, stops, new_client, round}
use long.App.Stream.{
  Shot, round_of, after_round, stream_loop, ready_text, shut, stream_greeted, stream_started,
  stream_client,
}
use long.App.Stream.Held.{Streams, grab_frame-Streams, HoldsFrames, Streams-HoldsFrames}

start_streaming-Streams :
    (c : Camera) (oks : List Bool) (on : Bool) (c' : Camera)
    → c.streaming ≡ false
    → start_streaming c oks on ≡ some (c', true)
    → Streams c'
start_streaming-Streams c oks on c' n e =
    let b = start_streaming_begun c oks on c' n e in
    record { out = start_streaming-IsOut c oks on c' n e; streaming = b.0; device = b.1 }

-- Where the loop is left, streaming has stopped and no buffer is out; where it goes on, at most the
-- one that was grabbed last is.
abbrev pub IsShut : Option (Camera × Outcome) → Type 0
IsShut none = Unit
IsShut (some (cam, goes_on c)) = IsOut cam
IsShut (some (cam, stops why c)) = (cam.streaming ≡ false) × (cam.last_index ≡ none)

abbrev LeavesStreams : Option (Camera × Outcome) → Type 0
LeavesStreams none = Unit
LeavesStreams (some (cam, o)) = Streams cam

after_round-Streams :
    (cam : Camera) (o : Option Outcome) (next : Client → Option (Camera × Outcome))
    → Streams cam
    → ((c : Client) → LeavesStreams (next c))
    → LeavesStreams (after_round cam o next)
unfolding after_round
after_round-Streams cam none next s h = tt
after_round-Streams cam (some (goes_on c)) next s h = h c
after_round-Streams cam (some (stops why c)) next s h = s

stream_loop-Streams :
    (cam : Camera) (c : Client) (shots : List Shot)
    → Streams cam
    → LeavesStreams (stream_loop cam c shots)
unfolding stream_loop
stream_loop-Streams cam c [] s = s
stream_loop-Streams cam c (x ∷ more) s =
    let grabbed = grab_frame-Streams cam x.answers s in
    go x.running refl (
      after_round-Streams (grab_frame cam x.answers).0
        (round c (round_of x (grab_frame cam x.answers).1)) _ grabbed
        λ c'. stream_loop-Streams (grab_frame cam x.answers).0 c' more grabbed)
  where
    go :
        (b : Bool)
        → x.running ≡ b
        → LeavesStreams (
            after_round
              (grab_frame cam x.answers).0
              (round c (round_of x (grab_frame cam x.answers).1))
              (λ c'. stream_loop (grab_frame cam x.answers).0 c' more))
        → LeavesStreams (stream_loop cam c (x ∷ more))
    go true e h = rw (e, stream_loop) (rw e at h)
    go false e h = rw (e, stream_loop) s

stopped : (cam : Camera) → Streams cam → (stop_streaming cam).streaming ≡ false
unfolding stop_streaming
stopped cam s = rw (s.device, s.streaming) refl

index_stopped : (cam : Camera) → Streams cam → (stop_streaming cam).last_index ≡ none
unfolding stop_streaming
index_stopped cam s = rw (s.device, s.streaming) refl

shut-IsShut : (o : Option (Camera × Outcome)) → LeavesStreams o → IsShut (shut o)
unfolding shut
shut-IsShut none s = tt
shut-IsShut (some (cam, goes_on c)) s = s.out
shut-IsShut (some (cam, stops why c)) s = (stopped cam s, index_stopped cam s)

-- Once streaming has started on a camera that did not stream: in each round of `serveClient` the
-- buffer whose frame is sent is out of the driver's queue, so that the driver cannot write to it;
-- and however the loop is left, streaming is stopped and no buffer is kept.
pub stream_client-HoldsFrames :
    (cam cam' : Camera) (oks : List Bool) (on : Bool) (t : ℕ) (answers : List SendAnswer)
    (shots : List Shot)
    → cam.streaming ≡ false
    → start_streaming cam oks on ≡ some (cam', true)
    → HoldsFrames cam' shots × IsShut (stream_client cam oks on t answers shots)
unfolding stream_client
stream_client-HoldsFrames cam cam' oks on t answers shots n e =
    let s = start_streaming-Streams cam oks on cam' n e in
    (
      Streams-HoldsFrames cam' shots s,
      subst (λ o. IsShut (stream_started t answers shots o)) (sym e)
          (greet s (send_text answers (ready_text cam') [])),
    )
  where
    greet : Streams cam' → (o : Option Sending) → IsShut (stream_greeted cam' t shots o)
    greet s none = tt
    greet s (some r) =
        shut-IsShut (stream_loop cam' (new_client t r.wire r.answers) shots)
          (stream_loop-Streams cam' (new_client t r.wire r.answers) shots s)
