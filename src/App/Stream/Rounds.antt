-- ===== src/App/Stream/Rounds.antt =====
-- `serveClient` with its camera, and the rounds that the camera gives it.
use long.Base.{ℕ, ◌≡◌, refl, ap, ◌∙◌, Bool, true, false, List, [], ◌∷◌, Option, none, some}
use long.Network.Socket.{SendAnswer}
use long.Network.Send.{Sending, send_text}
use long.Camera.{Camera, grab_frame, start_streaming}
use long.App.Serve.{
  Client, Round, Outcome, goes_on, stops, new_client, round, serve_loop, serve_client, greeted,
  ◌then_do◌,
}
use long.App.Stream.{
  Shot, round_of, after_round, stream_loop, ready_text, shut, stream_greeted, stream_started,
  stream_client,
}

-- The rounds of the loop, with the frames that the camera grabs one after the other.
abbrev pub rounds_in : Camera → List Shot → List Round
rounds_in cam [] = []
rounds_in cam (s ∷ more) =
    round_of s (grab_frame cam s.answers).1 ∷ rounds_in (grab_frame cam s.answers).0 more

abbrev pub outcome_of : Option (Camera × Outcome) → Option Outcome
outcome_of none = none
outcome_of (some (cam, o)) = some o

outcome_of-after_round :
    (cam : Camera) (o : Option Outcome) (next : Client → Option (Camera × Outcome))
    (plain : Client → Option Outcome)
    → ((c : Client) → outcome_of (next c) ≡ plain c)
    → outcome_of (after_round cam o next) ≡ (o then_do plain)
unfolding after_round ◌then_do◌
outcome_of-after_round cam none next plain h = refl
outcome_of-after_round cam (some (goes_on c)) next plain h = h c
outcome_of-after_round cam (some (stops why c)) next plain h = refl

outcome_of-stream_loop :
    (cam : Camera) (c : Client) (shots : List Shot)
    → outcome_of (stream_loop cam c shots) ≡ serve_loop c (rounds_in cam shots)
unfolding stream_loop serve_loop round ◌then_do◌
outcome_of-stream_loop cam c [] = refl
outcome_of-stream_loop cam c (s ∷ more) =
    go s.running refl (λ c'. outcome_of-stream_loop (grab_frame cam s.answers).0 c' more)
  where
    go :
        (b : Bool)
        → s.running ≡ b
        → ((c' : Client)
            → outcome_of (stream_loop (grab_frame cam s.answers).0 c' more)
              ≡ serve_loop c' (rounds_in (grab_frame cam s.answers).0 more))
        → outcome_of (stream_loop cam c (s ∷ more)) ≡ serve_loop c (rounds_in cam (s ∷ more))
    go true e ih =
        rw (e, stream_loop) (outcome_of-after_round (grab_frame cam s.answers).0 _ _ _ ih)
    go false e ih = rw (e, stream_loop) refl

outcome_of-shut : (o : Option (Camera × Outcome)) → outcome_of (shut o) ≡ outcome_of o
unfolding shut
outcome_of-shut none = refl
outcome_of-shut (some (cam, goes_on c)) = refl
outcome_of-shut (some (cam, stops why c)) = refl

-- What `serveClient` makes of a client is what it makes of it in rounds with the frames that the
-- camera grabs, one after the other, once streaming has started, behind a greeting with the format
-- of the camera; if streaming does not start, the client is sent nothing.
pub stream_client-serve_client :
    (cam cam' : Camera) (oks : List Bool) (on started : Bool) (t : ℕ) (answers : List SendAnswer)
    (shots : List Shot)
    → start_streaming cam oks on ≡ some (cam', started)
    → outcome_of (stream_client cam oks on t answers shots)
      ≡ serve_client started (ready_text cam') t answers (rounds_in cam' shots)
unfolding stream_client serve_client
stream_client-serve_client cam cam' oks on started t answers shots e =
    ap (λ o. outcome_of (stream_started t answers shots o)) e ∙ go started
  where
    greet :
        (o : Option Sending)
        → outcome_of (stream_greeted cam' t shots o) ≡ greeted t (rounds_in cam' shots) o
    greet none = refl
    greet (some r) =
        outcome_of-shut (stream_loop cam' (new_client t r.wire r.answers) shots)
        ∙ outcome_of-stream_loop cam' (new_client t r.wire r.answers) shots

    go :
        (started : Bool)
        → outcome_of (stream_started t answers shots (some (cam', started)))
          ≡ serve_client started (ready_text cam') t answers (rounds_in cam' shots)
    go false = refl
    go true = greet (send_text answers (ready_text cam') [])
