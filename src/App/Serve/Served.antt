-- ===== src/App/Serve/Served.antt =====
-- `serveClient`, round by round, as long as its loop goes on.
use long.Base.{
  ℕ, ◌<◌, ◌≡◌, refl, sym, ap, ap₂, subst, ◌∙◌, Bool, true, false, List, [], ◌∷◌, ◌++◌, append_assoc,
  append-nil, Option, none, some, All, if◌then◌else◌,
}
use long.Base.Chunks.{◌>>=◌}
use long.Network.Frame.{Command}
use long.Network.Server.{Poll, poll_commands}
use long.App.Serve.{
  Client, Round, Outcome, goes_on, stops, stop_requested, ◌then_do◌, grab_step, sensor_step,
  poll_step, stat_step, round, serve_loop,
}
use long.App.Serve.Steps.{
  video_bytes, fails_after, Grabbed, grab_step-Grabbed, stops-goes_on, none-goes_on, goes_on-inj,
}
use long.App.Serve.Ticks.{
  sensor_bytes, last_after, Sensed, sensor_step-Sensed, Polled, poll_step-Polled, Counted,
  stat_step-Counted,
}

then_do-goes_on :
    (o : Option Outcome) (next : Client → Option Outcome) (c' : Client)
    → (o then_do next) ≡ some (goes_on c')
    → (c1 : Client) × ((o ≡ some (goes_on c1)) × (next c1 ≡ some (goes_on c')))
unfolding ◌then_do◌
then_do-goes_on none next c' e = none-goes_on e
then_do-goes_on (some (goes_on c1)) next c' e = (c1, (refl, e))
then_do-goes_on (some (stops s c1)) next c' e = stops-goes_on e

-- The bytes that a run of rounds is to put on the wire: each frame grabbed that is not empty, and
-- the sensor frame where it is due.
abbrev pub frames_in : ℕ → List Round → List ℕ
frames_in last [] = []
frames_in last (r ∷ rs) =
    video_bytes r.grab ++ (sensor_bytes last r.now ++ frames_in (last_after last r.now) rs)

-- The failures in a row at the end of the rounds.
abbrev pub fails_at_end : ℕ → List Round → ℕ
fails_at_end n [] = n
fails_at_end n (r ∷ rs) = fails_at_end (fails_after n r.grab) rs

-- The calls of `pollCommands`, one each round: what is kept, and all that was taken.
abbrev pub polls : List Round → List ℕ → List Command → Option (List ℕ × List Command)
polls [] buf logged = some (buf, logged)
polls (r ∷ rs) buf logged = poll_commands r.reads buf [] >>= λ p. polls rs p.buf (logged ++ p.out)

pub record Served (c : Client) (rs : List Round) (c' : Client) : Type 0 where
  pub running : All (λ r. r.running ≡ true) rs
  pub wire : c'.wire ≡ c.wire ++ frames_in c.last_sensor_ms rs
  pub fails : c'.grab_fail_cnt ≡ fails_at_end c.grab_fail_cnt rs
  pub below : c'.grab_fail_cnt < 5
  pub logged : polls rs c.rx_buf c.logged ≡ some (c'.rx_buf, c'.logged)

-- One round.
record Rounded (c : Client) (r : Round) (c' : Client) : Type 0 where
  running : r.running ≡ true
  wire : c'.wire ≡ c.wire ++ (video_bytes r.grab ++ sensor_bytes c.last_sensor_ms r.now)
  sensor : c'.last_sensor_ms ≡ last_after c.last_sensor_ms r.now
  fails : c'.grab_fail_cnt ≡ fails_after c.grab_fail_cnt r.grab
  below : c'.grab_fail_cnt < 5
  poll : Poll
  read : poll_commands r.reads c.rx_buf [] ≡ some poll
  buf : c'.rx_buf ≡ poll.buf
  logged : c'.logged ≡ c.logged ++ poll.out

combine :
    (c c1 c2 c3 c4 : Client) (r : Round)
    → r.running ≡ true
    → Grabbed c r.grab c1
    → Sensed c1 r.now c2
    → Polled c2 r.reads c3
    → Counted c3 c4
    → Rounded c r c4
combine c c1 c2 c3 c4 r on g s p n = record {
  running = on;
  wire =
      n.same_wire
      ∙ p.same_wire
      ∙ s.wire
      ∙ ap₂ (λ t l. t ++ sensor_bytes l r.now) g.wire g.same_sensor
      ∙ append_assoc c.wire (video_bytes r.grab) (sensor_bytes c.last_sensor_ms r.now);
  sensor = n.same_sensor ∙ p.same_sensor ∙ s.sensor ∙ ap (λ l. last_after l r.now) g.same_sensor;
  fails = n.same_fails ∙ p.same_fails ∙ s.same_fails ∙ g.fails;
  below = subst (λ k. k < 5) (sym (n.same_fails ∙ p.same_fails ∙ s.same_fails)) g.below;
  poll = p.poll;
  read = ap (λ t. poll_commands r.reads t []) (sym (s.same_buf ∙ g.same_buf)) ∙ p.read;
  buf = n.same_buf ∙ p.buf;
  logged = n.same_logged ∙ p.logged ∙ ap (λ t. t ++ p.poll.out) (s.same_logged ∙ g.same_logged);
}

round-Rounded :
    (c : Client) (r : Round) (c' : Client)
    → c.grab_fail_cnt < 5
    → round c r ≡ some (goes_on c')
    → Rounded c r c'
unfolding round
round-Rounded c r c' h e = go r.running refl e
  where
    all : Option Outcome
    all = grab_step c r.grab then_do λ c1.
        sensor_step c1 r.now then_do λ c2. poll_step c2 r.reads then_do λ c3. stat_step c3 r.now

    go :
        (b : Bool)
        → r.running ≡ b
        → (if b then all else some (stops stop_requested c)) ≡ some (goes_on c')
        → Rounded c r c'
    go false u f = stops-goes_on f
    go true u f =
        let (c1, (e1, f1)) = then_do-goes_on (grab_step c r.grab) _ c' f in
        let (c2, (e2, f2)) = then_do-goes_on (sensor_step c1 r.now) _ c' f1 in
        let (c3, (e3, f3)) = then_do-goes_on (poll_step c2 r.reads) _ c' f2 in
        combine c c1 c2 c3 c' r u (grab_step-Grabbed c r.grab c1 h e1)
          (sensor_step-Sensed c1 r.now c2 e2) (poll_step-Polled c2 r.reads c3 e3)
          (stat_step-Counted c3 r.now c' f3)

-- As long as the loop goes on: no stop was requested; the client was sent each frame that was
-- grabbed and is not empty, whole and in order, and the sensor frame behind it in the rounds in
-- which a second had passed, by the 32-bit clock, since the last one; fewer than five grabs in a row have
-- failed; and each round took the commands out of what it read, once.
pub serve_loop-Served :
    (c : Client) (rs : List Round) (c' : Client)
    → c.grab_fail_cnt < 5
    → serve_loop c rs ≡ some (goes_on c')
    → Served c rs c'
unfolding serve_loop
serve_loop-Served c [] c' h e = subst (Served c []) (goes_on-inj e) (record {
  running = tt;
  wire = sym (append-nil c.wire);
  fails = refl;
  below = h;
  logged = refl;
})
serve_loop-Served c (r ∷ rs) c' h e =
    let (c1, (e1, f1)) = then_do-goes_on (round c r) (λ c1. serve_loop c1 rs) c' e in
    let one = round-Rounded c r c1 h e1 in
    let rest = serve_loop-Served c1 rs c' one.below f1 in
    record {
      running = (one.running, rest.running);
      wire =
          rest.wire
          ∙ ap₂ (λ t l. t ++ frames_in l rs) one.wire one.sensor
          ∙ append_assoc c.wire (video_bytes r.grab ++ sensor_bytes c.last_sensor_ms r.now) _
          ∙ ap (λ t. c.wire ++ t) (append_assoc (video_bytes r.grab) _ _);
      fails = rest.fails ∙ ap (λ n. fails_at_end n rs) one.fails;
      below = rest.below;
      logged = rw (one.read, sym one.buf, sym one.logged) rest.logged;
    }
