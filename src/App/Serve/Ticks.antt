-- ===== src/App/Serve/Ticks.antt =====
-- The steps of a round of `serveClient` that follow the grab.
use long.Base.{
  ℕ, ◌≡◌, refl, sym, subst, Bool, true, false, List, [], ◌++◌, append-nil, Option, none, some,
  length, if◌then◌else◌, leb,
}
use long.Base.Int.{ℤ, pos, negsuc}
use long.Network.Socket.{RecvAnswer}
use long.Network.Frame.{build_frame, pack_sensor, frame_code, frame_sensor}
use long.Network.Send.{Sending, send_frame}
use long.Network.Send.Wire.{Sent, send_frame-Sent}
use long.Network.Server.{Poll, poll_commands}
use long.App.Serve.{
  Client, goes_on, stops, sensor_failed, minus_u32, sensor_at, sensor_step, sensor_sent, poll_step,
  polled, stat_step,
}
use long.App.Serve.Steps.{goes_on-inj, stops-goes_on, none-goes_on, Sent-whole}

-- Whether the sensor frame is due at `t`, where the last one was at `last`.
abbrev pub is_due : ℕ → ℕ → Bool
is_due last t = leb 1000 (minus_u32 t last)

abbrev pub sensor_frame : ℕ → List ℕ
sensor_frame t =
    build_frame (frame_code frame_sensor) (some (pack_sensor (sensor_at t)))
      (length (pack_sensor (sensor_at t)))

abbrev pub sensor_bytes : ℕ → ℕ → List ℕ
sensor_bytes last t = if is_due last t then sensor_frame t else []

abbrev pub last_after : ℕ → ℕ → ℕ
last_after last t = if is_due last t then t else last

pub record Sensed (c : Client) (t : ℕ) (c' : Client) : Type 0 where
  pub wire : c'.wire ≡ c.wire ++ sensor_bytes c.last_sensor_ms t
  pub sensor : c'.last_sensor_ms ≡ last_after c.last_sensor_ms t
  pub same_fails : c'.grab_fail_cnt ≡ c.grab_fail_cnt
  pub same_buf : c'.rx_buf ≡ c.rx_buf
  pub same_logged : c'.logged ≡ c.logged

Sensed-due :
    (c : Client) (t : ℕ) (r : Sending) (c' : Client)
    → is_due c.last_sensor_ms t ≡ true
    → Sent c.wire (sensor_frame t) r
    → sensor_sent (record c { last_sensor_ms = t }) (some r) ≡ some (goes_on c')
    → Sensed c t c'
unfolding sensor_sent
Sensed-due c t r c' d k e = go r.result refl e
  where
    c1 : Client
    c1 = record c { last_sensor_ms = t; wire = r.wire; answers = r.answers }

    go :
        (q : Bool)
        → r.result ≡ q
        → (if q then some (goes_on c1) else some (stops sensor_failed c1)) ≡ some (goes_on c')
        → Sensed c t c'
    go false u f = stops-goes_on f
    go true u f = subst (Sensed c t) (goes_on-inj f) (record {
      wire = rw d (Sent-whole c.wire (sensor_frame t) r k u);
      sensor = rw d refl;
      same_fails = refl;
      same_buf = refl;
      same_logged = refl;
    })

pub sensor_step-Sensed :
    (c : Client) (t : ℕ) (c' : Client) → sensor_step c t ≡ some (goes_on c') → Sensed c t c'
unfolding sensor_step
sensor_step-Sensed c t c' e = split (is_due c.last_sensor_ms t) refl e
  where
    sending : Option Sending
    sending =
        send_frame c.answers (frame_code frame_sensor) (pack_sensor (sensor_at t))
          (length (pack_sensor (sensor_at t))) c.wire

    due :
        (o : Option Sending)
        → sending ≡ o
        → is_due c.last_sensor_ms t ≡ true
        → sensor_sent (record c { last_sensor_ms = t }) o ≡ some (goes_on c')
        → Sensed c t c'
    due none u d f = none-goes_on (unfold sensor_sent in f)
    due (some r) u d f =
        Sensed-due c t r c' d
          (send_frame-Sent c.answers (frame_code frame_sensor) (pack_sensor (sensor_at t))
            (length (pack_sensor (sensor_at t))) c.wire u)
          f

    split :
        (b : Bool)
        → is_due c.last_sensor_ms t ≡ b
        → (if b then sensor_sent (record c { last_sensor_ms = t }) sending else some (goes_on c))
          ≡ some (goes_on c')
        → Sensed c t c'
    split true d f = due sending refl d f
    split false d f = subst (Sensed c t) (goes_on-inj f) (record {
      wire = rw d (sym (append-nil c.wire));
      sensor = rw d refl;
      same_fails = refl;
      same_buf = refl;
      same_logged = refl;
    })

-- A call of `pollCommands` that does not fail, and what it leaves.
pub record Polled (c : Client) (reads : List RecvAnswer) (c' : Client) : Type 0 where
  pub poll : Poll
  pub read : poll_commands reads c.rx_buf [] ≡ some poll
  pub buf : c'.rx_buf ≡ poll.buf
  pub logged : c'.logged ≡ c.logged ++ poll.out
  pub same_wire : c'.wire ≡ c.wire
  pub same_sensor : c'.last_sensor_ms ≡ c.last_sensor_ms
  pub same_fails : c'.grab_fail_cnt ≡ c.grab_fail_cnt

pub poll_step-Polled :
    (c : Client) (reads : List RecvAnswer) (c' : Client)
    → poll_step c reads ≡ some (goes_on c')
    → Polled c reads c'
unfolding poll_step polled
poll_step-Polled c reads c' e = go (poll_commands reads c.rx_buf []) refl e
  where
    finish :
        (p : Poll)
        → poll_commands reads c.rx_buf [] ≡ some p
        → (n : ℤ) → polled c n p ≡ some (goes_on c')
        → Polled c reads c'
    finish p u (negsuc n) f = stops-goes_on f
    finish p u (pos n) f = subst (Polled c reads) (goes_on-inj f) (record {
      poll = p;
      read = u;
      buf = refl;
      logged = refl;
      same_wire = refl;
      same_sensor = refl;
      same_fails = refl;
    })

    go :
        (o : Option Poll)
        → poll_commands reads c.rx_buf [] ≡ o
        → (elim o [ none ↦ none | some p ↦ polled c p.result p ]) ≡ some (goes_on c')
        → Polled c reads c'
    go none u f = none-goes_on f
    go (some p) u f = finish p u p.result f

-- The statistics change nothing that the others read.
pub record Counted (c c' : Client) : Type 0 where
  pub same_wire : c'.wire ≡ c.wire
  pub same_sensor : c'.last_sensor_ms ≡ c.last_sensor_ms
  pub same_fails : c'.grab_fail_cnt ≡ c.grab_fail_cnt
  pub same_buf : c'.rx_buf ≡ c.rx_buf
  pub same_logged : c'.logged ≡ c.logged

pub stat_step-Counted :
    (c : Client) (t : ℕ) (c' : Client) → stat_step c t ≡ some (goes_on c') → Counted c c'
unfolding stat_step
stat_step-Counted c t c' e = go (leb 1000 (minus_u32 t c.last_stat_ms)) e
  where
    go :
        (b : Bool)
        → (if b
            then some (goes_on (record c { frame_count = 0; last_stat_ms = t }))
            else some (goes_on c))
          ≡ some (goes_on c')
        → Counted c c'
    go true f = subst (Counted c) (goes_on-inj f) (record {
      same_wire = refl;
      same_sensor = refl;
      same_fails = refl;
      same_buf = refl;
      same_logged = refl;
    })
    go false f = subst (Counted c) (goes_on-inj f) (record {
      same_wire = refl;
      same_sensor = refl;
      same_fails = refl;
      same_buf = refl;
      same_logged = refl;
    })
