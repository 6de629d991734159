-- ===== src/App/Serve.antt =====
-- src/app/Application.cpp: `serveClient`, the loop that serves one client.
pub mod Steps
pub mod Ticks
pub mod Served
pub mod Lost
pub mod Commands
use long.Base.{
  ℕ, suc, ◌+◌, ◌-◌, ◌%◌, ◌^◌, Bool, true, false, not, List, [], ◌∷◌, ◌++◌, Option, none, some,
  length, if◌then◌else◌, leb,
}
use long.Base.Int.{ℤ, pos, negsuc}
use long.Network.Socket.{SendAnswer, RecvAnswer}
use long.Network.Frame.{
  SensorData, default_sensor, pack_sensor, frame_code, frame_sensor, frame_video, Command,
}
use long.Network.Send.{Sending, send_frame, send_text}
use long.Network.Server.{Poll, poll_commands}

-- The locals of the loop; what the socket has taken, the answers of `send` that are left, and the
-- commands that were logged.
pub record Client : Type 0 where
  pub rx_buf : List ℕ
  pub frame_count : ℕ
  pub last_stat_ms : ℕ
  pub last_sensor_ms : ℕ
  pub grab_fail_cnt : ℕ
  pub wire : List ℕ
  pub answers : List SendAnswer
  pub logged : List Command

-- What a round finds: `running_`, the frame or none, the time in milliseconds, and the answers of
-- `recv`.
pub record Round : Type 0 where
  pub running : Bool
  pub grab : Option (List ℕ)
  pub now : ℕ
  pub reads : List RecvAnswer

-- Why the loop is left.
pub data Stop : Type 0 where
  not_streaming stop_requested video_failed camera_lost sensor_failed peer_gone : Stop

pub data Outcome : Type 0 where
  goes_on : Client → Outcome
  stops : Stop → Client → Outcome

-- `none` means that the answers of the socket end before the call does.
infixr 1 ◌then_do◌
unfoldable pub ◌then_do◌ : Option Outcome → (Client → Option Outcome) → Option Outcome
none then_do next = none
some (goes_on c) then_do next = next c
some (stops s c) then_do next = some (stops s c)

-- A later time less an earlier one, as `uint32_t`.
abbrev pub minus_u32 : ℕ → ℕ → ℕ
minus_u32 a b = (a + 2 ^ 32 - b) % 2 ^ 32

pub video_sent : Client → Option Sending → Option Outcome
video_sent c none = none
video_sent c (some r) =
    let c' : Client = record c { wire = r.wire; answers = r.answers } in
    if r.result
    then some (goes_on (record c' { frame_count = (c.frame_count + 1) % 2 ^ 32 }))
    else some (stops video_failed c')

unfoldable pub grab_step : Client → Option (List ℕ) → Option Outcome
unfolding video_sent
grab_step c none =
    let n = (c.grab_fail_cnt + 1) % 2 ^ 32 in
    let c' : Client = record c { grab_fail_cnt = n } in
    if leb 5 n then some (stops camera_lost c') else some (goes_on c')
grab_step c (some []) = some (goes_on (record c { grab_fail_cnt = 0 }))
grab_step c (some (b ∷ bs)) =
    video_sent (record c { grab_fail_cnt = 0 })
      (send_frame c.answers (frame_code frame_video) (b ∷ bs) (length (b ∷ bs)) c.wire)

abbrev pub sensor_at : ℕ → SensorData
sensor_at t = record default_sensor {
  timestamp_ms = t;
  voltage_mv = 12000;
  mode = 3;
  risk_level = 0;
}

pub sensor_sent : Client → Option Sending → Option Outcome
sensor_sent c none = none
sensor_sent c (some r) =
    let c' : Client = record c { wire = r.wire; answers = r.answers } in
    if r.result then some (goes_on c') else some (stops sensor_failed c')

unfoldable pub sensor_step : Client → ℕ → Option Outcome
unfolding sensor_sent
sensor_step c t =
    let pl = pack_sensor (sensor_at t) in
    let sent =
      sensor_sent (record c { last_sensor_ms = t })
        (send_frame c.answers (frame_code frame_sensor) pl (length pl) c.wire) in
    if leb 1000 (minus_u32 t c.last_sensor_ms) then sent else some (goes_on c)

pub polled : Client → ℤ → Poll → Option Outcome
polled c (negsuc n) p = some (stops peer_gone (record c { rx_buf = p.buf }))
polled c (pos n) p = some (goes_on (record c { rx_buf = p.buf; logged = c.logged ++ p.out }))

-- `cmds` is cleared before each call.
unfoldable pub poll_step : Client → List RecvAnswer → Option Outcome
unfolding polled
poll_step c reads = elim (poll_commands reads c.rx_buf []) [
  | none ↦ none
  | some p ↦ polled c p.result p
]

unfoldable pub stat_step : Client → ℕ → Option Outcome
stat_step c t =
    if leb 1000 (minus_u32 t c.last_stat_ms)
    then some (goes_on (record c { frame_count = 0; last_stat_ms = t }))
    else some (goes_on c)

unfoldable pub round : Client → Round → Option Outcome
round c r =
    if r.running
    then (grab_step c r.grab then_do λ c1.
        sensor_step c1 r.now then_do λ c2. poll_step c2 r.reads then_do λ c3. stat_step c3 r.now)
    else some (stops stop_requested c)

-- The loop over the rounds given.
unfoldable pub serve_loop : Client → List Round → Option Outcome
serve_loop c [] = some (goes_on c)
serve_loop c (r ∷ rs) = round c r then_do λ c'. serve_loop c' rs

-- The client as the loop begins at time `t`.
abbrev pub new_client : ℕ → List ℕ → List SendAnswer → Client
new_client t wire answers = record {
  rx_buf = [];
  frame_count = 0;
  last_stat_ms = t;
  last_sensor_ms = 0;
  grab_fail_cnt = 0;
  wire = wire;
  answers = answers;
  logged = [];
}

pub greeted : ℕ → List Round → Option Sending → Option Outcome
greeted t rounds none = none
greeted t rounds (some r) = serve_loop (new_client t r.wire r.answers) rounds

-- `started` is the result of `startStreaming`, `text` the greeting, whose sending is not checked.
unfoldable pub serve_client : Bool → List ℕ → ℕ → List SendAnswer → List Round → Option Outcome
unfolding greeted
serve_client started text t answers rounds =
    if not started
    then some (stops not_streaming (new_client t [] answers))
    else greeted t rounds (send_text answers text [])
