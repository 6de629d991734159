-- ===== src/Network/Tests.antt =====
-- Runs of the link at concrete bytes, and its theorems at inputs that meet their hypotheses.
use long.Base.{none, ℕ, ◌≡◌, refl, List, [], ◌∷◌, ◌++◌, some, arith, true, false}
use mathlib.Core.List.{flatten}
use long.Base.Int.{negsuc}
use long.Network.Socket.{
  RecvAnswer, received, closed, recv_failed, eintr, eagain, SendAnswer, accepted, send_failed,
}
use long.Network.Frame.{SensorData, default_sensor, pack_sensor, build_header, build_frame}
use long.Network.Frame.Sensor.{read_sensor, read_sensor-pack_sensor}
use long.Network.Server.{scan, poll_commands}
use long.Network.Server.Scan.{Leaves, scan-Leaves}
use long.Network.Server.Stream.{scan-append}
use long.Base.Chunks.{◌>>=◌}
use long.Network.Server.RoundTrip.{Frame, sent}
use long.Network.Server.Polls.{poll_each, poll_commands-IsClosing, poll_each-sent_all}
use long.Network.Send.{Sending, send_all, send_frame, send_payload}
use long.Handle.{Handle, opened, closed as closed_fd, close_handle, open_handle}
use long.Network.Listener.{ListenAnswers, listen, listen_on}
use long.Network.Client.{ConnectAnswers}
use long.Network.Send.Wire.{Sent, send_frame-Sent, send_all_ends}

abbrev cold : SensorData
cold = record default_sensor {
  timestamp_ms = 123456;
  temperature_01c = negsuc 255;
  humidity_01 = 488;
  encoder1 = negsuc 9;
  voltage_mv = 12000;
  mode = 3;
}

read_sensor-pack_sensor_example : read_sensor (pack_sensor cold) ≡ cold
read_sensor-pack_sensor_example = read_sensor-pack_sensor cold (omega arith)

-- The fan is switched on: a5 40 02 00 00 00 01 01.
abbrev fan_on : Frame
fan_on = record { type = 0x40; payload = 1 ∷ 1 ∷ [] }

abbrev hello : Frame
hello = record { type = 0x30; payload = 104 ∷ 105 ∷ [] }

abbrev fan_on_bytes : List ℕ
fan_on_bytes = 0xa5 ∷ 0x40 ∷ 2 ∷ 0 ∷ 0 ∷ 0 ∷ 1 ∷ 1 ∷ []

sent-fan_on : sent fan_on ≡ fan_on_bytes
unfolding build_frame build_header
sent-fan_on = refl

scan_fan_on : scan (7 ∷ fan_on_bytes) [] ≡ some ([], record { cmd_id = 1; value = 1 } ∷ [])
unfolding scan
scan_fan_on = refl

-- A length above the limit: the start byte is dropped and the scan goes on.
scan_too_long : scan (0xa5 ∷ 0x40 ∷ 0 ∷ 0 ∷ 0 ∷ 2 ∷ 9 ∷ []) [] ≡ some (0 ∷ 0 ∷ 0 ∷ 2 ∷ 9 ∷ [], [])
unfolding scan
scan_too_long = refl

scan-Leaves_example : Leaves (7 ∷ fan_on_bytes) (scan (7 ∷ fan_on_bytes) [])
scan-Leaves_example = scan-Leaves (7 ∷ fan_on_bytes) []

abbrev front : List ℕ
front = 0xa5 ∷ 0x40 ∷ 2 ∷ []

abbrev back : List ℕ
back = 0 ∷ 0 ∷ 0 ∷ 1 ∷ 1 ∷ []

scan-append_example :
    scan (front ++ back) [] ≡ (scan front [] >>= λ (rest, out'). scan (rest ++ back) out')
scan-append_example = scan-append front back []

abbrev reads_in_two : List RecvAnswer
reads_in_two = received front ∷ recv_failed eintr ∷ received back ∷ recv_failed eagain ∷ []

-- The command came whole before the peer closed, and is lost.
poll_commands-IsClosing_example :
    poll_commands (received fan_on_bytes ∷ closed ∷ []) [] []
    ≡ some (record { result = negsuc 0; buf = fan_on_bytes; out = [] })
poll_commands-IsClosing_example =
    poll_commands-IsClosing (received fan_on_bytes ∷ closed ∷ []) [] [] tt

poll_each-sent_all_example :
    poll_each (reads_in_two ∷ (recv_failed eagain ∷ []) ∷ []) [] []
    ≡ some ([], record { cmd_id = 1; value = 1 } ∷ [])
unfolding build_frame build_header flatten
poll_each-sent_all_example =
    poll_each-sent_all (reads_in_two ∷ (recv_failed eagain ∷ []) ∷ []) (fan_on ∷ []) (tt, (tt, tt))
      (omega arith) refl

abbrev slow : List SendAnswer
slow = accepted 4 ∷ send_failed eintr ∷ accepted 2 ∷ accepted 9 ∷ []

abbrev all_there : Sending
all_there = record { result = true; wire = fan_on_bytes; answers = [] }

send_frame_runs : send_frame slow 0x40 (1 ∷ 1 ∷ []) 2 [] ≡ some all_there
unfolding send_frame send_all send_payload build_header
send_frame_runs = refl

send_frame-Sent_example : Sent [] (build_frame 0x40 (some (1 ∷ 1 ∷ [])) 2) all_there
send_frame-Sent_example = send_frame-Sent slow 0x40 (1 ∷ 1 ∷ []) 2 [] send_frame_runs

send_all_ends_example : (r : Sending) × (send_all slow (1 ∷ 2 ∷ 3 ∷ []) [] ≡ some r)
send_all_ends_example = send_all_ends slow (1 ∷ 2 ∷ 3 ∷ []) [] (omega arith)

abbrev old_socket : Handle
old_socket = record { fd = some 4; calls = opened 4 ∷ [] }

abbrev busy_port : ListenAnswers
busy_port = record {
  socket = some 5;
  any_addr = true;
  valid_addr = false;
  bound = false;
  listening = true;
}

listen_gives_up :
    listen old_socket busy_port
    ≡ (record { fd = none; calls = closed_fd 5 ∷ opened 5 ∷ closed_fd 4 ∷ opened 4 ∷ [] }, false)
unfolding listen listen_on close_handle open_handle
listen_gives_up = refl

abbrev reachable : ConnectAnswers
reachable = record {
  socket = some 5;
  valid_addr = true;
  connecting = true;
  writable = true;
  no_error = true;
}
