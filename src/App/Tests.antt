-- ===== src/App/Tests.antt =====
-- Runs of the application, and its theorems at inputs that meet their hypotheses.
use long.Base.{ℕ, ◌≡◌, refl, List, [], ◌∷◌, none, some, true, false, arith}
use long.Base.Int.{pos}
use long.Handle.{opened}
use long.Network.Socket.{received, recv_failed, eagain, accepted}
use long.Network.Frame.{build_header, build_frame}
use long.Network.Server.{poll_commands, recv_loop, finish_poll, scan}
use long.Network.Send.{send_all, send_payload, send_frame}
use long.Network.Listener.{ready, timeout, accepted_fd, accept_client}
use long.App.Serve.{
  Client, Round, Outcome, goes_on, stops, camera_lost, new_client, grab_step, sensor_step,
  poll_step, stat_step, round, serve_loop, ◌then_do◌,
}
use long.App.Serve.Served.{Served, serve_loop-Served}
use long.App.Serve.Lost.{IsStopped, serve_loop-IsStopped}
use long.App.Run.{
  RunAnswers, open_loop, accept_loop, run, camera_opened, camera_closed, listening, server_closed,
  served, closed_client, Event,
}
use long.App.Serve.Commands.{serve_loop-commands_in}
use long.Network.Server.RoundTrip.{Frame, commands_in}
use mathlib.Core.List.{flatten}
use long.App.Run.Ends.{run_ends}
use long.App.Run.Orderly.{Orderly, run-Orderly}

-- A frame of one byte and no sensor frame yet; then a grab that fails, and the fan.
abbrev rounds : List Round
rounds =
    record { running = true; grab = some (7 ∷ []); now = 500; reads = recv_failed eagain ∷ [] }
    ∷ record {
      running = true;
      grab = none;
      now = 600;
      reads = received (0xa5 ∷ 0x40 ∷ 2 ∷ 0 ∷ 0 ∷ 0 ∷ 1 ∷ 1 ∷ []) ∷ recv_failed eagain ∷ [];
    }
    ∷ []

abbrev before : Client
before = new_client 0 [] (accepted 6 ∷ accepted 1 ∷ [])

abbrev afterwards : Client
afterwards = record {
  rx_buf = [];
  frame_count = 1;
  last_stat_ms = 0;
  last_sensor_ms = 0;
  grab_fail_cnt = 1;
  wire = 0xa5 ∷ 0x10 ∷ 1 ∷ 0 ∷ 0 ∷ 0 ∷ 7 ∷ [];
  answers = [];
  logged = record { cmd_id = 1; value = 1 } ∷ [];
}

serve_loop_runs : serve_loop before rounds ≡ some (goes_on afterwards)
unfolding serve_loop round grab_step sensor_step poll_step stat_step send_frame send_all
    send_payload build_header poll_commands ◌then_do◌ finish_poll recv_loop scan
serve_loop_runs = refl

serve_loop-Served_example : Served before rounds afterwards
serve_loop-Served_example = serve_loop-Served before rounds afterwards (omega arith) serve_loop_runs

-- Five rounds without a frame.
abbrev blind : Round
blind = record { running = true; grab = none; now = 700; reads = recv_failed eagain ∷ [] }

abbrev blind_rounds : List Round
blind_rounds = blind ∷ blind ∷ blind ∷ blind ∷ blind ∷ []

abbrev lost : Outcome
lost = stops camera_lost (record before { grab_fail_cnt = 5; last_stat_ms = 0; last_sensor_ms = 0 })

blind_runs : serve_loop before blind_rounds ≡ some lost
unfolding serve_loop round grab_step sensor_step poll_step stat_step send_frame send_all
    send_payload build_header poll_commands ◌then_do◌ finish_poll recv_loop scan
blind_runs = refl

serve_loop-IsStopped_example : IsStopped lost
serve_loop-IsStopped_example =
    serve_loop-IsStopped before [] blind_rounds lost (omega arith) (omega arith)
      (refl, (refl, (refl, (refl, (refl, tt))))) blind_runs

-- The frame of the fan, over the two rounds.
abbrev fan_on : Frame
fan_on = record { type = 0x40; payload = 1 ∷ 1 ∷ [] }

serve_loop-commands_in_example :
    (afterwards.rx_buf ≡ []) × (afterwards.logged ≡ commands_in (fan_on ∷ []))
unfolding build_frame build_header flatten
serve_loop-commands_in_example =
    serve_loop-commands_in before rounds afterwards (fan_on ∷ []) (omega arith) refl refl
      serve_loop_runs (tt, (tt, tt)) (omega arith) refl

-- The camera opens at the second attempt; one client comes.
abbrev one_client : RunAnswers
one_client = record {
  attempts =
      record { running = true; opened = false; slept = true }
      ∷ record { running = true; opened = true; slept = true }
      ∷ [];
  still_running = true;
  listened = true;
  server = record { fd = some 3; calls = opened 3 ∷ [] };
  arrivals =
      record { running = true; selected = timeout; accepted = accepted_fd 9 }
      ∷ record { running = true; selected = ready; accepted = accepted_fd 5 }
      ∷ record { running = false; selected = ready; accepted = accepted_fd 6 }
      ∷ [];
}

abbrev done : List Event
done =
    camera_opened
    ∷ listening
    ∷ served (pos 5)
    ∷ closed_client (pos 5)
    ∷ camera_closed
    ∷ server_closed
    ∷ []

run-one_client : run one_client ≡ some (0, done)
unfolding run open_loop accept_loop accept_client
run-one_client = refl

run-Orderly_example : Orderly one_client 0 done
run-Orderly_example = run-Orderly one_client 0 done run-one_client

run_ends_example : (r : ℕ × List Event) × ((run one_client ≡ some r) × Orderly one_client r.0 r.1)
run_ends_example = run_ends one_client tt (unfold accept_client in tt)
