-- ===== src/App/Whole/Tests.antt =====
-- A run of the application, from the first try to open its camera to the end.
use long.Base.{◌≡◌, refl, true, false, List, [], ◌∷◌, none, some, arith}
use long.Base.Int.{pos, negsuc}
use long.Handle.{opened, closed, open_handle, close_handle}
use long.Text.{decimal_loop}
use long.Network.Frame.{build_header}
use long.Network.Socket.{accepted}
use long.Network.Send.{send_text, send_frame, send_payload, send_all}
use long.Camera.{
  Camera, OpenAnswers, new_camera, mapped, unmapped, queued, stream_on, stream_off, open_camera,
  open_device, open_format, open_buffers, map_loop, set_rate, close_camera, unmap_buffers,
  unmap_all, start_streaming, queue_loop, requeue, stop_streaming,
}
use long.Camera.Held.{IsClosed}
use long.App.Serve.{round}
use long.App.Stream.{stream_client, stream_loop, ready_text}
use long.App.Whole.{Try, Visit, try_loop, visit_loop, run_whole, application}
use long.App.Whole.Closed.{application-IsClosed}

-- There is no camera at first; then one with two buffers.
abbrev absent : OpenAnswers
absent = record {
  device = none;
  capabilities = true;
  captures = true;
  streams = true;
  format = some (640, (480, true));
  timed = true;
  rate = some 5;
  count = some 2;
  answers =
      record { queried = true; address = some 1000 }
      ∷ record { queried = true; address = some 2000 }
      ∷ [];
}

abbrev tries : List Try
tries =
    record { running = true; answers = absent; slept = true }
    ∷ record { running = true; answers = record absent { device = some 3 }; slept = true }
    ∷ []

-- Nobody, then a client that is served until a stop is requested.
abbrev visits : List Visit
visits =
    record {
      running = true;
      client = negsuc 0;
      oks = [];
      on = true;
      now = 0;
      answers = [];
      shots = [];
    }
    ∷ record {
      running = true;
      client = pos 7;
      oks = true ∷ true ∷ [];
      on = true;
      now = 0;
      answers = accepted 100 ∷ accepted 100 ∷ [];
      shots =
          record {
            running = false;
            answers = record { ok = true; ready = false; frame = none };
            bytes = [];
            now = 30;
            reads = [];
          }
          ∷ [];
    }
    ∷ record {
      running = false;
      client = negsuc 0;
      oks = [];
      on = true;
      now = 0;
      answers = [];
      shots = [];
    }
    ∷ []

abbrev afterwards : Camera
afterwards = record new_camera {
  handle = record { fd = none; calls = closed 3 ∷ opened 3 ∷ [] };
  width = pos 640;
  height = pos 480;
  fps = pos 5;
  is_mjpeg = true;
  requests =
      unmapped 2000
      ∷ unmapped 1000
      ∷ stream_off
      ∷ stream_on
      ∷ queued 1
      ∷ queued 0
      ∷ mapped 2000
      ∷ mapped 1000
      ∷ [];
}

application_runs : application (pos 5) tries true true visits ≡ some (afterwards, 0)
unfolding application run_whole try_loop visit_loop stream_client stream_loop open_camera
    open_device open_format open_buffers map_loop set_rate close_camera unmap_buffers unmap_all
    start_streaming queue_loop requeue stop_streaming open_handle close_handle send_text send_frame
    send_payload send_all build_header ready_text decimal_loop round
application_runs = refl

application-IsClosed_example : IsClosed afterwards
application-IsClosed_example =
    application-IsClosed (pos 5) tries true true visits afterwards 0
      (omega arith, (omega arith, tt)) application_runs
