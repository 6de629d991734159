-- ===== src/App/Stream/Tests.antt =====
-- `serveClient` with a camera, and its theorems at inputs that meet their hypotheses.
use long.Base.{◌≡◌, refl, true, false, List, [], ◌∷◌, none, some}
use long.Base.Int.{pos}
use long.Handle.{opened}
use long.Network.Socket.{SendAnswer, accepted, recv_failed, eagain}
use long.Camera.{Camera, new_camera, queued, stream_on, start_streaming, queue_loop, requeue}
use long.App.Stream.{Shot, stream_client}
use long.App.Stream.Held.{HoldsFrames}
use long.App.Stream.Shut.{IsShut, stream_client-HoldsFrames}

abbrev cam : Camera
cam = record new_camera {
  handle = record { fd = some 3; calls = opened 3 ∷ [] };
  width = pos 640;
  height = pos 480;
  buffers = some 1000 ∷ some 2000 ∷ [];
}

abbrev started : Camera
started = record cam { streaming = true; requests = stream_on ∷ queued 1 ∷ queued 0 ∷ [] }

started_runs : start_streaming cam (true ∷ true ∷ []) true ≡ some (started, true)
unfolding start_streaming queue_loop requeue
started_runs = refl

-- Two frames, and a request to stop.
abbrev shots : List Shot
shots =
    record {
      running = true;
      answers = record { ok = true; ready = true; frame = some (0, 2) };
      bytes = 7 ∷ 8 ∷ 9 ∷ [];
      now = 10;
      reads = recv_failed eagain ∷ [];
    }
    ∷ record {
      running = true;
      answers = record { ok = true; ready = true; frame = some (1, 1) };
      bytes = 7 ∷ [];
      now = 20;
      reads = recv_failed eagain ∷ [];
    }
    ∷ record {
      running = false;
      answers = record { ok = true; ready = false; frame = none };
      bytes = [];
      now = 30;
      reads = [];
    }
    ∷ []

abbrev answers : List SendAnswer
answers =
    accepted 100 ∷ accepted 100 ∷ accepted 100 ∷ accepted 100 ∷ accepted 100 ∷ accepted 100 ∷ []

stream_client-HoldsFrames_example :
    HoldsFrames started shots × IsShut (stream_client cam (true ∷ true ∷ []) true 0 answers shots)
stream_client-HoldsFrames_example =
    stream_client-HoldsFrames cam started (true ∷ true ∷ []) true 0 answers shots refl started_runs
