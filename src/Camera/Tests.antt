-- ===== src/Camera/Tests.antt =====
-- Runs of the camera, and its theorems at inputs that meet their hypotheses.
use long.Base.{arith, ◌≡◌, refl, List, [], ◌∷◌, none, some, true, false}
use long.Base.Int.{pos}
use long.Handle.{opened, closed, close_handle, open_handle}
use long.Camera.{
  Camera, new_camera, mapped, unmapped, queued, stream_on, OpenAnswers, open_camera, open_device,
  open_format, open_buffers, set_rate, map_loop, close_camera, unmap_buffers, unmap_all,
  stop_streaming, start_streaming, queue_loop, requeue, GrabAnswers,
}
use long.Camera.Held.{IsHeld}
use long.Camera.Answers.{OpensBy}
use long.Camera.Answers.Whole.{open_camera-OpensBy}

-- The second of two buffers cannot be mapped.
abbrev one_short : OpenAnswers
one_short = record {
  device = some 5;
  capabilities = true;
  captures = true;
  streams = true;
  format = some (640, (480, true));
  timed = true;
  rate = some 25;
  count = some 2;
  answers =
      record { queried = true; address = some 4096 }
      ∷ record { queried = true; address = none }
      ∷ [];
}

abbrev given_up : Camera
given_up = record new_camera {
  handle = record { fd = none; calls = closed 5 ∷ opened 5 ∷ [] };
  width = pos 640;
  height = pos 480;
  fps = pos 25;
  is_mjpeg = true;
  requests = unmapped 4096 ∷ mapped 4096 ∷ [];
}

open_camera_gives_up : open_camera new_camera (pos 30) one_short ≡ some (given_up, false)
unfolding open_camera open_device open_format open_buffers set_rate map_loop close_camera
    unmap_buffers unmap_all stop_streaming close_handle open_handle
open_camera_gives_up = refl

abbrev new-IsHeld : IsHeld new_camera
new-IsHeld = record { owned = refl; held = refl; idle = λ t. refl }

-- Both can.
abbrev both : OpenAnswers
both = record one_short {
  answers =
      record { queried = true; address = some 4096 }
      ∷ record { queried = true; address = some 8192 }
      ∷ [];
}

open_camera-OpensBy_example :
    OpensBy new_camera
      (pos 25)
      (some (record {
        fd = 5;
        width = 640;
        height = 480;
        is_mjpeg = true;
        addresses = 4096 ∷ 8192 ∷ [];
      }))
      (open_camera new_camera (pos 30) both)
open_camera-OpensBy_example = open_camera-OpensBy new_camera (pos 30) both (omega arith) new-IsHeld

abbrev two_buffers : Camera
two_buffers = record new_camera {
  handle = record { fd = some 5; calls = opened 5 ∷ [] };
  buffers = some 4096 ∷ some 8192 ∷ [];
  requests = mapped 8192 ∷ mapped 4096 ∷ [];
}

abbrev started : Camera
started = record two_buffers {
  streaming = true;
  requests = stream_on ∷ queued 1 ∷ queued 0 ∷ mapped 8192 ∷ mapped 4096 ∷ [];
}

start_streaming_runs : start_streaming two_buffers (true ∷ true ∷ []) true ≡ some (started, true)
unfolding start_streaming queue_loop requeue
start_streaming_runs = refl

-- A frame, a timeout, a frame.
abbrev grabs : List GrabAnswers
grabs =
    record { ok = true; ready = true; frame = some (1, 900) }
    ∷ record { ok = true; ready = false; frame = none }
    ∷ record { ok = true; ready = true; frame = some (0, 800) }
    ∷ []
