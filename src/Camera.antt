-- ===== src/Camera.antt =====
-- src/modules/camera/CameraManager.cpp and include/modules/camera/CameraManager.h: the camera, by
-- Video4Linux. `xioctl` repeats an interrupted `ioctl`: its answers here are those of the last try.
pub mod Held
pub mod Opens
pub mod Answers
pub mod Grabs
pub mod Begun
pub mod Kept
mod Tests
use long.Base.{
  ℕ, zero, suc, ◌+◌, Bool, true, false, not, ◌||◌, List, [], ◌∷◌, ◌++◌, Option, none, some, length,
  if◌then◌else◌, ltb,
}
use long.Base.Int.{ℤ, pos, of_u32}
use long.Handle.{Handle, fresh, close_handle, open_handle}

abbrev pub buffer_count : ℕ
buffer_count = 4

-- What the object has asked the driver for.
pub data Request : Type 0 where
  mapped unmapped queued dequeued : ℕ → Request
  stream_on stream_off : Request

-- A buffer is the address of its mapping, `none` for a null pointer. `last_index` is `none` where
-- `lastIndex_` is negative. The latest request stands first.
pub record Camera : Type 0 where
  pub handle : Handle
  pub width : ℤ
  pub height : ℤ
  pub fps : ℤ
  pub is_mjpeg : Bool
  pub streaming : Bool
  pub last_index : Option ℕ
  pub buffers : List (Option ℕ)
  pub requests : List Request

abbrev pub new_camera : Camera
new_camera = record {
  handle = fresh;
  width = pos 0;
  height = pos 0;
  fps = pos 0;
  is_mjpeg = false;
  streaming = false;
  last_index = none;
  buffers = [];
  requests = [];
}

abbrev pub has_fd : Camera → Bool
has_fd c = elim c.handle.fd [ none ↦ false | some fd ↦ true ]

unfoldable pub stop_streaming : Camera → Camera
stop_streaming c =
    if not (has_fd c) || not c.streaming
    then c
    else record c { streaming = false; last_index = none; requests = stream_off ∷ c.requests }

unfoldable pub unmap_all : List (Option ℕ) → List Request → List Request
unmap_all [] requests = requests
unmap_all (none ∷ bs) requests = unmap_all bs requests
unmap_all (some a ∷ bs) requests = unmap_all bs (unmapped a ∷ requests)

unfoldable pub unmap_buffers : Camera → Camera
unmap_buffers c = record c { buffers = []; requests = unmap_all c.buffers c.requests }

unfoldable pub close_camera : Camera → Camera
close_camera c =
    let stopped = if c.streaming then stop_streaming c else c in
    let c' = unmap_buffers stopped in
    record c' { handle = close_handle c'.handle; last_index = none }

-- What QUERYBUF and `mmap` answer for a buffer: that the one succeeds, and the other's address.
pub record BufferAnswer : Type 0 where
  pub queried : Bool
  pub address : Option ℕ

-- What the kernel answers during a call of `open`: `format` is the width, the height and whether
-- the format is MJPEG, if S_FMT succeeds; `timed` that G_PARM succeeds and the rate can be set;
-- `rate` the denominator after S_PARM, if that succeeds; `count` the number of buffers.
pub record OpenAnswers : Type 0 where
  pub device : Option ℕ
  pub capabilities : Bool
  pub captures : Bool
  pub streams : Bool
  pub format : Option (ℕ × (ℕ × Bool))
  pub timed : Bool
  pub rate : Option ℕ
  pub count : Option ℕ
  pub answers : List BufferAnswer

abbrev pub nones : ℕ → List (Option ℕ)
nones zero = []
nones (suc n) = none ∷ nones n

-- The loop that maps the buffers: `done` are mapped and `n` are not. `none` means that the answers
-- end before the loop does.
unfoldable pub map_loop : Camera → List (Option ℕ) → ℕ → List BufferAnswer → Option (Camera × Bool)
map_loop c done zero answers = some (record c { buffers = done }, true)
map_loop c done (suc n) [] = none
map_loop c done (suc n) (a ∷ answers) =
    let failed = close_camera (record c { buffers = done ++ nones (suc n) }) in
    let next = λ (p : ℕ).
      map_loop (record c { requests = mapped p ∷ c.requests }) (done ++ (some p ∷ [])) n answers in
    if not a.queried
    then some (failed, false)
    else elim a.address [ none ↦ some (failed, false) | some p ↦ next p ]

unfoldable pub open_buffers : Camera → Option ℕ → List BufferAnswer → Option (Camera × Bool)
open_buffers c none answers = some (close_camera c, false)
open_buffers c (some count) answers =
    let all = map_loop c [] count answers in
    if ltb count 2 then some (close_camera c, false) else all

-- The rate asked for stands where the driver sets none.
unfoldable pub set_rate : Camera → ℤ → Bool → Option ℕ → Camera
set_rate c fps timed none = record c { fps = fps }
set_rate c fps timed (some rate) = record c { fps = if timed then of_u32 rate else fps }

unfoldable pub open_format :
    Camera → ℤ → OpenAnswers → Option (ℕ × (ℕ × Bool)) → Option (Camera × Bool)
open_format c fps a none = some (close_camera c, false)
open_format c fps a (some (width, (height, is_mjpeg))) =
    open_buffers
      (set_rate (record c { width = of_u32 width; height = of_u32 height; is_mjpeg = is_mjpeg }) fps
        a.timed a.rate)
      a.count a.answers

unfoldable pub open_device : Camera → ℤ → OpenAnswers → Option ℕ → Option (Camera × Bool)
open_device c fps a none = some (c, false)
open_device c fps a (some fd) =
    let rest = open_format c fps a a.format in
    if not a.capabilities
    then some (close_camera c, false)
    else if not a.captures
    then some (close_camera c, false)
    else if not a.streams
    then some (close_camera c, false)
    else rest

-- The size asked for goes to the driver alone. The camera after the call, and the result.
unfoldable pub open_camera : Camera → ℤ → OpenAnswers → Option (Camera × Bool)
open_camera c fps a =
    let closed = close_camera c in
    open_device (record closed { handle = open_handle closed.handle a.device }) fps a a.device

-- `ok` is that QBUF succeeds.
unfoldable pub requeue : Camera → ℕ → Bool → Camera × Bool
requeue c index ok =
    if ok then (record c { requests = queued index ∷ c.requests }, true) else (c, false)

-- The loop over the buffers from `index` on: `n` are left.
unfoldable pub queue_loop : Camera → ℕ → ℕ → List Bool → Option (Camera × Bool)
queue_loop c index zero oks = some (c, true)
queue_loop c index (suc n) [] = none
queue_loop c index (suc n) (ok ∷ oks) =
    let rest = queue_loop (requeue c index ok).0 (index + 1) n oks in
    if ok then rest else some ((requeue c index ok).0, false)

pub stream_queued : Bool → Option (Camera × Bool) → Option (Camera × Bool)
stream_queued on none = none
stream_queued on (some (c, false)) = some (c, false)
stream_queued on (some (c, true)) =
    if on
    then some
        (record c { streaming = true; last_index = none; requests = stream_on ∷ c.requests }, true)
    else some (c, false)

-- `oks` is what QBUF answers, `on` that STREAMON succeeds.
unfoldable pub start_streaming : Camera → List Bool → Bool → Option (Camera × Bool)
unfolding stream_queued
start_streaming c oks on =
    if not (has_fd c) || c.streaming
    then some (c, c.streaming)
    else stream_queued on (queue_loop c 0 (length c.buffers) oks)

-- What the kernel answers during a call of `grabFrame`: that QBUF succeeds, that the device is
-- ready in time, and the buffer that DQBUF gives, by its index and the bytes used.
pub record GrabAnswers : Type 0 where
  pub ok : Bool
  pub ready : Bool
  pub frame : Option (ℕ × ℕ)

-- The frame grabbed: its buffer and its size.
unfoldable pub take_frame : Camera → Bool → Option (ℕ × ℕ) → Camera × Option (ℕ × ℕ)
take_frame c false frame = (c, none)
take_frame c true none = (c, none)
take_frame c true (some (index, size)) = (
  record c { last_index = some index; requests = dequeued index ∷ c.requests },
  some (index, size),
)

unfoldable pub grab_from : Camera → Option ℕ → GrabAnswers → Camera × Option (ℕ × ℕ)
grab_from c none a = take_frame c a.ready a.frame
grab_from c (some index) a =
    let back = (requeue c index a.ok).0 in
    if a.ok then take_frame (record back { last_index = none }) a.ready a.frame else (back, none)

unfoldable pub grab_frame : Camera → GrabAnswers → Camera × Option (ℕ × ℕ)
grab_frame c a = if not (has_fd c) || not c.streaming then (c, none) else grab_from c c.last_index a
