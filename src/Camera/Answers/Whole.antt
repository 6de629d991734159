-- ===== src/Camera/Answers/Whole.antt =====
-- `CameraManager::open` as a whole, by what the kernel answers.
use long.Base.{
  ℕ, ◌≡◌, refl, sym, subst, Bool, true, false, not, ◌&&◌, List, [], ◌∷◌, Option, none, some,
  if◌then◌else◌,
}
use long.Base.Int.{ℤ, of_u32}
use long.Handle.{opened, open_handle}
use long.Camera.{
  Camera, close_camera, OpenAnswers, open_buffers, open_format, open_device, open_camera,
}
use long.Camera.Held.{IsHeld, IsClosed, close_camera-IsClosed, succeeded, gave_up, OpensTo}
use long.Camera.Opens.{Enough, open_camera-OpensTo}
use long.Camera.Answers.{buffers_of, Got, got_from, got, rate_of, somes, mapped_after, OpensBy}
use long.Camera.Answers.Maps.{Fails, MapsTo, open_buffers-MapsTo, set_rate_lem}

-- From a closed camera with its descriptor to an open one.
abbrev opened_with : Camera → ℤ → Got → Camera
opened_with closed fps g = record closed {
  handle = record { fd = some g.fd; calls = opened g.fd ∷ closed.handle.calls };
  width = of_u32 g.width;
  height = of_u32 g.height;
  fps = fps;
  is_mjpeg = g.is_mjpeg;
  buffers = somes g.addresses;
  requests = mapped_after g.addresses closed.requests;
}

abbrev Agrees : Camera → ℤ → Option Got → Option (Camera × Bool) → Type 0
Agrees closed fps none o = Fails o
Agrees closed fps (some g) o = o ≡ some (opened_with closed fps g, true)

module _ (c : Camera) (fps : ℤ) (a : OpenAnswers) (l : Enough a.count a.answers) where
  abbrev based : Option ℕ → Camera
  based d = record (close_camera c) { handle = open_handle (close_camera c).handle d }

  abbrev sized : ℕ → ℕ → ℕ → Bool → Camera
  sized fd width height is_mjpeg = record (based (some fd)) {
    width = of_u32 width;
    height = of_u32 height;
    fps = rate_of fps a.timed a.rate;
    is_mjpeg = is_mjpeg;
  }

  open_format-Agrees :
      (fd : ℕ) (format : Option (ℕ × (ℕ × Bool)))
      → Agrees
          (close_camera c)
          (rate_of fps a.timed a.rate)
          (got_from true (some fd) format (buffers_of a.count a.answers))
          (open_format (based (some fd)) fps a format)
  unfolding open_format open_handle
  open_format-Agrees fd none = (close_camera (based (some fd)), refl)
  open_format-Agrees fd (some (width, (height, is_mjpeg))) =
      rw
        (set_rate_lem
          (record (based (some fd)) {
            width = of_u32 width;
            height = of_u32 height;
            is_mjpeg = is_mjpeg;
          })
          fps a.timed a.rate)
        (go (buffers_of a.count a.answers)
          (open_buffers (sized fd width height is_mjpeg) a.count a.answers)
          (open_buffers-MapsTo (sized fd width height is_mjpeg) a.count a.answers l))
    where
      go :
          (r : Option (List ℕ)) (o : Option (Camera × Bool))
          → MapsTo (sized fd width height is_mjpeg) [] r o
          → Agrees
              (close_camera c)
              (rate_of fps a.timed a.rate)
              (got_from true (some fd) (some (width, (height, is_mjpeg))) r)
              o
      go none o k = k
      go (some ps) o k = k

  open_device-Agrees :
      (device : Option ℕ)
      → Agrees
          (close_camera c)
          (rate_of fps a.timed a.rate)
          (got_from
            (a.capabilities && (a.captures && a.streams))
            device
            a.format
            (buffers_of a.count a.answers))
          (open_device (based device) fps a device)
  unfolding open_device
  open_device-Agrees none = go (a.capabilities && (a.captures && a.streams))
    where
      go :
          (b : Bool)
          → Agrees
              (close_camera c)
              (rate_of fps a.timed a.rate)
              (got_from b none a.format (buffers_of a.count a.answers))
              (some (based none, false))
      go true = (based none, refl)
      go false = (based none, refl)
  open_device-Agrees (some fd) = go a.capabilities a.captures a.streams
    where
      failed : Option (Camera × Bool)
      failed = some (close_camera (based (some fd)), false)

      go :
          (x y z : Bool)
          → Agrees
              (close_camera c)
              (rate_of fps a.timed a.rate)
              (got_from (x && (y && z)) (some fd) a.format (buffers_of a.count a.answers))
              (if not x
                then failed
                else if not y
                then failed
                else if not z
                then failed
                else open_format (based (some fd)) fps a a.format)
      go false y z = (close_camera (based (some fd)), refl)
      go true false z = (close_camera (based (some fd)), refl)
      go true true false = (close_camera (based (some fd)), refl)
      go true true true = open_format-Agrees fd a.format

opens_as_answered :
    (c : Camera) (fps : ℤ) (g : Option Got) (o : Option (Camera × Bool))
    → IsHeld c
    → OpensTo o
    → Agrees (close_camera c) fps g o
    → OpensBy c fps g o
opens_as_answered c fps none o h t (c', e) =
    subst (OpensBy c fps none) (sym e) (refl, closed (subst OpensTo e t))
  where
    closed : OpensTo (some (c', false)) → IsClosed c'
    closed (succeeded e a b d) = absurd cc
    closed (gave_up e k) = k
opens_as_answered c fps (some g) o h t e =
    let k = close_camera-IsClosed c h in
    subst (OpensBy c fps (some g)) (sym e) (
      refl,
      record {
        given_back = k;
        descriptor = refl;
        calls = refl;
        buffers = refl;
        requests = refl;
        width = refl;
        height = refl;
        is_mjpeg = refl;
        fps = refl;
        idle = k.stopped;
        no_index = k.no_index;
      },
    )

-- Whatever the kernel answers, with an answer for each buffer that it says it has, to a camera
-- whose descriptor and mappings are those that it has asked for and not given back: `open` first
-- gives back what the camera held. It returns true exactly if the device is opened, is a camera
-- that streams, takes a format, and grants two buffers or more, each with its mapping: then the
-- camera has the new descriptor, the mappings of these buffers in their order, the size and the
-- format of the driver, the rate that the driver has set or else the one asked for, and does not
-- stream. In all other cases it returns false, and has given back all that it had got on the way.
pub open_camera-OpensBy :
    (c : Camera) (fps : ℤ) (a : OpenAnswers)
    → Enough a.count a.answers
    → IsHeld c
    → OpensBy c (rate_of fps a.timed a.rate) (got a) (open_camera c fps a)
open_camera-OpensBy c fps a l h =
    opens_as_answered c (rate_of fps a.timed a.rate) (got a) (open_camera c fps a) h
      (open_camera-OpensTo c fps a l h)
      (unfold open_camera in open_device-Agrees c fps a l a.device)
