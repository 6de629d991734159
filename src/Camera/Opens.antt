-- ===== src/Camera/Opens.antt =====
-- `CameraManager::open`.
use long.Base.{
  ◌≤◌, length, ℕ, ◌≡◌, refl, sym, ap, ◌∙◌, Bool, true, false, not, List, [], Option, none, some,
  if◌then◌else◌, ltb,
}
use long.Base.Int.{ℤ}
use long.Handle.{open_handle}
use long.Handle.Owned.{IsOwned, open_handle-IsOwned, fd-open_handle}
use long.Camera.{
  Camera, has_fd, close_camera, BufferAnswer, OpenAnswers, map_loop, open_buffers, set_rate,
  open_format, open_device, open_camera,
}
use long.Camera.Held.{
  addresses, mappings, IsHeld, IsClosed, close_camera-IsClosed, gave_up, OpensTo, fails,
  map_loop-OpensTo,
}

-- There is an answer for each buffer that the driver says it has.
abbrev pub Enough : Option ℕ → List BufferAnswer → Type 0
Enough none answers = Unit {0}
Enough (some count) answers = count ≤ length answers

-- A camera with a descriptor and nothing else.
pub record Ready (c : Camera) : Type 0 where
  pub owned : IsOwned c.handle
  pub has : has_fd c ≡ true
  pub off : c.streaming ≡ false
  pub released : mappings c.requests ≡ some []
  pub no_buffers : c.buffers ≡ []

ready_held : (c : Camera) → Ready c → IsHeld c
ready_held c r = record {
  owned = r.owned;
  held = r.released ∙ ap (λ t. some (addresses t)) (sym r.no_buffers);
  idle = λ t. r.off;
}

open_buffers-OpensTo :
    (c : Camera) (count : Option ℕ) (answers : List BufferAnswer)
    → Enough count answers
    → Ready c
    → OpensTo (open_buffers c count answers)
unfolding open_buffers
open_buffers-OpensTo c none answers l r = fails c (ready_held c r)
open_buffers-OpensTo c (some count) answers l r = go (ltb count 2)
  where
    go :
        (b : Bool)
        → OpensTo (if b then some (close_camera c, false) else map_loop c [] count answers)
    go true = fails c (ready_held c r)
    go false =
        map_loop-OpensTo c [] count answers l
          (record { owned = r.owned; has = r.has; off = r.off; held = r.released })

set_rate-Ready :
    (c : Camera) (fps : ℤ) (timed : Bool) (rate : Option ℕ)
    → Ready c
    → Ready (set_rate c fps timed rate)
unfolding set_rate
set_rate-Ready c fps timed none r = record {
  owned = r.owned;
  has = r.has;
  off = r.off;
  released = r.released;
  no_buffers = r.no_buffers;
}
set_rate-Ready c fps timed (some rate) r = record {
  owned = r.owned;
  has = r.has;
  off = r.off;
  released = r.released;
  no_buffers = r.no_buffers;
}

open_format-OpensTo :
    (c : Camera) (fps : ℤ) (a : OpenAnswers) (format : Option (ℕ × (ℕ × Bool)))
    → Enough a.count a.answers
    → Ready c
    → OpensTo (open_format c fps a format)
unfolding open_format
open_format-OpensTo c fps a none l r = fails c (ready_held c r)
open_format-OpensTo c fps a (some (width, (height, is_mjpeg))) l r =
    open_buffers-OpensTo _ a.count a.answers l (
      set_rate-Ready _ fps a.timed a.rate (record {
        owned = r.owned;
        has = r.has;
        off = r.off;
        released = r.released;
        no_buffers = r.no_buffers;
      }))

open_device-OpensTo :
    (c : Camera) (fps : ℤ) (a : OpenAnswers) (fd : ℕ)
    → Enough a.count a.answers
    → Ready c
    → OpensTo (open_device c fps a (some fd))
unfolding open_device
open_device-OpensTo c fps a fd l r = go (not a.capabilities) (not a.captures) (not a.streams)
  where
    failed : Option (Camera × Bool)
    failed = some (close_camera c, false)

    go :
        (x y z : Bool)
        → OpensTo (
            if x
            then failed
            else if y
            then failed
            else if z
            then failed
            else open_format c fps a a.format)
    go true y z = fails c (ready_held c r)
    go false true z = fails c (ready_held c r)
    go false false true = fails c (ready_held c r)
    go false false false = open_format-OpensTo c fps a a.format l r

-- `open` ends with the descriptor and its mappings, or with nothing.
pub open_camera-OpensTo :
    (c : Camera) (fps : ℤ) (a : OpenAnswers)
    → Enough a.count a.answers
    → IsHeld c
    → OpensTo (open_camera c fps a)
unfolding open_camera
open_camera-OpensTo c fps a l h = go a.device
  where
    k : IsClosed (close_camera c)
    k = close_camera-IsClosed c h

    go :
        (device : Option ℕ)
        → OpensTo (
            open_device
              (record (close_camera c) { handle = open_handle (close_camera c).handle device })
              fps
              a
              device)
    go none =
        unfold open_device in
        gave_up refl (record {
          owned = open_handle-IsOwned (close_camera c).handle none k.no_fd k.owned;
          no_fd = fd-open_handle (close_camera c).handle none;
          released = k.released;
          no_buffers = k.no_buffers;
          stopped = k.stopped;
          no_index = k.no_index;
        })
    go (some fd) = open_device-OpensTo _ fps a fd l (record {
      owned = open_handle-IsOwned (close_camera c).handle (some fd) k.no_fd k.owned;
      has =
          ap (λ o. elim o [ none ↦ false | some n ↦ true ])
            (fd-open_handle (close_camera c).handle (some fd));
      off = k.stopped;
      released = k.released;
      no_buffers = k.no_buffers;
    })
