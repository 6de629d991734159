-- ===== src/Camera/Begun.antt =====
-- `CameraManager::startStreaming`, where it succeeds.
use long.Base.{
  ℕ, zero, suc, ◌+◌, ◌≡◌, refl, sym, ap, subst, ◌∙◌, Bool, true, false, not, ◌||◌, List, [], ◌∷◌,
  Option, none, some, if◌then◌else◌, eq_of_some, length,
}
use long.Text.Same.{true_false}
use long.Camera.{Camera, has_fd, requeue, start_streaming, stream_queued, queue_loop}

-- The camera of the result has the handle `h`.
abbrev Keeps : Camera → Option (Camera × Bool) → Type 0
Keeps c none = Unit
Keeps c (some (c', b)) = c'.handle ≡ c.handle

queue_loop-Keeps :
    (c c' : Camera) (index n : ℕ) (oks : List Bool)
    → c'.handle ≡ c.handle
    → Keeps c (queue_loop c' index n oks)
unfolding queue_loop requeue
queue_loop-Keeps c c' index zero oks h = h
queue_loop-Keeps c c' index (suc n) [] h = tt
queue_loop-Keeps c c' index (suc n) (true ∷ oks) h =
    queue_loop-Keeps c (requeue c' index true).0 (index + 1) n oks h
queue_loop-Keeps c c' index (suc n) (false ∷ oks) h = h

-- Streaming has begun on the device of `c`.
record Begun (c c' : Camera) : Type 0 where
  same_handle : c'.handle ≡ c.handle
  streaming : c'.streaming ≡ true

stream_queued-Begun :
    (c : Camera) (on : Bool) (o : Option (Camera × Bool)) (c' : Camera)
    → Keeps c o
    → stream_queued on o ≡ some (c', true)
    → Begun c c'
unfolding stream_queued
stream_queued-Begun c on none c' k e = absurd cc
stream_queued-Begun c on (some (d, false)) c' k e =
    true_false (ap (λ (t : Camera × Bool). t.1) (eq_of_some e))
stream_queued-Begun c true (some (d, true)) c' k e =
    subst (λ (t : Camera × Bool). Begun c t.0) (eq_of_some e)
      (record { same_handle = k; streaming = refl })
stream_queued-Begun c false (some (d, true)) c' k e =
    true_false (ap (λ (t : Camera × Bool). t.1) (eq_of_some e))

-- What a call of `startStreaming` that succeeds leaves.
pub start_streaming_begun :
    (c : Camera) (oks : List Bool) (on : Bool) (c' : Camera)
    → c.streaming ≡ false
    → start_streaming c oks on ≡ some (c', true)
    → (c'.streaming ≡ true) × (has_fd c' ≡ true)
unfolding start_streaming
start_streaming_begun c oks on c' n e = go (has_fd c) refl c.streaming n e
  where
    queue : Option (Camera × Bool)
    queue = stream_queued on (queue_loop c 0 (length c.buffers) oks)

    go :
        (d : Bool)
        → has_fd c ≡ d
        → (s : Bool) → s ≡ false
        → (if not d || s then some (c, s) else queue) ≡ some (c', true)
        → (c'.streaming ≡ true) × (has_fd c' ≡ true)
    go false u s m f = true_false (sym m ∙ ap (λ (t : Camera × Bool). t.1) (eq_of_some f))
    go true u true m f = true_false (sym m)
    go true u false m f =
        let b =
          stream_queued-Begun c on (queue_loop c 0 (length c.buffers) oks) c'
            (queue_loop-Keeps c c 0 (length c.buffers) oks refl) f in
        (b.streaming, ap (λ h. elim h.fd [ none ↦ false | some fd ↦ true ]) b.same_handle ∙ u)
