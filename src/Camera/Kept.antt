-- ===== src/Camera/Kept.antt =====
-- The CameraManager from `startStreaming` to `stopStreaming`: what it holds stays.
use long.Base.{
  ℕ, zero, suc, ◌+◌, ◌≡◌, refl, sym, ap, subst, ◌∙◌, Bool, true, false, not, ◌||◌, List, [], ◌∷◌,
  Option, none, some, if◌then◌else◌, length,
}
use long.Handle.Owned.{IsOwned}
use long.Camera.{
  queued, dequeued, stream_on, Camera, has_fd, requeue, GrabAnswers, take_frame, grab_from,
  grab_frame, start_streaming, stream_queued, queue_loop, stop_streaming,
}
use long.Camera.Held.{addresses, after, mappings, IsHeld, stop_streaming-Stopped}

pick {ℓ} : {A : Type ℓ} → Bool → A → A → A
pick b x y = if b then x else y

-- `c'` has the descriptor, the buffers and the mappings of `c`, and streams if `c` does.
pub record Same (c c' : Camera) : Type 0 where
  pub same_handle : c'.handle ≡ c.handle
  pub same_buffers : c'.buffers ≡ c.buffers
  pub same_streaming : c'.streaming ≡ c.streaming
  pub same_mappings : (ps : List ℕ) → mappings c.requests ≡ some ps → mappings c'.requests ≡ some ps

pub Same-IsHeld : (c c' : Camera) → Same c c' → IsHeld c → IsHeld c'
Same-IsHeld c c' s h = record {
  owned = subst IsOwned (sym s.same_handle) h.owned;
  held =
      s.same_mappings (addresses c.buffers) h.held
      ∙ ap (λ t. some (addresses t)) (sym s.same_buffers);
  idle = λ e.
      s.same_streaming
      ∙ h.idle (ap (λ t. elim t.fd [ none ↦ false | some fd ↦ true ]) (sym s.same_handle) ∙ e);
}

itself : (c : Camera) → Same c c
itself c = record {
  same_handle = refl;
  same_buffers = refl;
  same_streaming = refl;
  same_mappings = λ ps e. e;
}

take_frame-Same :
    (c c' : Camera) (ready : Bool) (f : Option (ℕ × ℕ))
    → Same c c'
    → Same c (take_frame c' ready f).0
unfolding take_frame
take_frame-Same c c' false f s = s
take_frame-Same c c' true none s = s
take_frame-Same c c' true (some (i, n)) s = record {
  same_handle = s.same_handle;
  same_buffers = s.same_buffers;
  same_streaming = s.same_streaming;
  same_mappings = λ ps e. ap (λ o. after o (dequeued i)) (s.same_mappings ps e);
}

requeue-Same : (c : Camera) (i : ℕ) (ok : Bool) → Same c (requeue c i ok).0
unfolding requeue
requeue-Same c i true = record {
  same_handle = refl;
  same_buffers = refl;
  same_streaming = refl;
  same_mappings = λ ps e. ap (λ o. after o (queued i)) e;
}
requeue-Same c i false = itself c

forget-Same : (c c' : Camera) → Same c c' → Same c (record c' { last_index = none })
forget-Same c c' s = record {
  same_handle = s.same_handle;
  same_buffers = s.same_buffers;
  same_streaming = s.same_streaming;
  same_mappings = s.same_mappings;
}

grab_from-Same : (c : Camera) (last : Option ℕ) (a : GrabAnswers) → Same c (grab_from c last a).0
unfolding grab_from pick
grab_from-Same c none a = take_frame-Same c c a.ready a.frame (itself c)
grab_from-Same c (some i) a = go a.ok
  where
    back : Camera
    back = (requeue c i a.ok).0

    go :
        (b : Bool)
        → Same c
            (pick b (take_frame (record back { last_index = none }) a.ready a.frame) (back, none)).0
    go true =
        take_frame-Same c (record back { last_index = none }) a.ready a.frame
          (forget-Same c back (requeue-Same c i a.ok))
    go false = requeue-Same c i a.ok

pub grab_frame-Same : (c : Camera) (a : GrabAnswers) → Same c (grab_frame c a).0
unfolding grab_frame pick
grab_frame-Same c a = go (not (has_fd c) || not c.streaming)
  where
    go : (b : Bool) → Same c (pick b (c, none) (grab_from c c.last_index a)).0
    go true = itself c
    go false = grab_from-Same c c.last_index a

then-Same : (c d e : Camera) → Same c d → Same d e → Same c e
then-Same c d e s t = record {
  same_handle = t.same_handle ∙ s.same_handle;
  same_buffers = t.same_buffers ∙ s.same_buffers;
  same_streaming = t.same_streaming ∙ s.same_streaming;
  same_mappings = λ ps x. t.same_mappings ps (s.same_mappings ps x);
}

abbrev LeavesSame : Camera → Option (Camera × Bool) → Type 0
LeavesSame c none = Unit
LeavesSame c (some (c', b)) = Same c c'

queue_loop-Same :
    (c c' : Camera) (index n : ℕ) (oks : List Bool)
    → Same c c'
    → LeavesSame c (queue_loop c' index n oks)
unfolding queue_loop
queue_loop-Same c c' index zero oks s = s
queue_loop-Same c c' index (suc n) [] s = tt
queue_loop-Same c c' index (suc n) (true ∷ oks) s =
    queue_loop-Same c (requeue c' index true).0 (index + 1) n oks
      (then-Same c c' (requeue c' index true).0 s (requeue-Same c' index true))
queue_loop-Same c c' index (suc n) (false ∷ oks) s =
    then-Same c c' (requeue c' index false).0 s (requeue-Same c' index false)

-- The camera after `startStreaming`: held as before, and it streams exactly if that is the result.
abbrev pub Starts : Option (Camera × Bool) → Type 0
Starts none = Unit
Starts (some (c, b)) = IsHeld c × (c.streaming ≡ b)

stream_queued-Starts :
    (c : Camera) (on : Bool) (o : Option (Camera × Bool))
    → IsHeld c
    → has_fd c ≡ true
    → c.streaming ≡ false
    → LeavesSame c o
    → Starts (stream_queued on o)
unfolding stream_queued
stream_queued-Starts c on none h f n s = tt
stream_queued-Starts c on (some (d, false)) h f n s = (Same-IsHeld c d s h, s.same_streaming ∙ n)
stream_queued-Starts c false (some (d, true)) h f n s = (Same-IsHeld c d s h, s.same_streaming ∙ n)
stream_queued-Starts c true (some (d, true)) h f n s =
    let k = Same-IsHeld c d s h in
    let device = ap (λ t. elim t.fd [ none ↦ false | some fd ↦ true ]) s.same_handle ∙ f in
    (
      record {
        owned = k.owned;
        held = ap (λ o. after o stream_on) k.held;
        idle = λ e. sym device ∙ e;
      },
      refl,
    )

pub start_streaming-Starts :
    (c : Camera) (oks : List Bool) (on : Bool)
    → IsHeld c
    → c.streaming ≡ false
    → Starts (start_streaming c oks on)
unfolding start_streaming
start_streaming-Starts c oks on h n = go (has_fd c) refl c.streaming n
  where
    queue : Option (Camera × Bool)
    queue = stream_queued on (queue_loop c 0 (length c.buffers) oks)

    go :
        (d : Bool)
        → has_fd c ≡ d
        → (s : Bool) → s ≡ false
        → Starts (if not d || s then some (c, s) else queue)
    go false u s m = (h, n ∙ sym m)
    go true u true m = (h, n ∙ sym m)
    go true u false m =
        stream_queued-Starts c on (queue_loop c 0 (length c.buffers) oks) h u n
          (queue_loop-Same c c 0 (length c.buffers) oks (itself c))

pub stop_streaming-IsHeld : (c : Camera) → IsHeld c → IsHeld (stop_streaming c)
stop_streaming-IsHeld c h =
    let s = stop_streaming-Stopped c h in
    record {
      owned = subst IsOwned (sym s.same_handle) h.owned;
      held = s.held ∙ ap (λ t. some (addresses t)) (sym s.same_buffers);
      idle = λ e. s.stopped;
    }
