-- ===== src/Camera/Grabs.antt =====
-- `CameraManager::grabFrame`: which buffers are with the driver while the camera streams.
use long.Base.{
  ℕ, ◌≡◌, refl, sym, ap, subst, ◌∙◌, Bool, true, false, not, ◌||◌, List, [], ◌∷◌, Option, none,
  some, if◌then◌else◌, ◌==◌, ==-refl, eq_of_some, length,
}
use long.Camera.{
  Request, mapped, unmapped, queued, dequeued, stream_on, stream_off, Camera, has_fd, requeue,
  GrabAnswers, take_frame, grab_from, grab_frame, start_streaming, stream_queued, queue_loop,
}

-- The buffer that the driver has given out since streaming began, after a request; `none` where a
-- second one is given out, or one is given back that is not out.
abbrev pub given_out : Option (Option ℕ) → Request → Option (Option ℕ)
given_out none r = none
given_out (some o) (mapped a) = some o
given_out (some o) (unmapped a) = some o
given_out (some o) stream_on = some none
given_out (some o) stream_off = some none
given_out (some none) (dequeued i) = some (some i)
given_out (some (some j)) (dequeued i) = none
given_out (some none) (queued i) = none
given_out (some (some j)) (queued i) = if j == i then some none else none

-- The requests since `stream_on`, the latest first.
abbrev pub out_since : List Request → Option (Option ℕ)
out_since [] = none
out_since (stream_on ∷ earlier) = some none
out_since (mapped a ∷ earlier) = out_since earlier
out_since (unmapped a ∷ earlier) = out_since earlier
out_since (stream_off ∷ earlier) = none
out_since (queued i ∷ earlier) = given_out (out_since earlier) (queued i)
out_since (dequeued i ∷ earlier) = given_out (out_since earlier) (dequeued i)

-- `lastIndex_` is the one buffer that is out.
abbrev pub IsOut : Camera → Type 0
IsOut c = out_since c.requests ≡ some c.last_index

abbrev pub grab_all : Camera → List GrabAnswers → Camera
grab_all c [] = c
grab_all c (a ∷ more) = grab_all (grab_frame c a).0 more

pick : Bool → Camera × Option (ℕ × ℕ) → Camera × Option (ℕ × ℕ) → Camera × Option (ℕ × ℕ)
pick b x y = if b then x else y

take_frame-IsOut :
    (c : Camera) (ready : Bool) (frame : Option (ℕ × ℕ))
    → c.last_index ≡ none
    → IsOut c
    → IsOut (take_frame c ready frame).0
unfolding take_frame
take_frame-IsOut c false frame n h = h
take_frame-IsOut c true none n h = h
take_frame-IsOut c true (some (index, size)) n h =
    ap (λ o. given_out o (dequeued index)) (h ∙ ap some n)

grab_from-IsOut :
    (c : Camera) (last : Option ℕ) (a : GrabAnswers)
    → c.last_index ≡ last
    → IsOut c
    → IsOut (grab_from c last a).0
unfolding grab_from requeue pick
grab_from-IsOut c none a n h = take_frame-IsOut c a.ready a.frame n h
grab_from-IsOut c (some index) a n h = go a.ok
  where
    go :
        (b : Bool)
        → IsOut
            (pick b
              (take_frame (record (requeue c index b).0 { last_index = none }) a.ready a.frame)
              ((requeue c index b).0, none)).0
    go true =
        take_frame-IsOut (record (requeue c index true).0 { last_index = none }) a.ready a.frame
          refl
          (ap (λ o. given_out o (queued index)) (h ∙ ap some n)
            ∙ ap (λ q. if q then some none else none) (==-refl index))
    go false = h

pub grab_frame-IsOut : (c : Camera) (a : GrabAnswers) → IsOut c → IsOut (grab_frame c a).0
unfolding grab_frame pick
grab_frame-IsOut c a h = go (not (has_fd c) || not c.streaming)
  where
    go : (b : Bool) → IsOut (pick b (c, none) (grab_from c c.last_index a)).0
    go true = h
    go false = grab_from-IsOut c c.last_index a refl h

grab_all-IsOut : (c : Camera) (answers : List GrabAnswers) → IsOut c → IsOut (grab_all c answers)
grab_all-IsOut c [] h = h
grab_all-IsOut c (a ∷ more) h = grab_all-IsOut (grab_frame c a).0 more (grab_frame-IsOut c a h)

true_false : {P : Type 0} → true ≡ false → P
true_false e = absurd cc

-- What a call of `startStreaming` that succeeds leaves.
pub stream_queued-IsOut :
    (on : Bool) (o : Option (Camera × Bool)) (c' : Camera)
    → stream_queued on o ≡ some (c', true)
    → IsOut c'
unfolding stream_queued
stream_queued-IsOut on none c' e = absurd (impossible e)
  where
    impossible : {P : Type 0} → ◌≡◌ {A = Option (Camera × Bool)} none (some (c', true)) → P
    impossible e = absurd cc
stream_queued-IsOut on (some (c, false)) c' e = absurd (impossible e)
  where
    impossible :
        {P : Type 0} → ◌≡◌ {A = Option (Camera × Bool)} (some (c, false)) (some (c', true)) → P
    impossible e = absurd cc
stream_queued-IsOut on (some (c, true)) c' e = go on e
  where
    started : Camera
    started = record c { streaming = true; last_index = none; requests = stream_on ∷ c.requests }

    go :
        (b : Bool)
        → ◌≡◌ {A = Option (Camera × Bool)}
            (if b then some (started, true) else some (c, false))
            (some (c', true))
        → IsOut c'
    go true f = subst (λ (t : Camera × Bool). IsOut t.0) (eq_of_some f) refl
    go false f = true_false (sym (ap (λ (t : Camera × Bool). t.1) (eq_of_some f)))

pub start_streaming-IsOut :
    (c : Camera) (oks : List Bool) (on : Bool) (c' : Camera)
    → c.streaming ≡ false
    → start_streaming c oks on ≡ some (c', true)
    → IsOut c'
unfolding start_streaming
start_streaming-IsOut c oks on c' n e = go (not (has_fd c)) c.streaming n e
  where
    go :
        (b s : Bool)
        → s ≡ false
        → (if b || s then some (c, s) else stream_queued on (queue_loop c 0 (length c.buffers) oks))
          ≡ some (c', true)
        → IsOut c'
    go true true m f = true_false m
    go true false m f = true_false (sym (ap (λ (t : Camera × Bool). t.1) (eq_of_some f)))
    go false true m f = true_false m
    go false false m f = stream_queued-IsOut on (queue_loop c 0 (length c.buffers) oks) c' f

-- Once `startStreaming` has returned true on a camera that did not stream, over any calls of
-- `grabFrame`, whatever fails in them: at most one buffer is out of the driver's
-- queue, the last one grabbed, and it is given back before the next is taken.
pub streaming-IsOut :
    (c : Camera) (oks : List Bool) (on : Bool) (c' : Camera) (answers : List GrabAnswers)
    → c.streaming ≡ false
    → start_streaming c oks on ≡ some (c', true)
    → IsOut (grab_all c' answers)
streaming-IsOut c oks on c' answers n e =
    grab_all-IsOut c' answers (start_streaming-IsOut c oks on c' n e)
