-- ===== src/App/Stream/Held.antt =====
-- The buffers of the camera in `serveClient`.
use long.Base.{
  ℕ, ◌≡◌, refl, ap, ◌∙◌, Bool, true, false, not, ◌||◌, List, [], ◌∷◌, Option, none, some,
  if◌then◌else◌, eq_of_some,
}
use long.Camera.{Camera, has_fd, requeue, GrabAnswers, take_frame, grab_from, grab_frame}
use long.Camera.Grabs.{out_since, IsOut, grab_frame-IsOut}
use long.App.Stream.{Shot}

pick : Bool → Camera × Option (ℕ × ℕ) → Camera × Option (ℕ × ℕ) → Camera × Option (ℕ × ℕ)
pick b x y = if b then x else y

-- A camera that streams, with the buffer out that it has grabbed last, or none.
pub record Streams (cam : Camera) : Type 0 where
  pub out : IsOut cam
  pub streaming : cam.streaming ≡ true
  pub device : has_fd cam ≡ true

-- What a call of `grabFrame` leaves as it is, and that the buffer of its frame is the last index.
record Grabs (c : Camera) (p : Camera × Option (ℕ × ℕ)) : Type 0 where
  same_handle : p.0.handle ≡ c.handle
  same_streaming : p.0.streaming ≡ c.streaming
  frame : (index size : ℕ) → p.1 ≡ some (index, size) → p.0.last_index ≡ some index

nothing-Grabs :
    (c c' : Camera) → c'.handle ≡ c.handle → c'.streaming ≡ c.streaming → Grabs c (c', none)
nothing-Grabs c c' h s = record {
  same_handle = h;
  same_streaming = s;
  frame = λ index size e. absurd cc;
}

take_frame-Grabs :
    (c c' : Camera) (ready : Bool) (f : Option (ℕ × ℕ))
    → c'.handle ≡ c.handle
    → c'.streaming ≡ c.streaming
    → Grabs c (take_frame c' ready f)
unfolding take_frame
take_frame-Grabs c c' false f h s = nothing-Grabs c c' h s
take_frame-Grabs c c' true none h s = nothing-Grabs c c' h s
take_frame-Grabs c c' true (some (i, n)) h s = record {
  same_handle = h;
  same_streaming = s;
  frame = λ index size e. ap (λ (p : ℕ × ℕ). some p.0) (eq_of_some e);
}

grab_from-Grabs : (c : Camera) (last : Option ℕ) (a : GrabAnswers) → Grabs c (grab_from c last a)
unfolding grab_from requeue pick
grab_from-Grabs c none a = take_frame-Grabs c c a.ready a.frame refl refl
grab_from-Grabs c (some index) a = go a.ok
  where
    go :
        (b : Bool)
        → Grabs c (
            pick b
              (take_frame (record (requeue c index b).0 { last_index = none }) a.ready a.frame)
              ((requeue c index b).0, none))
    go true =
        take_frame-Grabs c (record (requeue c index true).0 { last_index = none }) a.ready a.frame
          refl refl
    go false = nothing-Grabs c c refl refl

grab_frame-Grabs : (c : Camera) (a : GrabAnswers) → Grabs c (grab_frame c a)
unfolding grab_frame pick
grab_frame-Grabs c a = go (not (has_fd c) || not c.streaming)
  where
    go : (b : Bool) → Grabs c (pick b (c, none) (grab_from c c.last_index a))
    go true = nothing-Grabs c c refl refl
    go false = grab_from-Grabs c c.last_index a

-- In every round, the buffer whose frame is sent is out of the driver's queue.
abbrev pub HoldsFrames : Camera → List Shot → Type 0
HoldsFrames cam [] = Unit
HoldsFrames cam (s ∷ more) =
    let (grabbed, got) = grab_frame cam s.answers in
    ((index size : ℕ) → got ≡ some (index, size) → out_since grabbed.requests ≡ some (some index))
    × HoldsFrames grabbed more

pub grab_frame-Streams : (c : Camera) (a : GrabAnswers) → Streams c → Streams (grab_frame c a).0
grab_frame-Streams c a s =
    let g = grab_frame-Grabs c a in
    record {
      out = grab_frame-IsOut c a s.out;
      streaming = g.same_streaming ∙ s.streaming;
      device = ap (λ h. elim h.fd [ none ↦ false | some fd ↦ true ]) g.same_handle ∙ s.device;
    }

pub Streams-HoldsFrames : (cam : Camera) (shots : List Shot) → Streams cam → HoldsFrames cam shots
Streams-HoldsFrames cam [] s = tt
Streams-HoldsFrames cam (x ∷ more) s =
    let next = grab_frame-Streams cam x.answers s in
    (
      λ index size e. next.out ∙ ap some ((grab_frame-Grabs cam x.answers).frame index size e),
      Streams-HoldsFrames (grab_frame cam x.answers).0 more next,
    )
