-- ===== src/App/Serve/Steps.antt =====
-- The grab of `serveClient`, where the loop goes on after it.
use long.Base.{
  ℕ, ◌+◌, ◌%◌, ◌^◌, ◌<◌, ◌≡◌, refl, sym, subst, ◌∙◌, Bool, true, false, List, [], ◌∷◌, ◌++◌,
  append-nil, Option, none, some, length, if◌then◌else◌, leb, arith,
}
use long.Network.Frame.{build_frame, frame_code, frame_video}
use long.Network.Send.{Sending, send_frame}
use long.Network.Send.Wire.{Sent, whole, cut, send_frame-Sent}
use long.App.Serve.{
  Client, Stop, Outcome, goes_on, stops, camera_lost, video_failed, grab_step, video_sent,
}

pub goes_on-inj :
    {a b : Client} → ◌≡◌ {A = Option Outcome} (some (goes_on a)) (some (goes_on b)) → a ≡ b
goes_on-inj e = cc

pub stops-goes_on :
    {P : Type 0} {a b : Client} {s : Stop}
    → ◌≡◌ {A = Option Outcome} (some (stops s a)) (some (goes_on b))
    → P
stops-goes_on e = absurd cc

pub none-goes_on : {P : Type 0} {b : Client} → ◌≡◌ {A = Option Outcome} none (some (goes_on b)) → P
none-goes_on e = absurd cc

-- The bytes of the frame grabbed.
abbrev pub video_bytes : Option (List ℕ) → List ℕ
video_bytes none = []
video_bytes (some []) = []
video_bytes (some (b ∷ bs)) = build_frame (frame_code frame_video) (some (b ∷ bs)) (length (b ∷ bs))

abbrev pub fails_after : ℕ → Option (List ℕ) → ℕ
fails_after n none = n + 1
fails_after n (some bytes) = 0

pub record Grabbed (c : Client) (g : Option (List ℕ)) (c' : Client) : Type 0 where
  pub wire : c'.wire ≡ c.wire ++ video_bytes g
  pub fails : c'.grab_fail_cnt ≡ fails_after c.grab_fail_cnt g
  pub below : c'.grab_fail_cnt < 5
  pub same_sensor : c'.last_sensor_ms ≡ c.last_sensor_ms
  pub same_buf : c'.rx_buf ≡ c.rx_buf
  pub same_logged : c'.logged ≡ c.logged

-- A frame that was sent whole stands behind what was on the wire.
pub Sent-whole :
    (wire bytes : List ℕ) (r : Sending)
    → Sent wire bytes r
    → r.result ≡ true
    → r.wire ≡ wire ++ bytes
Sent-whole wire bytes r (whole e w) h = w
Sent-whole wire bytes r (cut e front b back p w) h = absurd (apart (sym e ∙ h))
  where
    apart : {P : Type 0} → false ≡ true → P
    apart e = absurd cc

pub grab_step-Grabbed :
    (c : Client) (g : Option (List ℕ)) (c' : Client)
    → c.grab_fail_cnt < 5
    → grab_step c g ≡ some (goes_on c')
    → Grabbed c g c'
unfolding grab_step video_sent
grab_step-Grabbed c none c' h e = go (leb 5 n) refl e
  where
    n : ℕ
    n = (c.grab_fail_cnt + 1) % 2 ^ 32

    go :
        (b : Bool)
        → leb 5 n ≡ b
        → (if b
            then some (stops camera_lost (record c { grab_fail_cnt = n }))
            else some (goes_on (record c { grab_fail_cnt = n })))
          ≡ some (goes_on c')
        → Grabbed c none c'
    go true t f = stops-goes_on f
    go false t f = subst (Grabbed c none) (goes_on-inj f) (record {
      wire = sym (append-nil c.wire);
      fails = omega arith;
      below = ground arith;
      same_sensor = refl;
      same_buf = refl;
      same_logged = refl;
    })
grab_step-Grabbed c (some []) c' h e = subst (Grabbed c (some [])) (goes_on-inj e) (record {
  wire = sym (append-nil c.wire);
  fails = refl;
  below = omega arith;
  same_sensor = refl;
  same_buf = refl;
  same_logged = refl;
})
grab_step-Grabbed c (some (b ∷ bs)) c' h e =
    go (send_frame c.answers (frame_code frame_video) (b ∷ bs) (length (b ∷ bs)) c.wire) refl e
  where
    c0 : Client
    c0 = record c { grab_fail_cnt = 0 }

    sent :
        (r : Sending)
        → Sent c.wire (video_bytes (some (b ∷ bs))) r
        → (q : Bool) → r.result ≡ q
        → (if q
            then some (
                goes_on (record c0 {
                  wire = r.wire;
                  answers = r.answers;
                  frame_count = (c.frame_count + 1) % 2 ^ 32;
                }))
            else some (stops video_failed (record c0 { wire = r.wire; answers = r.answers })))
          ≡ some (goes_on c')
        → Grabbed c (some (b ∷ bs)) c'
    sent r k false t f = stops-goes_on f
    sent r k true t f = subst (Grabbed c (some (b ∷ bs))) (goes_on-inj f) (record {
      wire = Sent-whole c.wire (video_bytes (some (b ∷ bs))) r k t;
      fails = refl;
      below = omega arith;
      same_sensor = refl;
      same_buf = refl;
      same_logged = refl;
    })

    go :
        (o : Option Sending)
        → send_frame c.answers (frame_code frame_video) (b ∷ bs) (length (b ∷ bs)) c.wire ≡ o
        → video_sent c0 o ≡ some (goes_on c')
        → Grabbed c (some (b ∷ bs)) c'
    go none t f = none-goes_on f
    go (some r) t f =
        sent r
          (send_frame-Sent c.answers (frame_code frame_video) (b ∷ bs) (length (b ∷ bs)) c.wire t)
          r.result refl f
