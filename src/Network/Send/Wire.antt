-- ===== src/Network/Send/Wire.antt =====
-- What `sendAll` and `sendFrame` leave on the wire.
use long.Base.{
  ℕ, zero, suc, ◌%◌, ◌^◌, ◌≤◌, ◌≡◌, refl, sym, ap, subst, ◌∙◌, true, false, List, [], ◌∷◌, ◌++◌,
  append_assoc, append-nil, Option, none, some, length, length-drop, take, drop, take-append-drop,
  eq_of_some, arith,
}
use long.Network.Socket.{SendAnswer, accepted, send_failed, eintr, eagain, other}
use long.Network.Frame.{build_header, build_frame}
use long.Network.Send.{Sending, send_all, send_payload, send_frame, client_send_all}

-- A call that was to put `bytes` behind `wire`: all of them if it returns true, and if it returns
-- false some of them, from the front on, and not all.
pub data Sent (wire bytes : List ℕ) (r : Sending) : Type 0 where
  whole : r.result ≡ true → r.wire ≡ wire ++ bytes → Sent wire bytes r
  cut :
      r.result ≡ false
      → (front : List ℕ) (b : ℕ) (back : List ℕ) → bytes ≡ front ++ (b ∷ back)
      → r.wire ≡ wire ++ front
      → Sent wire bytes r

Sent-take :
    (n : ℕ) (wire bytes : List ℕ) (r : Sending)
    → Sent (wire ++ take n bytes) (drop n bytes) r
    → Sent wire bytes r
Sent-take n wire bytes r (whole e p) = whole e (
    p
    ∙ append_assoc wire (take n bytes) (drop n bytes)
    ∙ ap (λ t. wire ++ t) (take-append-drop n bytes))
Sent-take n wire bytes r (cut e front b back p q) =
    cut e (take n bytes ++ front) b back
      (sym (take-append-drop n bytes)
        ∙ ap (λ t. take n bytes ++ t) p
        ∙ sym (append_assoc (take n bytes) front (b ∷ back)))
      (q ∙ append_assoc wire (take n bytes) front)

-- Whatever the kernel answers, `sendAll` puts the bytes on the wire in order, none twice and none
-- left out, and returns true exactly if all are there.
pub send_all-Sent :
    (answers : List SendAnswer) (bytes wire : List ℕ) {r : Sending}
    → send_all answers bytes wire ≡ some r
    → Sent wire bytes r
unfolding send_all
send_all-Sent answers [] wire e =
    subst (Sent wire []) (eq_of_some e) (whole refl (sym (append-nil wire)))
send_all-Sent [] (b ∷ bs) wire e = cc
send_all-Sent (accepted zero ∷ more) (b ∷ bs) wire e =
    subst (Sent wire (b ∷ bs)) (eq_of_some e) (cut refl [] b bs refl (sym (append-nil wire)))
send_all-Sent (accepted (suc n) ∷ more) (b ∷ bs) wire {r} e =
    Sent-take (suc n) wire (b ∷ bs) r
      (send_all-Sent more (drop n bs) (wire ++ take (suc n) (b ∷ bs)) e)
send_all-Sent (send_failed eintr ∷ more) (b ∷ bs) wire e = send_all-Sent more (b ∷ bs) wire e
send_all-Sent (send_failed eagain ∷ more) (b ∷ bs) wire e = send_all-Sent more (b ∷ bs) wire e
send_all-Sent (send_failed (other x) ∷ more) (b ∷ bs) wire e =
    subst (Sent wire (b ∷ bs)) (eq_of_some e) (cut refl [] b bs refl (sym (append-nil wire)))

Sent-append :
    (wire front bytes : List ℕ) (q r : Sending)
    → q.wire ≡ wire ++ front
    → Sent q.wire bytes r
    → Sent wire (front ++ bytes) r
Sent-append wire front bytes q r p (whole e w) =
    whole e (w ∙ ap (λ t. t ++ bytes) p ∙ append_assoc wire front bytes)
Sent-append wire front bytes q r p (cut e part b back v w) =
    cut e (front ++ part) b back (ap (λ t. front ++ t) v ∙ sym (append_assoc front part (b ∷ back)))
      (w ∙ ap (λ t. t ++ part) p ∙ append_assoc wire front part)

Sent-cut :
    (wire front bytes : List ℕ) (r : Sending)
    → r.result ≡ false
    → Sent wire front r
    → Sent wire (front ++ bytes) r
Sent-cut wire front bytes r e (whole t w) = cc
Sent-cut wire front bytes r e (cut t part b back v w) =
    cut e part b (back ++ bytes) (ap (λ t. t ++ bytes) v ∙ append_assoc part (b ∷ back) bytes) w

send_payload-Sent :
    (payload : List ℕ) (len : ℕ) (wire header : List ℕ) (q : Sending) {r : Sending}
    → Sent wire header q
    → send_payload payload len q ≡ some r
    → Sent wire (header ++ take len payload) r
unfolding send_payload
send_payload-Sent payload zero wire header q {r} (whole t w) e =
    let same : some q ≡ some r = ground arith in
    subst (Sent wire (header ++ [])) (eq_of_some same)
      (whole t (w ∙ ap (λ l. wire ++ l) (sym (append-nil header))))
send_payload-Sent payload (suc n) wire header q {r} (whole t w) e =
    let rest : send_all q.answers (take (suc n) payload) q.wire ≡ some r = ground arith in
    Sent-append wire header (take (suc n) payload) q r w (send_all-Sent _ _ _ rest)
send_payload-Sent payload len wire header q {r} (cut t part b back v w) e =
    let same : some q ≡ some r = ground arith in
    subst (Sent wire (header ++ take len payload)) (eq_of_some same)
      (Sent-cut wire header (take len payload) q t (cut t part b back v w))

build_frame-header :
    (type : ℕ) (payload : List ℕ) (len : ℕ)
    → build_frame type (some payload) len ≡ build_header type (len % 2 ^ 32) ++ take len payload
unfolding build_frame
build_frame-header type payload zero = sym (append-nil _)
build_frame-header type payload (suc len) = ground arith

-- `sendFrame` writes the bytes that `buildFrame` builds: all of them if it returns true, a proper
-- part of them, from the front on, if it returns false.
pub send_frame-Sent :
    (answers : List SendAnswer) (type : ℕ) (payload : List ℕ) (len : ℕ) (wire : List ℕ)
    {r : Sending}
    → send_frame answers type payload len wire ≡ some r
    → Sent wire (build_frame type (some payload) len) r
send_frame-Sent answers type payload len wire {r} e =
    rw (build_frame-header type payload len)
      (go (send_all answers (build_header type (len % 2 ^ 32)) wire) refl)
  where
    go :
        (o : Option Sending)
        → send_all answers (build_header type (len % 2 ^ 32)) wire ≡ o
        → Sent wire (build_header type (len % 2 ^ 32) ++ take len payload) r
    go none p = absurd (nothing (unfold send_frame in rw (p, send_frame) at e))
      where
        nothing : none ≡ some r → ⊥
        nothing t = cc
    go (some q) p =
        send_payload-Sent payload len wire (build_header type (len % 2 ^ 32)) q
          (send_all-Sent answers (build_header type (len % 2 ^ 32)) wire p)
          (unfold send_frame in rw (p, send_frame) at e)

-- The answers that a loop of `send` does not just repeat the call at.
abbrev pub decisive : List SendAnswer → ℕ
decisive [] = 0
decisive (accepted n ∷ more) = suc (decisive more)
decisive (send_failed (other e) ∷ more) = suc (decisive more)
decisive (send_failed eintr ∷ more) = decisive more
decisive (send_failed eagain ∷ more) = decisive more

-- `sendAll` ends: as many answers as there are bytes are enough, however many calls are
-- interrupted or would block between them.
pub send_all_ends :
    (answers : List SendAnswer) (bytes wire : List ℕ)
    → length bytes ≤ decisive answers
    → (r : Sending) × (send_all answers bytes wire ≡ some r)
unfolding send_all
send_all_ends answers [] wire h = (_, refl)
send_all_ends [] (b ∷ bs) wire h = absurd (omega arith)
send_all_ends (accepted zero ∷ more) (b ∷ bs) wire h = (_, refl)
send_all_ends (accepted (suc n) ∷ more) (b ∷ bs) wire h =
    send_all_ends more (drop n bs) (wire ++ take (suc n) (b ∷ bs)) (omega (arith, length-drop n bs))
send_all_ends (send_failed eintr ∷ more) (b ∷ bs) wire h = send_all_ends more (b ∷ bs) wire h
send_all_ends (send_failed eagain ∷ more) (b ∷ bs) wire h = send_all_ends more (b ∷ bs) wire h
send_all_ends (send_failed (other x) ∷ more) (b ∷ bs) wire h = (_, refl)

abbrev pub IsBlocking : List SendAnswer → Type 0
IsBlocking [] = Unit {0}
IsBlocking (accepted n ∷ more) = IsBlocking more
IsBlocking (send_failed eintr ∷ more) = IsBlocking more
IsBlocking (send_failed eagain ∷ more) = ⊥
IsBlocking (send_failed (other e) ∷ more) = IsBlocking more

-- On a blocking socket, which never answers EAGAIN, the client's `sendAll` does what the server's
-- does.
pub client_send_all-eq-send_all :
    (answers : List SendAnswer) (bytes wire : List ℕ)
    → IsBlocking answers
    → client_send_all answers bytes wire ≡ send_all answers bytes wire
unfolding send_all client_send_all
client_send_all-eq-send_all answers [] wire h = refl
client_send_all-eq-send_all [] (b ∷ bs) wire h = refl
client_send_all-eq-send_all (accepted zero ∷ more) (b ∷ bs) wire h = refl
client_send_all-eq-send_all (accepted (suc n) ∷ more) (b ∷ bs) wire h =
    client_send_all-eq-send_all more (drop n bs) (wire ++ take (suc n) (b ∷ bs)) h
client_send_all-eq-send_all (send_failed eintr ∷ more) (b ∷ bs) wire h =
    client_send_all-eq-send_all more (b ∷ bs) wire h
client_send_all-eq-send_all (send_failed eagain ∷ more) (b ∷ bs) wire h = absurd h
client_send_all-eq-send_all (send_failed (other x) ∷ more) (b ∷ bs) wire h = refl
