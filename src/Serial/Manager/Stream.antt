-- ===== src/Serial/Manager/Stream.antt =====
-- The scan of `SerialManager::poll` on a stream that comes in pieces.
use long.Base.{
  ℕ, zero, suc, ◌+◌, ◌-◌, ◌%◌, ◌^◌, ◌≤◌, ◌<◌, ◌≡◌, refl, sym, ap, ap₂, ◌∙◌, append_assoc,
  append-nil, Bool, true, false, not, List, [], ◌∷◌, ◌++◌, Option, none, some, length,
  length-append, length-drop, drop, drop-append, take-append, get_or-append, ◌==◌, eq_of_some,
  arith,
}
use long.Base.Chunks.{◌>>=◌, IsIncremental}
use long.Serial.Protocol.{crc8}
use long.Serial.Manager.{Received, crc_differs, scan_loop, scan}
use long.Serial.Manager.Scan.{
  verdict, no_start, waits, damaged, complete, scan_loop-no_start, scan_loop-waits,
  scan_loop-damaged, scan_loop_complete, scan_loop_fuel, event, report, Leaves, serial_scan-Leaves,
}

crc_differs-append :
    (b0 b1 len cmd b4 : ℕ) (tl b : List ℕ) (need : ℕ)
    → 4 ≤ need
    → need ≤ length (b0 ∷ b1 ∷ len ∷ cmd ∷ b4 ∷ tl)
    → crc_differs (b0 ∷ b1 ∷ len ∷ cmd ∷ b4 ∷ (tl ++ b)) need
      ≡ crc_differs (b0 ∷ b1 ∷ len ∷ cmd ∷ b4 ∷ tl) need
unfolding crc_differs
crc_differs-append b0 b1 len cmd b4 tl b need h k =
    ap₂ (λ xs y. not (crc8 xs == y)) (take-append (need - 3) (len ∷ cmd ∷ b4 ∷ tl) b (omega arith))
      (get_or-append (b0 ∷ b1 ∷ len ∷ cmd ∷ b4 ∷ tl) b (need - 1) 0 (omega arith))

event-append :
    (len cmd b4 : ℕ) (tl b : List ℕ)
    → len ≤ length (b4 ∷ tl) + 1
    → event len cmd (b4 ∷ (tl ++ b)) ≡ event len cmd (b4 ∷ tl)
event-append len cmd b4 tl b h =
    ap (λ t. record { cmd = cmd; payload = t; len = (len + 2 ^ 64 - 1) % 2 ^ 64 })
      (take-append (len - 1) (b4 ∷ tl) b (omega arith))

-- Where the loop on `a` has stopped at once.
stopped :
    (g h : ℕ) (cb : Bool) (a b : List ℕ) (out : List Received) (rest : List ℕ)
    (out' : List Received)
    → length (a ++ b) < g
    → length (rest ++ b) < h
    → ◌≡◌ {A = Option (List ℕ × List Received)} (some (a, out)) (some (rest, out'))
    → scan_loop g cb (a ++ b) out ≡ scan_loop h cb (rest ++ b) out'
stopped g h cb a b out rest out' p q e =
    let same : ◌≡◌ {A = List ℕ × List Received} (a, out) (rest, out') = eq_of_some e in
    let fits : length (rest ++ b) < g =
      omega (arith, ap (λ (t : List ℕ × List Received). length (t.0 ++ b)) same) in
    ap (λ (t : List ℕ × List Received). scan_loop g cb (t.0 ++ b) t.1) same
    ∙ scan_loop_fuel g h cb (rest ++ b) out' fits q

-- The loop on `a ++ b` comes by the state in which the loop on `a` stops.
scan_loop-append :
    (f g h : ℕ) (cb : Bool) (a b : List ℕ) (out : List Received) (rest : List ℕ)
    (out' : List Received)
    → length (a ++ b) < g
    → length (rest ++ b) < h
    → scan_loop f cb a out ≡ some (rest, out')
    → scan_loop g cb (a ++ b) out ≡ scan_loop h cb (rest ++ b) out'
scan_loop-append zero g h cb a b out rest out' p q e = unfold scan_loop in cc
scan_loop-append (suc f) zero h cb a b out rest out' p q e = absurd (omega arith)
scan_loop-append (suc f) (suc g) h cb (b0 ∷ b1 ∷ len ∷ cmd ∷ b4 ∷ tl) b out rest out' p q e =
    let whole = b0 ∷ b1 ∷ len ∷ cmd ∷ b4 ∷ tl in
    let skip = b1 ∷ len ∷ cmd ∷ b4 ∷ tl in
    elim (verdict b0 b1 len whole) [
      | no_start v ↦
          scan_loop-no_start g cb b0 b1 len cmd b4 (tl ++ b) out v
          ∙ scan_loop-append f g h cb skip b out rest out' (omega arith) q
              (sym (scan_loop-no_start f cb b0 b1 len cmd b4 tl out v) ∙ e)
      | waits k l m ↦
          stopped (suc g) h cb whole b out rest out' p q
            (sym (scan_loop-waits f cb b0 b1 len cmd b4 tl out k l m) ∙ e)
      | damaged k l m d ↦
          scan_loop-damaged g cb b0 b1 len cmd b4 (tl ++ b) out k l
            (omega (arith, length-append tl b))
            (crc_differs-append b0 b1 len cmd b4 tl b (len + 4) (omega arith) m ∙ d)
          ∙ scan_loop-append f g h cb skip b out rest out' (omega arith) q
              (sym (scan_loop-damaged f cb b0 b1 len cmd b4 tl out k l m d) ∙ e)
      | complete k l m d ↦
          scan_loop_complete g cb b0 b1 len cmd b4 (tl ++ b) out k l
            (omega (arith, length-append tl b))
            (crc_differs-append b0 b1 len cmd b4 tl b (len + 4) (omega arith) m ∙ d)
          ∙ ap₂ (λ t v. scan_loop g cb t (report cb v out)) (drop-append (len + 4) whole b m)
              (event-append len cmd b4 tl b (omega arith))
          ∙ scan_loop-append f g h cb (drop (len + 4) whole) b
              (report cb (event len cmd (b4 ∷ tl)) out) rest out'
              (omega (
                arith,
                length-drop (len + 4) whole,
                length-append tl b,
                length-append (drop (len + 4) whole) b,
              ))
              q (sym (scan_loop_complete f cb b0 b1 len cmd b4 tl out k l m d) ∙ e)
    ]
scan_loop-append (suc f) (suc g) h cb [] b out rest out' p q e =
    stopped (suc g) h cb [] b out rest out' p q (unfold scan_loop in e)
scan_loop-append (suc f) (suc g) h cb a b out rest out' p q e =
    stopped (suc g) h cb a b out rest out' p q (unfold scan_loop in e)

-- Bytes that came in two reads are scanned as if they had come in one: what the first scan keeps
-- is put before the second read.
pub serial_scan-append :
    (cb : Bool) (a b : List ℕ) (out : List Received)
    → scan cb (a ++ b) out ≡ (scan cb a out >>= λ (rest, out'). scan cb (rest ++ b) out')
serial_scan-append cb a b out = go (scan cb a out) refl (serial_scan-Leaves cb a out)
  where
    go :
        (o : Option (List ℕ × List Received))
        → scan cb a out ≡ o
        → Leaves a o
        → scan cb (a ++ b) out ≡ (o >>= λ (rest, out'). scan cb (rest ++ b) out')
    go none e h = absurd h
    go (some (rest, out')) e h =
        unfold scan in
        scan_loop-append (suc (length a)) (suc (length (a ++ b))) (suc (length (rest ++ b))) cb a b
          out rest out' (omega arith) (omega arith) e

pub serial_scan-IsIncremental : (cb : Bool) → IsIncremental (scan cb)
serial_scan-IsIncremental cb = record {
  on_empty = λ out. unfold scan scan_loop in refl;
  on_append = serial_scan-append cb;
}

-- Reports found earlier stay in front.
abbrev pub behind :
    List Received → Option (List ℕ × List Received) → Option (List ℕ × List Received)
behind front none = none
behind front (some (rest, out)) = some (rest, front ++ out)

report-behind :
    (cb : Bool) (e : Received) (front out : List Received)
    → report cb e (front ++ out) ≡ front ++ report cb e out
report-behind true e front out = append_assoc front out (e ∷ [])
report-behind false e front out = refl

scan_loop-behind :
    (f : ℕ) (cb : Bool) (rest : List ℕ) (front out : List Received)
    → scan_loop f cb rest (front ++ out) ≡ behind front (scan_loop f cb rest out)
scan_loop-behind zero cb rest front out = unfold scan_loop in refl
scan_loop-behind (suc f) cb (b0 ∷ b1 ∷ len ∷ cmd ∷ b4 ∷ tl) front out =
    let whole = b0 ∷ b1 ∷ len ∷ cmd ∷ b4 ∷ tl in
    let skipped = scan_loop-behind f cb (b1 ∷ len ∷ cmd ∷ b4 ∷ tl) front out in
    elim (verdict b0 b1 len whole) [
      | no_start v ↦
          scan_loop-no_start f cb b0 b1 len cmd b4 tl (front ++ out) v
          ∙ skipped
          ∙ ap (behind front) (sym (scan_loop-no_start f cb b0 b1 len cmd b4 tl out v))
      | waits k l m ↦
          scan_loop-waits f cb b0 b1 len cmd b4 tl (front ++ out) k l m
          ∙ ap (behind front) (sym (scan_loop-waits f cb b0 b1 len cmd b4 tl out k l m))
      | damaged k l m d ↦
          scan_loop-damaged f cb b0 b1 len cmd b4 tl (front ++ out) k l m d
          ∙ skipped
          ∙ ap (behind front) (sym (scan_loop-damaged f cb b0 b1 len cmd b4 tl out k l m d))
      | complete k l m d ↦
          let e = event len cmd (b4 ∷ tl) in
          scan_loop_complete f cb b0 b1 len cmd b4 tl (front ++ out) k l m d
          ∙ ap (scan_loop f cb (drop (len + 4) whole)) (report-behind cb e front out)
          ∙ scan_loop-behind f cb (drop (len + 4) whole) front (report cb e out)
          ∙ ap (behind front) (sym (scan_loop_complete f cb b0 b1 len cmd b4 tl out k l m d))
    ]
scan_loop-behind (suc f) cb [] front out = unfold scan_loop in refl
scan_loop-behind (suc f) cb rest front out = unfold scan_loop in refl

pub serial_scan-behind :
    (cb : Bool) (buf : List ℕ) (front : List Received)
    → scan cb buf front ≡ behind front (scan cb buf [])
unfolding scan
serial_scan-behind cb buf front =
    ap (scan_loop (suc (length buf)) cb buf) (sym (append-nil front))
    ∙ scan_loop-behind (suc (length buf)) cb buf front []
