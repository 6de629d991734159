-- ===== src/Serial/Manager/Scan.antt =====
-- The scan of the receive buffer, round by round.
use long.Base.{
  ℕ, zero, suc, ◌+◌, ◌-◌, ◌%◌, ◌^◌, ◌≤◌, ◌<◌, ◌≡◌, ◌≢◌, ◌⊎◌, inl, inr, refl, sym, ap, subst, ◌∙◌,
  Bool, Bool-cases, true, false, append_assoc, List, [], ◌∷◌, ◌++◌, Option, none, some, length,
  length-drop, take, drop, take-append-drop, if◌then◌else◌, arith,
}
use native.Mathlib.Decide.{dec_lt, ℕ_discrete}
use long.Serial.Protocol.{sof1, sof2}
use long.Serial.Manager.{Received, crc_differs, scan_loop, scan}

-- What the bytes `rest`, of which `b0`, `b1` and `len` are the first three, come to.
pub data Verdict (b0 b1 len : ℕ) (rest : List ℕ) : Type 0 where
  no_start : (b0 ≢ sof1) ⊎ (b1 ≢ sof2) → Verdict b0 b1 len rest
  waits : b0 ≡ sof1 → b1 ≡ sof2 → length rest < len + 4 → Verdict b0 b1 len rest
  damaged :
      b0 ≡ sof1
      → b1 ≡ sof2
      → len + 4 ≤ length rest
      → crc_differs rest (len + 4) ≡ true
      → Verdict b0 b1 len rest
  complete :
      b0 ≡ sof1
      → b1 ≡ sof2
      → len + 4 ≤ length rest
      → crc_differs rest (len + 4) ≡ false
      → Verdict b0 b1 len rest

pub verdict : (b0 b1 len : ℕ) (rest : List ℕ) → Verdict b0 b1 len rest
verdict b0 b1 len rest = elim (ℕ_discrete b0 sof1) [
  | no h ↦ no_start (inl h)
  | yes h ↦ elim (ℕ_discrete b1 sof2) [
    | no k ↦ no_start (inr k)
    | yes k ↦ elim (dec_lt (length rest) (len + 4)) [
      | yes l ↦ waits h k l
      | no l ↦ elim (Bool-cases (crc_differs rest (len + 4))) [
        | inl m ↦ damaged h k (omega arith) m
        | inr m ↦ complete h k (omega arith) m
      ]
    ]
  ]
]

-- The call of the callback for a frame at the front.
abbrev pub event : ℕ → ℕ → List ℕ → Received
event len cmd bytes = record {
  cmd = cmd;
  payload = take (len - 1) bytes;
  len = (len + 2 ^ 64 - 1) % 2 ^ 64;
}

abbrev pub report : Bool → Received → List Received → List Received
report has_cb e out = if has_cb then out ++ (e ∷ []) else out

module _ (f : ℕ) (has_cb : Bool) (b0 b1 len cmd b4 : ℕ) (tl : List ℕ) (out : List Received) where
  abbrev whole : List ℕ
  whole = b0 ∷ b1 ∷ len ∷ cmd ∷ b4 ∷ tl

  pub scan_loop-no_start :
      (b0 ≢ sof1) ⊎ (b1 ≢ sof2)
      → scan_loop (suc f) has_cb whole out ≡ scan_loop f has_cb (b1 ∷ len ∷ cmd ∷ b4 ∷ tl) out
  unfolding scan_loop
  scan_loop-no_start h = ground arith

  pub scan_loop-waits :
      b0 ≡ sof1
      → b1 ≡ sof2
      → length whole < len + 4
      → scan_loop (suc f) has_cb whole out ≡ some (whole, out)
  unfolding scan_loop
  scan_loop-waits h k l = ground arith

  pub scan_loop-damaged :
      b0 ≡ sof1
      → b1 ≡ sof2
      → len + 4 ≤ length whole
      → crc_differs whole (len + 4) ≡ true
      → scan_loop (suc f) has_cb whole out ≡ scan_loop f has_cb (b1 ∷ len ∷ cmd ∷ b4 ∷ tl) out
  unfolding scan_loop
  scan_loop-damaged h k l m = ground arith

  pub scan_loop_complete :
      b0 ≡ sof1
      → b1 ≡ sof2
      → len + 4 ≤ length whole
      → crc_differs whole (len + 4) ≡ false
      → scan_loop (suc f) has_cb whole out
        ≡ scan_loop f has_cb (drop (len + 4) whole) (report has_cb (event len cmd (b4 ∷ tl)) out)
  unfolding scan_loop
  scan_loop_complete h k l m = ground arith

pub scan_loop_fuel :
    (f g : ℕ) (has_cb : Bool) (rest : List ℕ) (out : List Received)
    → length rest < f
    → length rest < g
    → scan_loop f has_cb rest out ≡ scan_loop g has_cb rest out
scan_loop_fuel zero g has_cb rest out h k = absurd (omega arith)
scan_loop_fuel (suc f) zero has_cb rest out h k = absurd (omega arith)
scan_loop_fuel (suc f) (suc g) cb (b0 ∷ b1 ∷ len ∷ cmd ∷ b4 ∷ tl) out h k =
    let rest = b0 ∷ b1 ∷ len ∷ cmd ∷ b4 ∷ tl in
    let skip = b1 ∷ len ∷ cmd ∷ b4 ∷ tl in
    let skipped = scan_loop_fuel f g cb skip out (omega arith) (omega arith) in
    elim (verdict b0 b1 len rest) [
      | no_start v ↦
          scan_loop-no_start f cb b0 b1 len cmd b4 tl out v
          ∙ skipped
          ∙ sym (scan_loop-no_start g cb b0 b1 len cmd b4 tl out v)
      | waits p q r ↦
          scan_loop-waits f cb b0 b1 len cmd b4 tl out p q r
          ∙ sym (scan_loop-waits g cb b0 b1 len cmd b4 tl out p q r)
      | damaged p q r d ↦
          scan_loop-damaged f cb b0 b1 len cmd b4 tl out p q r d
          ∙ skipped
          ∙ sym (scan_loop-damaged g cb b0 b1 len cmd b4 tl out p q r d)
      | complete p q r d ↦
          scan_loop_complete f cb b0 b1 len cmd b4 tl out p q r d
          ∙ scan_loop_fuel f g cb (drop (len + 4) rest) (report cb (event len cmd (b4 ∷ tl)) out)
              (omega (arith, length-drop (len + 4) rest))
              (omega (arith, length-drop (len + 4) rest))
          ∙ sym (scan_loop_complete g cb b0 b1 len cmd b4 tl out p q r d)
    ]
scan_loop_fuel (suc f) (suc g) has_cb [] out h k = unfold scan_loop in refl
scan_loop_fuel (suc f) (suc g) has_cb rest out h k = unfold scan_loop in refl

-- The same rounds of a scan with its own fuel.
module _ (has_cb : Bool) (b0 b1 len cmd b4 : ℕ) (tl : List ℕ) (out : List Received) where
  abbrev all : List ℕ
  all = b0 ∷ b1 ∷ len ∷ cmd ∷ b4 ∷ tl

  pub scan-damaged :
      b0 ≡ sof1
      → b1 ≡ sof2
      → len + 4 ≤ length all
      → crc_differs all (len + 4) ≡ true
      → scan has_cb all out ≡ scan has_cb (b1 ∷ len ∷ cmd ∷ b4 ∷ tl) out
  unfolding scan
  scan-damaged p q r d = scan_loop-damaged (length all) has_cb b0 b1 len cmd b4 tl out p q r d

  pub scan_complete :
      b0 ≡ sof1
      → b1 ≡ sof2
      → len + 4 ≤ length all
      → crc_differs all (len + 4) ≡ false
      → scan has_cb all out
        ≡ scan has_cb (drop (len + 4) all) (report has_cb (event len cmd (b4 ∷ tl)) out)
  unfolding scan
  scan_complete p q r d =
      let left = drop (len + 4) all in
      scan_loop_complete (length all) has_cb b0 b1 len cmd b4 tl out p q r d
      ∙ scan_loop_fuel (length all) (suc (length left)) has_cb left
          (report has_cb (event len cmd (b4 ∷ tl)) out) (omega (arith, length-drop (len + 4) all))
          (omega arith)

-- The bytes that the loop leaves: fewer than five, or the start of a frame that is not all there.
abbrev pub IsPartial : List ℕ → Type 0
IsPartial (b0 ∷ b1 ∷ len ∷ cmd ∷ b4 ∷ tl) =
    (b0 ≡ sof1) × (b1 ≡ sof2) × (length (b0 ∷ b1 ∷ len ∷ cmd ∷ b4 ∷ tl) < len + 4)
IsPartial rest = Unit {0}

-- What the loop returns: a part that waits, which is a suffix of what it was given.
abbrev pub Leaves : List ℕ → Option (List ℕ × List Received) → Type 0
Leaves buf none = ⊥
Leaves buf (some (rest, out)) = IsPartial rest × ((front : List ℕ) × (buf ≡ front ++ rest))

Leaves-append :
    (front buf : List ℕ) (r : Option (List ℕ × List Received))
    → Leaves buf r
    → Leaves (front ++ buf) r
Leaves-append front buf none h = h
Leaves-append front buf (some (rest, out)) (p, (before, e)) =
    (p, (front ++ before, ap (λ t. front ++ t) e ∙ sym (append_assoc front before rest)))

Leaves-drop :
    (n : ℕ) (buf : List ℕ) (r : Option (List ℕ × List Received))
    → Leaves (drop n buf) r
    → Leaves buf r
Leaves-drop n buf r h =
    subst (λ t. Leaves t r) (take-append-drop n buf) (Leaves-append (take n buf) (drop n buf) r h)

scan_loop-Leaves :
    (f : ℕ) (cb : Bool) (buf : List ℕ) (out : List Received)
    → length buf < f
    → Leaves buf (scan_loop f cb buf out)
scan_loop-Leaves zero cb buf out h = absurd (omega arith)
scan_loop-Leaves (suc f) cb (b0 ∷ b1 ∷ len ∷ cmd ∷ b4 ∷ tl) out h =
    let rest = b0 ∷ b1 ∷ len ∷ cmd ∷ b4 ∷ tl in
    let skip = b1 ∷ len ∷ cmd ∷ b4 ∷ tl in
    let skipped = Leaves-append (b0 ∷ []) skip _ (scan_loop-Leaves f cb skip out (omega arith)) in
    elim (verdict b0 b1 len rest) [
      | no_start v ↦ rw (scan_loop-no_start f cb b0 b1 len cmd b4 tl out v) skipped
      | waits p q r ↦
          rw (scan_loop-waits f cb b0 b1 len cmd b4 tl out p q r) ((p, q, r), ([], refl))
      | damaged p q r d ↦ rw (scan_loop-damaged f cb b0 b1 len cmd b4 tl out p q r d) skipped
      | complete p q r d ↦ rw (scan_loop_complete f cb b0 b1 len cmd b4 tl out p q r d) (
          Leaves-drop (len + 4) rest _ (
            scan_loop-Leaves f cb (drop (len + 4) rest) (report cb (event len cmd (b4 ∷ tl)) out)
              (omega (arith, length-drop (len + 4) rest))))
    ]
scan_loop-Leaves (suc f) cb [] out h = unfold scan_loop in (tt, ([], refl))
scan_loop-Leaves (suc f) cb _ out h = unfold scan_loop in (tt, ([], refl))

-- The scan ends on every buffer, whatever its bytes. What it keeps is a suffix of the buffer:
-- fewer than five bytes, or the start of a frame that is longer than what is there.
pub serial_scan-Leaves :
    (cb : Bool) (buf : List ℕ) (out : List Received) → Leaves buf (scan cb buf out)
unfolding scan
serial_scan-Leaves cb buf out = scan_loop-Leaves (suc (length buf)) cb buf out (omega arith)
