-- ===== src/Network/Server/Scan.antt =====
-- The scan of `pollCommands`, round by round.
use long.Base.{
  ℕ, zero, suc, ◌+◌, ◌≤◌, ◌<◌, ◌≡◌, ◌≢◌, ◌⊎◌, inl, inr, refl, sym, ap, ◌∙◌, append_assoc, List, [],
  ◌∷◌, ◌++◌, Option, none, some, length, length-drop, drop, take, take-append-drop, arith,
}
use native.Mathlib.Decide.{dec_lt, ℕ_discrete}
use long.Network.Frame.{Command, ll_sof, ll_max_payload, ll_header_size}
use long.Network.Frame.Header.{read_le32}
use long.Network.Server.{scan_loop, push_command, scan}

pub scan_loop_fuel :
    (f g : ℕ) (rest : List ℕ) (out : List Command)
    → length rest < f
    → length rest < g
    → scan_loop f rest out ≡ scan_loop g rest out
unfolding scan_loop
scan_loop_fuel zero g rest out h k = absurd (omega arith)
scan_loop_fuel (suc f) zero rest out h k = absurd (omega arith)
scan_loop_fuel (suc f) (suc g) (b0 ∷ b1 ∷ b2 ∷ b3 ∷ b4 ∷ b5 ∷ tl) out h k =
    let len = read_le32 b2 b3 b4 b5 in
    ground (
      arith,
      length-drop len tl,
      scan_loop_fuel f g (b1 ∷ b2 ∷ b3 ∷ b4 ∷ b5 ∷ tl) out,
      scan_loop_fuel f g (drop len tl) (push_command b1 len tl out),
    )
scan_loop_fuel (suc f) (suc g) [] out h k = refl
scan_loop_fuel (suc f) (suc g) rest out h k = refl

-- What a header that begins with `b0` and says `len` comes to, before `n` bytes of payload.
pub data Verdict (b0 len n : ℕ) : Type 0 where
  resync : (b0 ≢ ll_sof) ⊎ (ll_max_payload < len) → Verdict b0 len n
  waits : b0 ≡ ll_sof → len ≤ ll_max_payload → n < len → Verdict b0 len n
  complete : b0 ≡ ll_sof → len ≤ ll_max_payload → len ≤ n → Verdict b0 len n

pub verdict : (b0 len n : ℕ) → Verdict b0 len n
verdict b0 len n = elim (ℕ_discrete b0 ll_sof) [
  | no h ↦ resync (inl h)
  | yes h ↦ elim (dec_lt ll_max_payload len) [
    | yes k ↦ resync (inr k)
    | no k ↦ elim (dec_lt n len) [
      | yes l ↦ waits h (omega arith) l
      | no l ↦ complete h (omega arith) (omega arith)
    ]
  ]
]

-- One round of the loop on six bytes or more, by what the header says.
module _ (f b0 b1 b2 b3 b4 b5 : ℕ) (tl : List ℕ) (out : List Command) where
  abbrev len : ℕ
  len = read_le32 b2 b3 b4 b5

  abbrev whole : List ℕ
  whole = b0 ∷ b1 ∷ b2 ∷ b3 ∷ b4 ∷ b5 ∷ tl

  pub scan_loop-resync :
      (b0 ≢ ll_sof) ⊎ (ll_max_payload < len)
      → scan_loop (suc f) whole out ≡ scan_loop f (b1 ∷ b2 ∷ b3 ∷ b4 ∷ b5 ∷ tl) out
  unfolding scan_loop
  scan_loop-resync h = ground arith

  pub scan_loop-wait :
      b0 ≡ ll_sof
      → len ≤ ll_max_payload
      → length tl < len
      → scan_loop (suc f) whole out ≡ some (whole, out)
  unfolding scan_loop
  scan_loop-wait h k l = ground arith

  pub scan_loop-frame :
      b0 ≡ ll_sof
      → len ≤ ll_max_payload
      → len ≤ length tl
      → scan_loop (suc f) whole out ≡ scan_loop f (drop len tl) (push_command b1 len tl out)
  unfolding scan_loop
  scan_loop-frame h k l = ground arith

-- The same rounds of a scan with its own fuel.
module _ (b0 b1 b2 b3 b4 b5 : ℕ) (tl : List ℕ) (out : List Command) where
  pub scan-resync :
      (b0 ≢ ll_sof) ⊎ (ll_max_payload < read_le32 b2 b3 b4 b5)
      → scan (b0 ∷ b1 ∷ b2 ∷ b3 ∷ b4 ∷ b5 ∷ tl) out ≡ scan (b1 ∷ b2 ∷ b3 ∷ b4 ∷ b5 ∷ tl) out
  unfolding scan
  scan-resync h =
      scan_loop-resync (length (b0 ∷ b1 ∷ b2 ∷ b3 ∷ b4 ∷ b5 ∷ tl)) b0 b1 b2 b3 b4 b5 tl out h

  pub scan-frame :
      b0 ≡ ll_sof
      → read_le32 b2 b3 b4 b5 ≤ ll_max_payload
      → read_le32 b2 b3 b4 b5 ≤ length tl
      → scan (b0 ∷ b1 ∷ b2 ∷ b3 ∷ b4 ∷ b5 ∷ tl) out
        ≡ scan (drop (read_le32 b2 b3 b4 b5) tl) (push_command b1 (read_le32 b2 b3 b4 b5) tl out)
  unfolding scan
  scan-frame h k l =
      let len = read_le32 b2 b3 b4 b5 in
      let fuel = length (b0 ∷ b1 ∷ b2 ∷ b3 ∷ b4 ∷ b5 ∷ tl) in
      scan_loop-frame fuel b0 b1 b2 b3 b4 b5 tl out h k l
      ∙ scan_loop_fuel fuel (suc (length (drop len tl))) (drop len tl) (push_command b1 len tl out)
          (omega (arith, length-drop len tl)) (omega arith)

-- The bytes that the loop leaves: too few for a header, or a header with a payload to come.
abbrev pub IsPartial : List ℕ → Type 0
IsPartial (b0 ∷ b1 ∷ b2 ∷ b3 ∷ b4 ∷ b5 ∷ tl) =
    (b0 ≡ ll_sof) × (read_le32 b2 b3 b4 b5 ≤ ll_max_payload) × (length tl < read_le32 b2 b3 b4 b5)
IsPartial rest = Unit {0}

-- What the loop returns: a part that waits, which is a suffix of what it was given.
abbrev pub Leaves : List ℕ → Option (List ℕ × List Command) → Type 0
Leaves buf none = ⊥
Leaves buf (some (rest, out)) = IsPartial rest × ((front : List ℕ) × (buf ≡ front ++ rest))

Leaves-append :
    (front buf : List ℕ) (r : Option (List ℕ × List Command))
    → Leaves buf r
    → Leaves (front ++ buf) r
Leaves-append front buf none h = h
Leaves-append front buf (some (rest, out)) (p, (before, e)) =
    (p, (front ++ before, ap (λ t. front ++ t) e ∙ sym (append_assoc front before rest)))

Leaves-drop :
    (n : ℕ) (front buf : List ℕ) (r : Option (List ℕ × List Command))
    → Leaves (drop n buf) r
    → Leaves (front ++ buf) r
Leaves-drop n front buf r h =
    Leaves-append front buf r (rw take-append-drop at (Leaves-append (take n buf) (drop n buf) r h))

scan_loop-Leaves :
    (f : ℕ) (buf : List ℕ) (out : List Command) → length buf < f → Leaves buf (scan_loop f buf out)
scan_loop-Leaves zero buf out h = absurd (omega arith)
scan_loop-Leaves (suc f) (b0 ∷ b1 ∷ b2 ∷ b3 ∷ b4 ∷ b5 ∷ tl) out h =
    let len = read_le32 b2 b3 b4 b5 in
    elim (verdict b0 len (length tl)) [
      | resync v ↦ rw (scan_loop-resync f b0 b1 b2 b3 b4 b5 tl out v) (
          Leaves-append (b0 ∷ []) _ _
            (scan_loop-Leaves f (b1 ∷ b2 ∷ b3 ∷ b4 ∷ b5 ∷ tl) out (omega arith)))
      | waits p q r ↦ rw (scan_loop-wait f b0 b1 b2 b3 b4 b5 tl out p q r) ((p, q, r), ([], refl))
      | complete p q r ↦ rw (scan_loop-frame f b0 b1 b2 b3 b4 b5 tl out p q r) (
          Leaves-drop len (b0 ∷ b1 ∷ b2 ∷ b3 ∷ b4 ∷ b5 ∷ []) tl _ (
            scan_loop-Leaves f (drop len tl) (push_command b1 len tl out)
              (omega (arith, length-drop len tl))))
    ]
scan_loop-Leaves (suc f) [] out h = unfold scan_loop in (tt, ([], refl))
scan_loop-Leaves (suc f) _ out h = unfold scan_loop in (tt, ([], refl))

-- The scan ends on every buffer, whatever its bytes. What it keeps is a suffix of the buffer: less
-- than a header, or one frame of an allowed length whose payload is not all there.
pub scan-Leaves : (buf : List ℕ) (out : List Command) → Leaves buf (scan buf out)
unfolding scan
scan-Leaves buf out = scan_loop-Leaves (suc (length buf)) buf out (omega arith)

IsPartial-length : (rest : List ℕ) → IsPartial rest → length rest < ll_header_size + ll_max_payload
IsPartial-length (b0 ∷ b1 ∷ b2 ∷ b3 ∷ b4 ∷ b5 ∷ tl) h = omega arith
IsPartial-length [] h = omega arith
IsPartial-length (b0 ∷ []) h = omega arith
IsPartial-length _ h = omega arith

-- The scan of any buffer comes to an end, and keeps less than one frame of the largest size allowed.
pub scan-length :
    (buf : List ℕ) (out : List Command)
    → (r : List ℕ × List Command) × (scan buf out ≡ some r)
      × (length r.0 < ll_header_size + ll_max_payload)
scan-length buf out = go (scan buf out) refl (scan-Leaves buf out)
  where
    go :
        (o : Option (List ℕ × List Command))
        → scan buf out ≡ o
        → Leaves buf o
        → (r : List ℕ × List Command) × (scan buf out ≡ some r)
          × (length r.0 < ll_header_size + ll_max_payload)
    go none e h = absurd h
    go (some r) e h = (r, e, IsPartial-length r.0 h.0)
