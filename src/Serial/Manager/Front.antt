-- ===== src/Serial/Manager/Front.antt =====
-- A frame at the front of the receive buffer, with a right or a wrong checksum.
use long.Base.{
  ℕ, zero, suc, ◌+◌, ◌-◌, ◌%◌, ◌^◌, ◌≤◌, ◌≡◌, ◌≢◌, refl, ap, ap₂, ◌∙◌, Bool, false, not, List, [],
  ◌∷◌, ◌++◌, some, length, length-append, take, drop, take-append_self, get_or, ◌==◌, arith,
}
use long.Serial.Protocol.{sof1, sof2, crc8, build_frame}
use long.Serial.Manager.{Received, crc_differs, scan}
use long.Serial.Manager.Scan.{scan_complete, scan-damaged, event, report}

-- A command with its payload.
pub record Message : Type 0 where
  pub cmd : ℕ
  pub payload : List ℕ

-- LEN counts the command, and is one byte.
abbrev pub IsMessage : Message → Type 0
IsMessage m = length m.payload ≤ 254

-- The bytes of a message on the wire.
abbrev pub sent : Message → List ℕ
sent m = build_frame m.cmd (some m.payload) (length m.payload)

-- The checksum of a message, over LEN, CMD and payload.
abbrev pub check : Message → ℕ
check m = crc8 ((length m.payload + 1) ∷ m.cmd ∷ m.payload)

-- What a callback is told of a message.
abbrev pub told : Message → Received
told m = record { cmd = m.cmd; payload = m.payload; len = length m.payload }

take_all : (xs : List ℕ) → take (length xs) xs ≡ xs
take_all [] = refl
take_all (x ∷ xs) = ap (◌∷◌ x) (take_all xs)

build_frame-some :
    (cmd : ℕ) (payload : List ℕ) (len : ℕ)
    → build_frame cmd (some payload) len
      ≡ sof1
        ∷ sof2
        ∷ (len + 1) % 2 ^ 8
        ∷ cmd
        ∷ (take len payload ++ (crc8 ((len + 1) % 2 ^ 8 ∷ cmd ∷ take len payload) ∷ []))
unfolding build_frame
build_frame-some cmd payload zero = refl
build_frame-some cmd payload (suc len) = ground arith

pub sent-bytes :
    (m : Message)
    → IsMessage m
    → sent m ≡ sof1 ∷ sof2 ∷ (length m.payload + 1) ∷ m.cmd ∷ (m.payload ++ (check m ∷ []))
sent-bytes m h =
    let one : (length m.payload + 1) % 2 ^ 8 ≡ length m.payload + 1 = omega arith in
    build_frame-some m.cmd m.payload (length m.payload) ∙ rw (one, take_all m.payload) refl

get_or_behind : (xs ys : List ℕ) (y : ℕ) → get_or (xs ++ (y ∷ ys)) (length xs) 0 ≡ y
get_or_behind [] ys y = refl
get_or_behind (x ∷ xs) ys y = get_or_behind xs ys y

-- A frame at the front with `c` where the checksum stands: `n` is the length of the payload.
module _ (cb : Bool) (len cmd b4 : ℕ) (tl payload : List ℕ) (c : ℕ) (rest : List ℕ)
    (body : b4 ∷ tl ≡ payload ++ (c ∷ rest)) (counts : len ≡ length payload + 1) where
  abbrev n : ℕ
  n = length payload

  abbrev whole : List ℕ
  whole = sof1 ∷ sof2 ∷ len ∷ cmd ∷ b4 ∷ tl

  crc_differs-frame : crc_differs whole (len + 4) ≡ not (crc8 (len ∷ cmd ∷ payload) == c)
  unfolding crc_differs
  crc_differs-frame =
      ap₂ (λ xs y. not (crc8 xs == y))
        (rw (two, body) (ap (λ t. len ∷ cmd ∷ t) (take-append_self payload (c ∷ rest))))
        (rw (three, body) (get_or_behind payload rest c))
    where
      two : len + 4 - 3 ≡ suc (suc n)
      two = omega arith

      three : len + 4 - 1 ≡ suc (suc (suc (suc n)))
      three = omega arith

  drop-frame : drop (len + 4) whole ≡ rest
  drop-frame = rw (five, body) (drop_behind payload)
    where
      five : len + 4 ≡ suc (suc (suc (suc (suc n))))
      five = omega arith

      drop_behind : (xs : List ℕ) → drop (suc (length xs)) (xs ++ (c ∷ rest)) ≡ rest
      drop_behind [] = refl
      drop_behind (x ∷ xs) = drop_behind xs

  event-frame : n ≤ 254 → event len cmd (b4 ∷ tl) ≡ record { cmd = cmd; payload = payload; len = n }
  event-frame h =
      rw (pl_len, own, body)
        (ap (λ t. record { cmd = cmd; payload = t; len = n }) (take-append_self payload (c ∷ rest)))
    where
      pl_len : (len + 2 ^ 64 - 1) % 2 ^ 64 ≡ n
      pl_len = omega arith

      own : len - 1 ≡ n
      own = omega arith

  fits : len + 4 ≤ length whole
  fits = omega (arith, ap length body, length-append payload (c ∷ rest))

  scan-good :
      (out : List Received)
      → n ≤ 254
      → crc8 (len ∷ cmd ∷ payload) ≡ c
      → scan cb whole out
        ≡ scan cb rest (report cb (record { cmd = cmd; payload = payload; len = n }) out)
  scan-good out h e =
      let checks : not (crc8 (len ∷ cmd ∷ payload) == c) ≡ false = ground arith in
      scan_complete cb sof1 sof2 len cmd b4 tl out refl refl fits (crc_differs-frame ∙ checks)
      ∙ ap₂ (λ t v. scan cb t (report cb v out)) drop-frame (event-frame h)

  scan-bad :
      (out : List Received)
      → crc8 (len ∷ cmd ∷ payload) ≢ c
      → scan cb whole out ≡ scan cb (sof2 ∷ len ∷ cmd ∷ b4 ∷ tl) out
  scan-bad out e =
      scan-damaged cb sof1 sof2 len cmd b4 tl out refl refl fits (crc_differs-frame ∙ ground arith)

module _ (cb : Bool) (len cmd : ℕ) (payload : List ℕ) (c : ℕ) (rest : List ℕ) (out : List Received)
    (counts : len ≡ length payload + 1) where
  pub good_body :
      (body : List ℕ)
      → body ≡ payload ++ (c ∷ rest)
      → length payload ≤ 254
      → crc8 (len ∷ cmd ∷ payload) ≡ c
      → scan cb (sof1 ∷ sof2 ∷ len ∷ cmd ∷ body) out
        ≡ scan cb rest
            (report cb (record { cmd = cmd; payload = payload; len = length payload }) out)
  good_body [] e h k = absurd (omega (arith, ap length e, length-append payload (c ∷ rest)))
  good_body (b4 ∷ tl) e h k = scan-good cb len cmd b4 tl payload c rest e counts out h k

  pub bad_body :
      (body : List ℕ)
      → body ≡ payload ++ (c ∷ rest)
      → crc8 (len ∷ cmd ∷ payload) ≢ c
      → scan cb (sof1 ∷ sof2 ∷ len ∷ cmd ∷ body) out ≡ scan cb (sof2 ∷ len ∷ cmd ∷ body) out
  bad_body [] e k = absurd (omega (arith, ap length e, length-append payload (c ∷ rest)))
  bad_body (b4 ∷ tl) e k = scan-bad cb len cmd b4 tl payload c rest e counts out k
