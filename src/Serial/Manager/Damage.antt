-- ===== src/Serial/Manager/Damage.antt =====
-- `SerialManager::poll` on frames that were damaged on the way or are too short.
use long.Base.{
  ℕ, ◌+◌, ◌-◌, ◌^◌, ◌≡◌, ◌≢◌, refl, sym, ap, subst, ◌∙◌, Bool, true, List, [], ◌∷◌, ◌++◌, length,
  length-append, All, All-front, All-behind, arith,
}
use long.Base.Bytes.{IsByte}
use long.Serial.Protocol.{sof1, sof2, crc8, crc_loop, crc_bits, crc_bit}
use long.Serial.Protocol.Crc.{crc8_changed}
use long.Serial.Manager.{Received, crc_differs, scan}
use long.Serial.Manager.Scan.{scan_complete}
use long.Serial.Manager.Front.{Message, IsMessage, check, bad_body}

-- Where one byte of the command and the payload has changed on the way, no frame is reported at the
-- place of the message: the scan goes on behind its first start byte.
pub serial_scan_damaged :
    (cb : Bool) (m : Message) (front back : List ℕ) (x y cmd' : ℕ) (payload' : List ℕ)
    (rest : List ℕ) (out : List Received)
    → IsMessage m
    → All IsByte (m.cmd ∷ m.payload)
    → IsByte y
    → x ≢ y
    → m.cmd ∷ m.payload ≡ front ++ (x ∷ back)
    → cmd' ∷ payload' ≡ front ++ (y ∷ back)
    → scan cb (sof1 ∷ sof2 ∷ (length m.payload + 1) ∷ cmd' ∷ (payload' ++ (check m ∷ rest))) out
      ≡ scan cb (sof2 ∷ (length m.payload + 1) ∷ cmd' ∷ (payload' ++ (check m ∷ rest))) out
serial_scan_damaged cb m front back x y cmd' payload' rest out h bytes hy ne e e' =
    bad_body cb len cmd' payload' (check m) rest out same_length (payload' ++ (check m ∷ rest)) refl
      (λ q. ne (changed q))
  where
    len : ℕ
    len = length m.payload + 1

    same_length : len ≡ length payload' + 1
    same_length = omega (
      arith,
      ap length e,
      ap length e',
      length-append front (x ∷ back),
      length-append front (y ∷ back),
    )

    parts : All IsByte (front ++ (x ∷ back))
    parts = subst (All IsByte) e bytes

    behind : All IsByte (x ∷ back)
    behind = All-behind IsByte front (x ∷ back) parts

    changed : crc8 (len ∷ cmd' ∷ payload') ≡ check m → x ≡ y
    changed q =
        crc8_changed (len ∷ front) back x y (omega arith, All-front IsByte front (x ∷ back) parts)
          behind.1 behind.0 hy
          (ap (λ t. crc8 (len ∷ t)) (sym e) ∙ sym q ∙ ap (λ t. crc8 (len ∷ t)) e')

-- A start followed by LEN 0 and a zero byte is taken for a frame: the callback is told of
-- 2 ^ 64 - 1 bytes of payload, where the frame has none.
pub serial_scan_empty :
    (x : ℕ) (rest : List ℕ) (out : List Received)
    → scan true (sof1 ∷ sof2 ∷ 0 ∷ 0 ∷ x ∷ rest) out
      ≡ scan true (x ∷ rest) (out ++ (record { cmd = 0; payload = []; len = 2 ^ 64 - 1 } ∷ []))
unfolding crc_differs crc8 crc_loop crc_bits crc_bit
serial_scan_empty x rest out =
    scan_complete true sof1 sof2 0 0 x rest out refl refl (omega arith) refl
