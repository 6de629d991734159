-- ===== src/Serial/Manager/RoundTrip.antt =====
-- `buildFrame` of Protocol.h and the scan of `SerialManager::poll`.
use long.Base.{ℕ, ◌+◌, ◌≡◌, refl, ap, ◌∙◌, Bool, List, [], ◌∷◌, ◌++◌, append_assoc, length}
use long.Serial.Manager.{Received, scan}
use long.Serial.Manager.Scan.{report}
use long.Serial.Manager.Front.{Message, IsMessage, sent, check, told, sent-bytes, good_body}

-- A message in front of the buffer is taken off whole and reported with its command, its payload
-- and the length of that, if the payload has at most 254 bytes.
pub serial_scan-sent :
    (cb : Bool) (m : Message) (rest : List ℕ) (out : List Received)
    → IsMessage m
    → scan cb (sent m ++ rest) out ≡ scan cb rest (report cb (told m) out)
serial_scan-sent cb m rest out h =
    ap (λ t. scan cb (t ++ rest) out) (sent-bytes m h)
    ∙ good_body cb (length m.payload + 1) m.cmd m.payload (check m) rest out refl
        ((m.payload ++ (check m ∷ [])) ++ rest) (append_assoc m.payload (check m ∷ []) rest) h refl
