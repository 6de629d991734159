-- ===== src/Network/Send.antt =====
-- src/modules/network/TcpServer.cpp: the sending side, `sendAll`, `sendFrame` and `sendText`; and
-- `sendAll` of src/modules/network/TcpClient.cpp.
pub mod Wire
use long.Base.{
  ℕ, zero, suc, ◌%◌, ◌^◌, Bool, true, false, List, [], ◌∷◌, ◌++◌, Option, none, some, length, take,
  drop, if◌then◌else◌, ltb,
}
use long.Network.Socket.{SendAnswer, accepted, send_failed, eintr, eagain, other}
use long.Network.Frame.{build_header, frame_code, frame_text}

-- What a call returns, the bytes on the wire so far and the answers that are left.
pub record Sending : Type 0 where
  pub result : Bool
  pub wire : List ℕ
  pub answers : List SendAnswer

-- The loop of `TcpServer::sendAll`. The bytes are those from `data + sent` on; `none` means that
-- the answers end before the loop does.
unfoldable pub send_all : List SendAnswer → List ℕ → List ℕ → Option Sending
send_all answers [] wire = some (record { result = true; wire = wire; answers = answers })
send_all [] (b ∷ bs) wire = none
send_all (accepted zero ∷ more) (b ∷ bs) wire =
    some (record { result = false; wire = wire; answers = more })
send_all (accepted (suc n) ∷ more) (b ∷ bs) wire =
    send_all more (drop (suc n) (b ∷ bs)) (wire ++ take (suc n) (b ∷ bs))
send_all (send_failed eintr ∷ more) (b ∷ bs) wire = send_all more (b ∷ bs) wire
send_all (send_failed eagain ∷ more) (b ∷ bs) wire = send_all more (b ∷ bs) wire
send_all (send_failed (other e) ∷ more) (b ∷ bs) wire =
    some (record { result = false; wire = wire; answers = more })

-- The payload, if there is one and the header is out.
unfoldable pub send_payload : List ℕ → ℕ → Sending → Option Sending
send_payload payload len r =
    let rest = send_all r.answers (take len payload) r.wire in
    if r.result then if ltb 0 len then rest else some r else some r

-- `payload` points to `len` bytes.
unfoldable pub send_frame : List SendAnswer → ℕ → List ℕ → ℕ → List ℕ → Option Sending
send_frame answers type payload len wire =
    elim (send_all answers (build_header type (len % 2 ^ 32)) wire) [
      | none ↦ none
      | some r ↦ send_payload payload len r
    ]

-- `text` is the bytes of the string.
unfoldable pub send_text : List SendAnswer → List ℕ → List ℕ → Option Sending
send_text answers text wire = send_frame answers (frame_code frame_text) text (length text) wire

-- The loop of `TcpClient::sendAll`, which gives up at EAGAIN.
unfoldable pub client_send_all : List SendAnswer → List ℕ → List ℕ → Option Sending
client_send_all answers [] wire = some (record { result = true; wire = wire; answers = answers })
client_send_all [] (b ∷ bs) wire = none
client_send_all (accepted zero ∷ more) (b ∷ bs) wire =
    some (record { result = false; wire = wire; answers = more })
client_send_all (accepted (suc n) ∷ more) (b ∷ bs) wire =
    client_send_all more (drop (suc n) (b ∷ bs)) (wire ++ take (suc n) (b ∷ bs))
client_send_all (send_failed eintr ∷ more) (b ∷ bs) wire = client_send_all more (b ∷ bs) wire
client_send_all (send_failed eagain ∷ more) (b ∷ bs) wire =
    some (record { result = false; wire = wire; answers = more })
client_send_all (send_failed (other e) ∷ more) (b ∷ bs) wire =
    some (record { result = false; wire = wire; answers = more })
