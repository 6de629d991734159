-- ===== src/Serial/Manager.antt =====
-- src/modules/serial/SerialManager.cpp and include/modules/serial/SerialManager.h: sending commands
-- and taking frames out of what the port has received.
pub mod Scan
pub mod Stream
pub mod Front
pub mod RoundTrip
pub mod Damage
pub mod Polls
use long.Base.{
  ℕ, zero, suc, ◌+◌, ◌-◌, ◌%◌, ◌^◌, Bool, true, false, not, ◌||◌, List, [], ◌∷◌, ◌++◌, Option, none,
  some, length, take, drop, get_or, if◌then◌else◌, ◌==◌, ltb,
}
use long.Serial.Protocol.{sof1, sof2, crc8, build_frame}

-- A call of `rxCb_`: the command, the bytes of the frame that stand at the pointer it is given, up
-- to the checksum, and the length that it is told.
pub record Received : Type 0 where
  pub cmd : ℕ
  pub payload : List ℕ
  pub len : ℕ

-- `crcCalc != crcRecv` for the frame of `need` bytes at the front.
pub crc_differs : List ℕ → ℕ → Bool
crc_differs rest need = not (crc8 (take (need - 3) (drop 2 rest)) == get_or rest (need - 1) 0)

-- The loop of `poll`. The list is the buffer from `off` on, and five elements of it are the test
-- `rxBuf_.size() - off >= 5`. `plLen` is a `size_t`: it wraps where LEN is 0. Each round takes a
-- byte at least; `none` means that the fuel ran out.
pub scan_loop : ℕ → Bool → List ℕ → List Received → Option (List ℕ × List Received)
scan_loop zero has_cb rest out = none
scan_loop (suc f) has_cb (b0 ∷ b1 ∷ len ∷ cmd ∷ b4 ∷ tl) out =
    let rest = b0 ∷ b1 ∷ len ∷ cmd ∷ b4 ∷ tl in
    let need = len + 4 in
    let skip = scan_loop f has_cb (b1 ∷ len ∷ cmd ∷ b4 ∷ tl) out in
    let pl_len = (len + 2 ^ 64 - 1) % 2 ^ 64 in
    let event : Received = record { cmd = cmd; payload = take (len - 1) (b4 ∷ tl); len = pl_len } in
    let take_frame =
      scan_loop f has_cb (drop need rest) (if has_cb then out ++ (event ∷ []) else out) in
    if not (b0 == sof1) || not (b1 == sof2)
    then skip
    else if ltb (length rest) need
    then some (rest, out)
    else if crc_differs rest need
    then skip
    else take_frame
scan_loop (suc f) has_cb rest out = some (rest, out)

-- The loop with fuel for every byte; what is left is the buffer after `erase`.
unfoldable pub scan : Bool → List ℕ → List Received → Option (List ℕ × List Received)
scan has_cb buf out = scan_loop (suc (length buf)) has_cb buf out

-- `fd` is `none` where `fd_` is negative.
pub record Manager : Type 0 where
  pub fd : Option ℕ
  pub has_cb : Bool
  pub rx_buf : List ℕ

abbrev pub set_rx_callback : Manager → Bool → Manager
set_rx_callback m has_cb = record m { has_cb = has_cb }

-- An answer of `read`: some bytes, or a result that is not positive.
pub data ReadAnswer : Type 0 where
  read_bytes : ℕ → List ℕ → ReadAnswer
  read_nothing : ReadAnswer

finish_poll : Manager → Option (List ℕ × List Received) → Option (Manager × List Received)
finish_poll m none = none
finish_poll m (some (rest, events)) = some (record m { rx_buf = rest }, events)

poll_read : Manager → ReadAnswer → Option (Manager × List Received)
poll_read m read_nothing = some (m, [])
poll_read m (read_bytes b bytes) = finish_poll m (scan m.has_cb (m.rx_buf ++ (b ∷ bytes)) [])

poll_open : Manager → Option ℕ → ReadAnswer → Option (Manager × List Received)
poll_open m none answer = some (m, [])
poll_open m (some fd) answer = poll_read m answer

-- A call of `poll`: the new state and the calls of the callback, in order.
unfoldable pub poll : Manager → ReadAnswer → Option (Manager × List Received)
unfolding finish_poll poll_read poll_open
poll m answer = poll_open m m.fd answer

-- `written` is what `write` answers for the bytes of the frame, `none` for -1.
send_open : Option ℕ → List ℕ → Option ℕ → Bool
send_open none frame written = false
send_open (some fd) frame none = false
send_open (some fd) frame (some n) = n == length frame

-- The result of `sendCmd` and the bytes that it hands to `write`.
unfoldable pub send_cmd : Manager → ℕ → Option (List ℕ) → ℕ → Option ℕ → Bool × List ℕ
unfolding send_open
send_cmd m cmd payload payload_len written =
    let frame = build_frame cmd payload payload_len in
    (send_open m.fd frame written, elim m.fd [ none ↦ [] | some fd ↦ frame ])
