-- ===== src/Network/Server.antt =====
-- src/modules/network/TcpServer.cpp: the receiving side, `pollCommands`.
pub mod Scan
pub mod Stream
pub mod RoundTrip
pub mod Behind
pub mod Polls
use long.Base.{
  ℕ, zero, suc, ◌+◌, ◌≡◌, Bool, not, ◌&&◌, List, [], ◌∷◌, ◌++◌, Option, none, some, length, drop,
  get_or, if◌then◌else◌, ◌==◌, ltb, leb,
}
use long.Base.Int.{ℤ, pos, negsuc}
use long.Network.Socket.{Errno, RecvAnswer, received, closed, recv_failed, eintr, eagain, other}
use long.Network.Frame.{Command, ll_sof, ll_max_payload, frame_code, frame_command}
use long.Network.Frame.Header.{read_le32}

-- What a frame of this type, length and payload adds to `out`.
pub push_command : ℕ → ℕ → List ℕ → List Command → List Command
push_command type len payload out =
    if (type == frame_code frame_command) && leb 2 len
    then out ++ (record { cmd_id = get_or payload 0 0; value = get_or payload 1 0 } ∷ [])
    else out

-- The second loop of `pollCommands`. The list is the buffer from `off` on, and six elements of it
-- are the test `buf.size() - off >= LL_HEADER_SIZE`. Each round takes a byte at least; `none` means
-- that the fuel ran out.
pub scan_loop : ℕ → List ℕ → List Command → Option (List ℕ × List Command)
scan_loop zero rest out = none
scan_loop (suc f) (b0 ∷ b1 ∷ b2 ∷ b3 ∷ b4 ∷ b5 ∷ payload) out =
    let len = read_le32 b2 b3 b4 b5 in
    let skip = scan_loop f (b1 ∷ b2 ∷ b3 ∷ b4 ∷ b5 ∷ payload) out in
    let take_frame = scan_loop f (drop len payload) (push_command b1 len payload out) in
    if not (b0 == ll_sof)
    then skip
    else if ltb ll_max_payload len
    then skip
    else if ltb (length payload) len
    then some (b0 ∷ b1 ∷ b2 ∷ b3 ∷ b4 ∷ b5 ∷ payload, out)
    else take_frame
scan_loop (suc f) rest out = some (rest, out)

-- The loop with fuel for every byte; what is left is the buffer after `erase`.
unfoldable pub scan : List ℕ → List Command → Option (List ℕ × List Command)
unfolding scan_loop push_command
scan buf out = scan_loop (suc (length buf)) buf out

-- How the reading loop ends: with a value that `pollCommands` returns at once, or as no more data
-- is there.
pub data ReadEnd : Type 0 where
  returns : ℤ → ReadEnd
  drained : ℕ → ReadEnd

-- The first loop of `pollCommands`. `none` means that the answers end before the loop does.
unfoldable pub recv_loop : List RecvAnswer → List ℕ → ℕ → Option (ReadEnd × List ℕ)
recv_loop [] buf total = none
recv_loop (received bytes ∷ more) buf total = recv_loop more (buf ++ bytes) (total + length bytes)
recv_loop (closed ∷ more) buf total = some (returns (negsuc 0), buf)
recv_loop (recv_failed eagain ∷ more) buf total = some (drained total, buf)
recv_loop (recv_failed eintr ∷ more) buf total = recv_loop more buf total
recv_loop (recv_failed (other e) ∷ more) buf total = some (returns (negsuc 1), buf)

-- The value returned, the buffer kept and the commands out.
pub record Poll : Type 0 where
  pub result : ℤ
  pub buf : List ℕ
  pub out : List Command

unfoldable pub finish_poll : ReadEnd → List ℕ → List Command → Option Poll
finish_poll (returns r) buf out = some (record { result = r; buf = buf; out = out })
finish_poll (drained n) buf out = elim (scan buf out) [
  | none ↦ none
  | some (buf', out') ↦ some (record { result = pos n; buf = buf'; out = out' })
]

unfoldable pub poll_commands : List RecvAnswer → List ℕ → List Command → Option Poll
poll_commands answers buf out = elim (recv_loop answers buf 0) [
  | none ↦ none
  | some (ended, buf') ↦ finish_poll ended buf' out
]
