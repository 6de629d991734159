-- ===== src/Network/Client.antt =====
-- src/modules/network/TcpClient.cpp and include/modules/network/TcpClient.h: `connect`, `close` and
-- `recv`. `sendAll` stands in Network/Send.antt.
pub mod Owned
use long.Base.{ℕ, zero, suc, Bool, true, false, not, Option, none, some, if◌then◌else◌}
use long.Base.Int.{ℤ, pos, negsuc}
use long.Handle.{Handle, close_handle, open_handle}

-- What the kernel answers during a call of `connect`: `connecting` is that `::connect` succeeds or
-- fails with EINPROGRESS, `writable` that `select` is positive, `no_error` that SO_ERROR is 0.
pub record ConnectAnswers : Type 0 where
  pub socket : Option ℕ
  pub valid_addr : Bool
  pub connecting : Bool
  pub writable : Bool
  pub no_error : Bool

unfoldable pub connect_on : Handle → ConnectAnswers → Option ℕ → Handle × Bool
connect_on h a none = (h, false)
connect_on h a (some fd) =
    if not a.valid_addr
    then (close_handle h, false)
    else if not a.connecting
    then (close_handle h, false)
    else if not a.writable
    then (close_handle h, false)
    else if not a.no_error
    then (close_handle h, false)
    else (h, true)

unfoldable pub connect : Handle → ConnectAnswers → Handle × Bool
connect h a = let h' = open_handle (close_handle h) a.socket in connect_on h' a a.socket

-- What `select` and `read` answer in `recv`, as the sign of the one and the result of the other.
pub data Selected : Type 0 where
  timeout failed ready : Selected

pub data ReadResult : Type 0 where
  read_failed : ReadResult
  read_count : ℕ → ReadResult

recv_ready : ReadResult → ℤ
recv_ready read_failed = negsuc 1
recv_ready (read_count zero) = negsuc 0
recv_ready (read_count (suc n)) = pos (suc n)

-- The number of bytes, 0 for a timeout, -1 as the peer has closed, -2 for an error.
unfoldable pub recv : Selected → ReadResult → ℤ
unfolding recv_ready
recv timeout r = pos 0
recv failed r = negsuc 1
recv ready r = recv_ready r
