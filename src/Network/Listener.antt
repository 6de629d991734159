-- ===== src/Network/Listener.antt =====
-- src/modules/network/TcpServer.cpp and include/modules/network/TcpServer.h: the listening socket,
-- `listen`, `close`, `isListening`, `acceptClient`.
pub mod Owned
use long.Base.{List, [], ◌∷◌, ℕ, Bool, true, false, not, ◌&&◌, Option, none, some, if◌then◌else◌}
use long.Base.Int.{ℤ, pos, negsuc}
use long.Handle.{Call, closed, Handle, close_handle, open_handle}
use long.Network.Socket.{Errno, eintr, eagain, other}

-- What the kernel answers during a call of `listen`: `any_addr` is `bindAddr.empty() ||
-- bindAddr == "0.0.0.0"`, `valid_addr` that `inet_pton` returns 1; `bound` and `listening` that
-- `bind` and `::listen` do not fail.
pub record ListenAnswers : Type 0 where
  pub socket : Option ℕ
  pub any_addr : Bool
  pub valid_addr : Bool
  pub bound : Bool
  pub listening : Bool

unfoldable pub listen_on : Handle → ListenAnswers → Option ℕ → Handle × Bool
listen_on h a none = (h, false)
listen_on h a (some fd) =
    if not a.any_addr && not a.valid_addr
    then (close_handle h, false)
    else if not a.bound
    then (close_handle h, false)
    else if not a.listening
    then (close_handle h, false)
    else (h, true)

unfoldable pub listen : Handle → ListenAnswers → Handle × Bool
listen h a = let h' = open_handle (close_handle h) a.socket in listen_on h' a a.socket

abbrev pub is_listening : Handle → Bool
is_listening h = elim h.fd [ none ↦ false | some fd ↦ true ]

-- What `select` answers for the listening socket.
pub data SelectAnswer : Type 0 where
  ready timeout : SelectAnswer
  select_failed : Errno → SelectAnswer

pub data AcceptAnswer : Type 0 where
  accepted_fd : ℕ → AcceptAnswer
  accept_failed : Errno → AcceptAnswer

accept_ready : AcceptAnswer → ℤ
accept_ready (accepted_fd fd) = pos fd
accept_ready (accept_failed eintr) = negsuc 0
accept_ready (accept_failed eagain) = negsuc 0
accept_ready (accept_failed (other e)) = negsuc 1

accept_selected : SelectAnswer → AcceptAnswer → ℤ
accept_selected (select_failed eintr) a = negsuc 0
accept_selected (select_failed eagain) a = negsuc 1
accept_selected (select_failed (other e)) a = negsuc 1
accept_selected timeout a = negsuc 0
accept_selected ready a = accept_ready a

accept_on : Option ℕ → SelectAnswer → AcceptAnswer → ℤ
accept_on none s a = negsuc 1
accept_on (some fd) s a = accept_selected s a

-- The descriptor of the client, -1 to try again, or -2.
unfoldable pub accept_client : Handle → SelectAnswer → AcceptAnswer → ℤ
unfolding accept_ready accept_selected accept_on
accept_client h s a = accept_on h.fd s a

-- What `closeClient` asks of the kernel.
abbrev pub close_client : ℤ → List Call
close_client (pos fd) = closed fd ∷ []
close_client (negsuc n) = []
