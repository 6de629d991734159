-- ===== src/Network/Socket.antt =====
-- What the kernel answers to the socket calls. A loop of calls takes its answers from a list, in
-- the order in which they come.
use long.Base.{ℕ, List}

-- `eagain` stands for EWOULDBLOCK too, which is the same number on Linux.
pub data Errno : Type 0 where
  eintr eagain : Errno
  other : ℕ → Errno

-- An answer of `recv`: some bytes, 0 as the peer has closed, or -1 with `errno`.
pub data RecvAnswer : Type 0 where
  received : List ℕ → RecvAnswer
  closed : RecvAnswer
  recv_failed : Errno → RecvAnswer

-- An answer of `send`: a number of bytes taken, or -1 with `errno`.
pub data SendAnswer : Type 0 where
  accepted : ℕ → SendAnswer
  send_failed : Errno → SendAnswer
