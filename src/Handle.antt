-- ===== src/Handle.antt =====
-- A file descriptor that an object owns: `fd_` of the classes TcpServer, TcpClient, SerialManager
-- and CameraManager, and the calls that open and close it.
pub mod Owned
use long.Base.{ℕ, Option, none, some, List, [], ◌∷◌}

-- What the object has asked the kernel for.
pub data Call : Type 0 where
  opened closed : ℕ → Call

-- `fd` is `none` where `fd_` is negative; the latest call stands first.
pub record Handle : Type 0 where
  pub fd : Option ℕ
  pub calls : List Call

abbrev pub fresh : Handle
fresh = record { fd = none; calls = [] }

close_fd : List Call → Option ℕ → Handle
close_fd calls none = record { fd = none; calls = calls }
close_fd calls (some fd) = record { fd = none; calls = closed fd ∷ calls }

-- `if (fd_ >= 0) { ::close(fd_); fd_ = -1; }`
unfoldable pub close_handle : Handle → Handle
unfolding close_fd
close_handle h = close_fd h.calls h.fd

-- `fd_ = …`: the answer of `socket` or `open`, `none` for -1.
unfoldable pub open_handle : Handle → Option ℕ → Handle
open_handle h none = record h { fd = none }
open_handle h (some fd) = record { fd = some fd; calls = opened fd ∷ h.calls }
