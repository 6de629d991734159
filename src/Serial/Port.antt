-- ===== src/Serial/Port.antt =====
-- src/modules/serial/SerialManager.cpp: opening and closing the port.
pub mod Owned
use long.Base.{ℕ, Bool, true, false, not, Option, none, some, if◌then◌else◌, ◌==◌}
use long.Handle.{Handle, close_handle, open_handle}

-- The speed constant, named by its rate.
unfoldable pub to_speed : ℕ → ℕ
to_speed baud =
    if baud == 9600
    then 9600
    else if baud == 19200
    then 19200
    else if baud == 38400
    then 38400
    else if baud == 57600
    then 57600
    else if baud == 115200
    then 115200
    else if baud == 230400
    then 230400
    else 115200

-- What the kernel answers during a call of `open`: `device` is the result of `::open`, `got` and
-- `set` that `tcgetattr` and `tcsetattr` return 0.
pub record OpenAnswers : Type 0 where
  pub device : Option ℕ
  pub got : Bool
  pub set : Bool

-- The speed is the one that `tcsetattr` has put on the port, `none` where it has put none.
unfoldable pub open_port_on : Handle → OpenAnswers → ℕ → Option ℕ → Handle × (Bool × Option ℕ)
open_port_on h a baud none = (h, (false, none))
open_port_on h a baud (some fd) =
    if not a.got
    then (close_handle h, (false, none))
    else if not a.set
    then (close_handle h, (false, none))
    else (h, (true, some (to_speed baud)))

-- The handle, the result, and the speed.
unfoldable pub open_port : Handle → OpenAnswers → ℕ → Handle × (Bool × Option ℕ)
open_port h a baud =
    let h' = open_handle (close_handle h) a.device in open_port_on h' a baud a.device
