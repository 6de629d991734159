-- ===== src/Business/Robot.antt =====
-- include/business/RobotController.h and src/business/RobotController.cpp. A method is the state
-- after it and its result.
pub mod Latest
use long.Base.{ℕ, Bool, false, not, if◌then◌else◌, ◌==◌}
use long.Base.Int.{ℤ, pos}
use long.Model.{RobotState, RobotStatus}
use long.Network.Frame.{
  Command, CmdId, cmd_code, cmd_fan, cmd_buzzer, cmd_relay, cmd_led, cmd_mode, cmd_estop,
}

unfoldable pub set_speed : RobotState → ℤ → ℤ → RobotState × Bool
set_speed s left_mm_s right_mm_s =
    (record s { sensors = record s.sensors { speed_l = left_mm_s; speed_r = right_mm_s } }, false)

unfoldable pub set_fan : RobotState → Bool → RobotState × Bool
set_fan s on = (record s { actuators = record s.actuators { fan = on } }, false)

unfoldable pub set_buzzer : RobotState → Bool → RobotState × Bool
set_buzzer s on = (record s { actuators = record s.actuators { buzzer = on } }, false)

unfoldable pub set_relay : RobotState → Bool → RobotState × Bool
set_relay s on = (record s { actuators = record s.actuators { relay = on } }, false)

unfoldable pub set_led : RobotState → Bool → RobotState × Bool
set_led s on = (record s { actuators = record s.actuators { led = on } }, false)

unfoldable pub set_servo : RobotState → ℕ → RobotState × Bool
set_servo s pulse_us = (record s { actuators = record s.actuators { servo_us = pulse_us } }, false)

unfoldable pub emergency_stop : RobotState → RobotState × Bool
emergency_stop s =
    let stopped = (set_speed (record s { status = RobotStatus.estop }) (pos 0) (pos 0)).0 in
    (stopped, false)

-- `cmd.value != 0`
abbrev pub is_on : ℕ → Bool
is_on value = not (value == 0)

unfoldable pub handle_command : RobotState → Command → RobotState
handle_command s cmd =
    if cmd.cmd_id == cmd_code cmd_fan
    then (set_fan s (is_on cmd.value)).0
    else if cmd.cmd_id == cmd_code cmd_buzzer
    then (set_buzzer s (is_on cmd.value)).0
    else if cmd.cmd_id == cmd_code cmd_relay
    then (set_relay s (is_on cmd.value)).0
    else if cmd.cmd_id == cmd_code cmd_led
    then (set_led s (is_on cmd.value)).0
    else if cmd.cmd_id == cmd_code cmd_mode
    then record s { mode = cmd.value }
    else if cmd.cmd_id == cmd_code cmd_estop
    then (emergency_stop s).0
    else s
