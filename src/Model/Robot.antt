-- ===== src/Model/Robot.antt =====
-- include/model/RobotState.h.
use long.Base.{ℕ, Bool, false}
use long.Base.Int.{ℤ, pos}

pub data RobotMode : Type 0 where
  manual auto obstacle patrol : RobotMode

abbrev pub mode_code : RobotMode → ℕ
mode_code manual = 0
mode_code auto = 1
mode_code obstacle = 2
mode_code patrol = 3

pub data RobotStatus : Type 0 where
  idle running paused faulted estop : RobotStatus

pub record SensorReading : Type 0 where
  pub timestamp_ms : ℕ
  pub temperature_01c : ℤ
  pub humidity_01 : ℕ
  pub gas_ppm : ℕ
  pub pressure_pa : ℕ
  pub distance_cm : ℕ
  pub encoder1 : ℤ
  pub encoder2 : ℤ
  pub speed_l : ℤ
  pub speed_r : ℤ
  pub voltage_mv : ℕ

abbrev pub default_reading : SensorReading
default_reading = record {
  timestamp_ms = 0;
  temperature_01c = pos 0;
  humidity_01 = 0;
  gas_ppm = 0;
  pressure_pa = 0;
  distance_cm = 0;
  encoder1 = pos 0;
  encoder2 = pos 0;
  speed_l = pos 0;
  speed_r = pos 0;
  voltage_mv = 0;
}

pub record ActuatorState : Type 0 where
  pub fan : Bool
  pub buzzer : Bool
  pub relay : Bool
  pub led : Bool
  pub servo_us : ℕ

abbrev pub default_actuators : ActuatorState
default_actuators = record {
  fan = false;
  buzzer = false;
  relay = false;
  led = false;
  servo_us = 1500;
}

-- `mode` is the underlying byte of a `RobotMode`: the code casts any byte to it.
pub record RobotState : Type 0 where
  pub mode : ℕ
  pub status : RobotStatus
  pub fault : ℕ
  pub risk_level : ℕ
  pub sensors : SensorReading
  pub actuators : ActuatorState

abbrev pub default_state : RobotState
default_state = record {
  mode = mode_code manual;
  status = idle;
  fault = 0;
  risk_level = 0;
  sensors = default_reading;
  actuators = default_actuators;
}
