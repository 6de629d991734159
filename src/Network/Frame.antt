-- ===== src/Network/Frame.antt =====
-- include/modules/network/FrameProtocol.h: the frames on the link, [0xA5][type][length][payload].
-- A byte vector is a list of numbers.
pub mod Header
pub mod Sensor
use long.Base.{
  ℕ, ◌+◌, ◌*◌, ◌/◌, ◌%◌, ◌^◌, List, [], ◌∷◌, ◌++◌, Option, none, some, take, if◌then◌else◌, ◌==◌,
}
use long.Base.Int.{ℤ, pos, to_u16, to_u32}
use Prim.Native.Nat.{bit_and}

abbrev pub ll_sof : ℕ
ll_sof = 0xa5

abbrev pub ll_header_size : ℕ
ll_header_size = 6

abbrev pub ll_max_payload : ℕ
ll_max_payload = 16 * 1024 * 1024

abbrev pub ll_sensor_payload_size : ℕ
ll_sensor_payload_size = 40

pub data FrameType : Type 0 where
  frame_sensor frame_video frame_thermal frame_text frame_command : FrameType

-- The `uint8_t` that stands for a frame type.
abbrev pub frame_code : FrameType → ℕ
frame_code frame_sensor = 0x01
frame_code frame_video = 0x10
frame_code frame_thermal = 0x20
frame_code frame_text = 0x30
frame_code frame_command = 0x40

pub data CmdId : Type 0 where
  cmd_fan cmd_buzzer cmd_relay cmd_led cmd_mode cmd_estop : CmdId

abbrev pub cmd_code : CmdId → ℕ
cmd_code cmd_fan = 0x01
cmd_code cmd_buzzer = 0x02
cmd_code cmd_relay = 0x03
cmd_code cmd_led = 0x04
cmd_code cmd_mode = 0x05
cmd_code cmd_estop = 0x06

-- The six bytes that `buildHeader` stores into `out`; `len` is a `uint32_t`.
unfoldable pub build_header : ℕ → ℕ → List ℕ
build_header type len =
    ll_sof
    ∷ type
    ∷ bit_and len 0xff
    ∷ bit_and (len / 2 ^ 8) 0xff
    ∷ bit_and (len / 2 ^ 16) 0xff
    ∷ bit_and (len / 2 ^ 24) 0xff
    ∷ []

-- `payload` is a pointer to `len` bytes, or null; `len` is a `size_t`.
unfoldable pub build_frame : ℕ → Option (List ℕ) → ℕ → List ℕ
build_frame type none len = build_header type (len % 2 ^ 32)
build_frame type (some payload) len =
    if len == 0
    then build_header type (len % 2 ^ 32)
    else build_header type (len % 2 ^ 32) ++ take len payload

pub record SensorData : Type 0 where
  pub timestamp_ms : ℕ
  pub temperature_01c : ℤ
  pub humidity_01 : ℕ
  pub gas_ppm : ℕ
  pub pressure_pa : ℕ
  pub distance_cm : ℕ
  pub encoder1 : ℤ
  pub encoder2 : ℤ
  pub speed_l : ℤ
  pub speed_r : ℤ
  pub servo_us : ℕ
  pub voltage_mv : ℕ
  pub mode : ℕ
  pub fault : ℕ
  pub risk_level : ℕ
  pub flags : ℕ
  pub fan : ℕ
  pub buzzer : ℕ
  pub relay : ℕ
  pub led : ℕ

-- The defaults of the struct.
abbrev pub default_sensor : SensorData
default_sensor = record {
  timestamp_ms = 0;
  temperature_01c = pos 0;
  humidity_01 = 0;
  gas_ppm = 0;
  pressure_pa = 0;
  distance_cm = 0;
  encoder1 = pos 0;
  encoder2 = pos 0;
  speed_l = pos 0;
  speed_r = pos 0;
  servo_us = 0;
  voltage_mv = 0;
  mode = 0;
  fault = 0;
  risk_level = 0;
  flags = 0;
  fan = 0;
  buzzer = 0;
  relay = 0;
  led = 0;
}

put_u8 : List ℕ → ℕ → List ℕ
put_u8 b v = b ++ (v ∷ [])

put_u16 : List ℕ → ℕ → List ℕ
put_u16 b v = b ++ (v % 2 ^ 8 ∷ (v / 2 ^ 8) % 2 ^ 8 ∷ [])

put_u32 : List ℕ → ℕ → List ℕ
put_u32 b v =
    b ++ (v % 2 ^ 8 ∷ (v / 2 ^ 8) % 2 ^ 8 ∷ (v / 2 ^ 16) % 2 ^ 8 ∷ (v / 2 ^ 24) % 2 ^ 8 ∷ [])

unfoldable pub pack_sensor : SensorData → List ℕ
unfolding put_u8 put_u16 put_u32
pack_sensor s =
    let b = put_u32 [] s.timestamp_ms in
    let b = put_u16 b (to_u16 s.temperature_01c) in
    let b = put_u16 b s.humidity_01 in
    let b = put_u16 b s.gas_ppm in
    let b = put_u32 b s.pressure_pa in
    let b = put_u16 b s.distance_cm in
    let b = put_u32 b (to_u32 s.encoder1) in
    let b = put_u32 b (to_u32 s.encoder2) in
    let b = put_u16 b (to_u16 s.speed_l) in
    let b = put_u16 b (to_u16 s.speed_r) in
    let b = put_u16 b s.servo_us in
    let b = put_u16 b s.voltage_mv in
    let b = put_u8 b s.mode in
    let b = put_u8 b s.fault in
    let b = put_u8 b s.risk_level in
    let b = put_u8 b s.flags in
    let b = put_u8 b s.fan in
    let b = put_u8 b s.buzzer in let b = put_u8 b s.relay in put_u8 b s.led

pub record Command : Type 0 where
  pub cmd_id : ℕ
  pub value : ℕ
