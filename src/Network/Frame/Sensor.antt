-- ===== src/Network/Frame/Sensor.antt =====
-- The payload of `packSensor`, read back.
use long.Base.{ℕ, ◌+◌, ◌*◌, ◌/◌, ◌%◌, ◌^◌, ◌<◌, ◌≡◌, refl, List, length, get_or, All, arith}
use long.Base.Bytes.{IsByte}
use long.Base.Int.{
  ℤ, IsI16, IsI32, to_u16, to_u32, of_u16, of_u32, of_u16-to_u16, of_u32-to_u32, to_u16-lt,
  to_u32-lt,
}
use long.Network.Frame.{SensorData, pack_sensor, ll_sensor_payload_size}

-- Every field fits the width that the struct gives it.
pub record IsSensorData (s : SensorData) : Type 0 where
  pub timestamp_ms : s.timestamp_ms < 2 ^ 32
  pub temperature_01c : IsI16 s.temperature_01c
  pub humidity_01 : s.humidity_01 < 2 ^ 16
  pub gas_ppm : s.gas_ppm < 2 ^ 16
  pub pressure_pa : s.pressure_pa < 2 ^ 32
  pub distance_cm : s.distance_cm < 2 ^ 16
  pub encoder1 : IsI32 s.encoder1
  pub encoder2 : IsI32 s.encoder2
  pub speed_l : IsI16 s.speed_l
  pub speed_r : IsI16 s.speed_r
  pub servo_us : s.servo_us < 2 ^ 16
  pub voltage_mv : s.voltage_mv < 2 ^ 16
  pub mode : IsByte s.mode
  pub fault : IsByte s.fault
  pub risk_level : IsByte s.risk_level
  pub flags : IsByte s.flags
  pub fan : IsByte s.fan
  pub buzzer : IsByte s.buzzer
  pub relay : IsByte s.relay
  pub led : IsByte s.led

-- The layout of the payload by offsets, read as a receiver does.
abbrev u16_at : List ℕ → ℕ → ℕ
u16_at b i = get_or b i 0 + get_or b (i + 1) 0 * 2 ^ 8

abbrev u32_at : List ℕ → ℕ → ℕ
u32_at b i = u16_at b i + u16_at b (i + 2) * 2 ^ 16

pub read_sensor : List ℕ → SensorData
read_sensor b = record {
  timestamp_ms = u32_at b 0;
  temperature_01c = of_u16 (u16_at b 4);
  humidity_01 = u16_at b 6;
  gas_ppm = u16_at b 8;
  pressure_pa = u32_at b 10;
  distance_cm = u16_at b 14;
  encoder1 = of_u32 (u32_at b 16);
  encoder2 = of_u32 (u32_at b 20);
  speed_l = of_u16 (u16_at b 24);
  speed_r = of_u16 (u16_at b 26);
  servo_us = u16_at b 28;
  voltage_mv = u16_at b 30;
  mode = get_or b 32 0;
  fault = get_or b 33 0;
  risk_level = get_or b 34 0;
  flags = get_or b 35 0;
  fan = get_or b 36 0;
  buzzer = get_or b 37 0;
  relay = get_or b 38 0;
  led = get_or b 39 0;
}

-- The payload is 40 bytes long, whatever the data.
pub length-pack_sensor : (s : SensorData) → length (pack_sensor s) ≡ ll_sensor_payload_size
unfolding pack_sensor
length-pack_sensor s = refl

pack_sensor-IsByte : (s : SensorData) → IsSensorData s → All IsByte (pack_sensor s)
unfolding pack_sensor
pack_sensor-IsByte s h = omega arith

abbrev joined16 : ℕ → ℕ
joined16 v = v % 2 ^ 8 + v / 2 ^ 8 % 2 ^ 8 * 2 ^ 8

abbrev joined32 : ℕ → ℕ
joined32 v = joined16 v + (v / 2 ^ 16 % 2 ^ 8 + v / 2 ^ 24 % 2 ^ 8 * 2 ^ 8) * 2 ^ 16

word16 : (v : ℕ) → v < 2 ^ 16 → joined16 v ≡ v
word16 v h = omega arith

word32 : (v : ℕ) → v < 2 ^ 32 → joined32 v ≡ v
word32 v h = omega arith

signed16 : (z : ℤ) → IsI16 z → of_u16 (joined16 (to_u16 z)) ≡ z
signed16 z h = rw (word16 (to_u16 z) (to_u16-lt z)) (of_u16-to_u16 z h)

signed32 : (z : ℤ) → IsI32 z → of_u32 (joined32 (to_u32 z)) ≡ z
signed32 z h = rw (word32 (to_u32 z) (to_u32-lt z)) (of_u32-to_u32 z h)

-- A receiver that reads the documented offsets gets every field back, the signed ones too, if
-- each field fits its width.
pub read_sensor-pack_sensor : (s : SensorData) → IsSensorData s → read_sensor (pack_sensor s) ≡ s
unfolding pack_sensor read_sensor
read_sensor-pack_sensor s h = λ i. record {
  timestamp_ms = word32 s.timestamp_ms h.timestamp_ms i;
  temperature_01c = signed16 s.temperature_01c h.temperature_01c i;
  humidity_01 = word16 s.humidity_01 h.humidity_01 i;
  gas_ppm = word16 s.gas_ppm h.gas_ppm i;
  pressure_pa = word32 s.pressure_pa h.pressure_pa i;
  distance_cm = word16 s.distance_cm h.distance_cm i;
  encoder1 = signed32 s.encoder1 h.encoder1 i;
  encoder2 = signed32 s.encoder2 h.encoder2 i;
  speed_l = signed16 s.speed_l h.speed_l i;
  speed_r = signed16 s.speed_r h.speed_r i;
  servo_us = word16 s.servo_us h.servo_us i;
  voltage_mv = word16 s.voltage_mv h.voltage_mv i;
  mode = s.mode;
  fault = s.fault;
  risk_level = s.risk_level;
  flags = s.flags;
  fan = s.fan;
  buzzer = s.buzzer;
  relay = s.relay;
  led = s.led;
}
