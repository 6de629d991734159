-- ===== src/Serial/Protocol.antt =====
-- include/modules/serial/Protocol.h: frames [0xAA][0x55][LEN][CMD][payload][CRC8].
pub mod Crc
use long.Base.{
  ℕ, zero, suc, ◌+◌, ◌*◌, ◌%◌, ◌^◌, List, [], ◌∷◌, ◌++◌, Option, none, some, take, drop,
  if◌then◌else◌, ◌==◌, ltb,
}
use Prim.Native.Nat.{bit_and, bit_xor}

abbrev pub sof1 : ℕ
sof1 = 0xaa

abbrev pub sof2 : ℕ
sof2 = 0x55

pub data CmdByte : Type 0 where
  cmd_set_speed cmd_set_servo cmd_set_fan cmd_set_buzzer cmd_set_relay cmd_set_led cmd_estop
        cmd_reset :
      CmdByte

abbrev pub cmd_byte : CmdByte → ℕ
cmd_byte cmd_set_speed = 0x11
cmd_byte cmd_set_servo = 0x12
cmd_byte cmd_set_fan = 0x13
cmd_byte cmd_set_buzzer = 0x14
cmd_byte cmd_set_relay = 0x15
cmd_byte cmd_set_led = 0x16
cmd_byte cmd_estop = 0x17
cmd_byte cmd_reset = 0x18

pub data ReportByte : Type 0 where
  rpt_sensors rpt_encoders rpt_ack : ReportByte

abbrev pub report_byte : ReportByte → ℕ
report_byte rpt_sensors = 0x21
report_byte rpt_encoders = 0x22
report_byte rpt_ack = 0x2f

-- One round of the inner loop.
unfoldable pub crc_bit : ℕ → ℕ
crc_bit crc = if bit_and crc 0x80 == 0 then (crc * 2) % 2 ^ 8 else bit_xor (crc * 2) 0x07 % 2 ^ 8

unfoldable pub crc_bits : ℕ → ℕ → ℕ
crc_bits zero crc = crc
crc_bits (suc n) crc = crc_bits n (crc_bit crc)

unfoldable pub crc_loop : ℕ → List ℕ → ℕ
crc_loop crc [] = crc
crc_loop crc (b ∷ bytes) = crc_loop (crc_bits 8 (bit_xor crc b)) bytes

unfoldable pub crc8 : List ℕ → ℕ
crc8 bytes = crc_loop 0 bytes

-- `payload` is null or points to `payload_len` bytes; `payload_len` is a `uint8_t`.
unfoldable pub build_frame : ℕ → Option (List ℕ) → ℕ → List ℕ
build_frame cmd none payload_len =
    let f = sof1 ∷ sof2 ∷ (payload_len + 1) % 2 ^ 8 ∷ cmd ∷ [] in f ++ (crc8 (drop 2 f) ∷ [])
build_frame cmd (some payload) payload_len =
    let f = sof1 ∷ sof2 ∷ (payload_len + 1) % 2 ^ 8 ∷ cmd ∷ [] in
    let f' = if ltb 0 payload_len then f ++ take payload_len payload else f in
    f' ++ (crc8 (drop 2 f') ∷ [])
