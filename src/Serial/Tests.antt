-- ===== src/Serial/Tests.antt =====
-- Runs of the serial link at concrete bytes, and its theorems at inputs that meet their hypotheses.
use long.Base.{ℕ, ◌-◌, ◌^◌, ◌≡◌, refl, none, true, false, List, [], ◌∷◌, ◌++◌, some, arith}
use long.Base.Chunks.{◌>>=◌}
use mathlib.Core.List.{flatten}
use long.Handle.{Handle, opened, closed, close_handle, open_handle}
use long.Serial.Protocol.{sof1, sof2, crc8, crc_loop, crc_bits, crc_bit, build_frame}
use long.Serial.Manager.{scan, read_bytes, read_nothing}
use long.Serial.Manager.Scan.{Leaves, serial_scan-Leaves}
use long.Serial.Manager.Stream.{serial_scan-append}
use long.Serial.Manager.Front.{Message, sent, told, check}
use long.Serial.Manager.Damage.{serial_scan_damaged, serial_scan_empty}
use long.Serial.Manager.Polls.{port, poll_each, serial_poll_each-sent_all}
use long.Serial.Port.{OpenAnswers, open_port, open_port_on}

abbrev fan_on : Message
fan_on = record { cmd = 0x13; payload = 1 ∷ [] }

abbrev fan_on_bytes : List ℕ
fan_on_bytes = 0xaa ∷ 0x55 ∷ 2 ∷ 0x13 ∷ 1 ∷ 0xb9 ∷ []

sent-fan_on : sent fan_on ≡ fan_on_bytes
unfolding build_frame crc8 crc_loop crc_bits crc_bit
sent-fan_on = refl

serial_scan-Leaves_example : Leaves (7 ∷ fan_on_bytes) (scan true (7 ∷ fan_on_bytes) [])
serial_scan-Leaves_example = serial_scan-Leaves true (7 ∷ fan_on_bytes) []

serial_scan-append_example : scan true ((0xaa ∷ 0x55 ∷ []) ++ (2 ∷ 0x13 ∷ 1 ∷ 0xb9 ∷ [])) [] ≡ (
    scan true (0xaa ∷ 0x55 ∷ []) [] >>= λ (rest, out).
    scan true (rest ++ (2 ∷ 0x13 ∷ 1 ∷ 0xb9 ∷ [])) out)
serial_scan-append_example =
    serial_scan-append true (0xaa ∷ 0x55 ∷ []) (2 ∷ 0x13 ∷ 1 ∷ 0xb9 ∷ []) []

serial_scan_damaged_example :
    scan true (sof1 ∷ sof2 ∷ 2 ∷ 0x13 ∷ ((0 ∷ []) ++ (check fan_on ∷ []))) []
    ≡ scan true (sof2 ∷ 2 ∷ 0x13 ∷ ((0 ∷ []) ++ (check fan_on ∷ []))) []
serial_scan_damaged_example =
    serial_scan_damaged true fan_on (0x13 ∷ []) [] 1 0 0x13 (0 ∷ []) [] [] (omega arith)
      (omega arith, (omega arith, tt)) (omega arith) (λ e. absurd (omega arith)) refl refl

serial_scan_empty_example :
    scan true (sof1 ∷ sof2 ∷ 0 ∷ 0 ∷ 5 ∷ []) []
    ≡ scan true (5 ∷ []) ([] ++ (record { cmd = 0; payload = []; len = 2 ^ 64 - 1 } ∷ []))
serial_scan_empty_example = serial_scan_empty 5 [] []

serial_poll_each-sent_all_example :
    poll_each
      (port 3 [])
      (read_bytes 0xaa (0x55 ∷ 2 ∷ []) ∷ read_nothing ∷ read_bytes 0x13 (1 ∷ 0xb9 ∷ []) ∷ [])
      []
    ≡ some (port 3 [], told fan_on ∷ [])
unfolding build_frame crc8 crc_loop crc_bits crc_bit flatten
serial_poll_each-sent_all_example =
    serial_poll_each-sent_all 3
      (read_bytes 0xaa (0x55 ∷ 2 ∷ []) ∷ read_nothing ∷ read_bytes 0x13 (1 ∷ 0xb9 ∷ []) ∷ [])
      (fan_on ∷ []) (omega arith, tt) refl

abbrev no_attributes : OpenAnswers
no_attributes = record { device = some 5; got = true; set = false }

abbrev was_open : Handle
was_open = record { fd = some 4; calls = opened 4 ∷ [] }

open_gives_up :
    open_port was_open no_attributes 9600
    ≡ (record { fd = none; calls = closed 5 ∷ opened 5 ∷ closed 4 ∷ opened 4 ∷ [] }, (false, none))
unfolding open_port open_port_on close_handle open_handle
open_gives_up = refl
