-- ===== src/Serial/Tests.antt =====
-- The serial line at a device that is busy once before each byte.
use lumen_os.Prelude.{[], ◌∷◌, arith, codes}
use lumen_os.Port.{Device, out8, in8, out16, in16}
use lumen_os.Serial.{com1, serial_write}
use lumen_os.Serial.Laws.{Sends, GetsReady, serial_write-Sends}

-- Busy unless the last access polled it.
abbrev slow_line : Device
slow_line [] port = 0
slow_line (in8 q ∷ h) port = 0x20
slow_line (out8 q v ∷ h) port = 0
slow_line (out16 q v ∷ h) port = 0
slow_line (in16 q ∷ h) port = 0

slow_line-GetsReady : GetsReady slow_line com1 2
slow_line-GetsReady h = record { round = 1; in_time = omega arith; ready = omega arith }

serial_write_example :
    Sends 0x3F8 []
      (b'h' ∷ b'i' ∷ b'\r' ∷ b'\n' ∷ [])
      (serial_write 2 slow_line (codes "hi\n") com1 [])
serial_write_example =
    serial_write-Sends 2 slow_line com1 2 slow_line-GetsReady (omega arith) (codes "hi\n") []
      (omega arith, (omega arith, (omega arith, tt)))
