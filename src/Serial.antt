-- ===== src/Serial.antt =====
-- src/stage0/serial/serial.c. The wait for the transmitter runs on fuel and gives `none` when that
-- runs out. A string is given by its bytes before the zero.
pub mod Laws
mod Tests
use Prim.Native.Nat.{bit_and}
use lumen_os.Prelude.{
  ℕ, zero, suc, ◌+◌, ◌==◌, List, [], ◌∷◌, Option, none, some, true, false, if◌then◌else◌,
}
use lumen_os.Port.{History, Device, outb, inb}

abbrev pub com1 : ℕ
com1 = 0x3F8

pub serial_init : ℕ → History → History
unfolding outb
serial_init port h =
    let h1 = outb (port + 1) 0x00 h in
    let h2 = outb (port + 3) 0x80 h1 in
    let h3 = outb (port + 0) 0x03 h2 in
    let h4 = outb (port + 1) 0x00 h3 in
    let h5 = outb (port + 3) 0x03 h4 in let h6 = outb (port + 2) 0xC7 h5 in outb (port + 4) 0x0B h6

pub serial_is_transmit_ready : Device → ℕ → History → ℕ × History
unfolding inb
serial_is_transmit_ready dev port h = let (v, h') = inb dev (port + 5) h in (bit_and v 0x20, h')

-- `while (!serial_is_transmit_ready(port));`
pub await_ready : ℕ → Device → ℕ → History → Option History
unfolding serial_is_transmit_ready
await_ready zero dev port h = none
await_ready (suc f) dev port h =
    let (ready, h') = serial_is_transmit_ready dev port h in
    elim (ready == 0) [ true ↦ await_ready f dev port h' | false ↦ some h' ]

infixl 5 ◌>>=◌
abbrev pub ◌>>=◌ : Option History → (History → Option History) → Option History
none >>= k = none
some h >>= k = k h

unfoldable pub serial_write_char : ℕ → Device → ℕ → ℕ → History → Option History
unfolding await_ready outb
serial_write_char fuel dev c port h = await_ready fuel dev port h >>= λ h'. some (outb port c h')

unfoldable pub serial_write : ℕ → Device → List ℕ → ℕ → History → Option History
unfolding serial_write_char
serial_write fuel dev [] port h = some h
serial_write fuel dev (c ∷ cs) port h = do
  h1 ← if c == b'\n' then serial_write_char fuel dev b'\r' port h else some h
  h2 ← serial_write_char fuel dev c port h1
  serial_write fuel dev cs port h2
