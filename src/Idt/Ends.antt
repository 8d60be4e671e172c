-- ===== src/Idt/Ends.antt =====
-- The dispatcher ends for every interrupt.
use lumen_os.Prelude.{ℕ, ◌≤◌, ◌&&◌, some, leb, ◌==◌, if◌then◌else◌}
use lumen_os.Port.{Device, outb}
use lumen_os.Serial.{com1}
use lumen_os.Serial.Laws.{GetsReady}
use lumen_os.Vga.{vga_width}
use lumen_os.Keyboard.{Keyboard, keyboard_handler, with_bus}
use lumen_os.Keyboard.Ends.{Ends, Ends-some, if-Ends, then-Ends, keyboard_handler-Ends}
use lumen_os.Idt.{isr_handler}

-- If the serial line gets ready in time and the fuel is at least that time and the length of a
-- row, the dispatcher ends for every vector and every state.
pub isr_handler-Ends :
    (fuel ready : ℕ) (dev : Device)
    → GetsReady dev com1 ready
    → ready ≤ fuel
    → vga_width ≤ fuel
    → (int_no : ℕ) (k : Keyboard) → Ends (isr_handler fuel dev int_no k)
unfolding isr_handler
isr_handler-Ends fuel ready dev prompt enough long int_no k =
    if-Ends (int_no == 128) (some k) _ (Ends-some k) (
      if-Ends (leb 32 int_no && leb int_no 47) _ (some k)
        (then-Ends Keyboard _
          (λ k1.
            with_bus
              (outb 0x20 0x20
                (if leb 40 int_no then outb 0xA0 0x20 k1.screen.bus else k1.screen.bus))
              k1)
          (if-Ends (int_no == 33) (keyboard_handler fuel dev k) (some k)
            (keyboard_handler-Ends fuel ready dev prompt enough long k) (Ends-some k)))
        (Ends-some k))
