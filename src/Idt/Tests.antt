-- ===== src/Idt/Tests.antt =====
-- The installed gates, and the dispatcher at a state of the keyboard.
use lumen_os.Prelude.{ℕ, ◌+◌, ◌*◌, ◌≡◌, refl, true, false, some, [], ◌∷◌, arith}
use lumen_os.Port.{Device, out8, History, in8, inb, outb}
use lumen_os.Vga.{Screen}
use lumen_os.Vga.Place.{text_buffer}
use lumen_os.Keyboard.{Keyboard, with_bus, keyboard_handler, keyboard_get_char, enqueue}
use lumen_os.Idt.{Idt, isr_handler, isr_pic_remap, pic1_command, pic1_data, pic2_command, pic2_data}
use lumen_os.Idt.Gates.{LeadsTo, present, handled, after_install, isr_install_lem}
use lumen_os.Idt.Dispatch.{isr_handler_twice, Pic, pic, isr_pic_remap_lem}

abbrev no_gates : Idt
no_gates n = record { base_lo = 0; sel = 0; always0 = 0; flags = 0; base_hi = 0 }

abbrev stub : ℕ → ℕ
stub n = 0x10_0000 + 16 * n

isr_install_example :
    (true ≡ true → LeadsTo (stub 33) (after_install 0x6000 stub no_gates [] 33))
    × (handled 33 ≡ false → present (after_install 0x6000 stub no_gates [] 33) ≡ false)
isr_install_example = isr_install_lem 0x6000 stub no_gates [] 33 (omega arith) (omega arith)

abbrev fresh_pic : Pic
fresh_pic = record { phase = 0; vector = 0; cascade = 0; mode = 0; mask = 0 }

isr_pic_remap_example :
    (pic pic1_command pic1_data fresh_pic (isr_pic_remap [])
      ≡ record { phase = 0; vector = 0x20; cascade = 4; mode = 1; mask = 0xFD })
    × (pic pic2_command pic2_data fresh_pic (isr_pic_remap [])
        ≡ record { phase = 0; vector = 0x28; cascade = 2; mode = 1; mask = 0xFF })
isr_pic_remap_example = isr_pic_remap_lem fresh_pic fresh_pic []

abbrev origin : Screen
origin = record { memory = λ a. 0; buffer = text_buffer; row = 0; col = 0; bus = [] }

abbrev booted : Keyboard
booted = record { shift = 0; km1 = λ c. 0; ring = λ i. 0; head = 0; tail = 0; screen = origin }

-- The keyboard gives the code of the shift key.
abbrev shift_key : Device
shift_key h port = 0x2A

abbrev shift_held : Keyboard
shift_held = record booted {
  shift = 255;
  screen = record origin { bus = out8 0x20 0x20 ∷ out8 0x20 0x20 ∷ in8 0x60 ∷ [] };
}

shift_pressed : isr_handler 1 shift_key 33 booted ≡ some shift_held
unfolding isr_handler keyboard_handler keyboard_get_char enqueue with_bus inb outb
shift_pressed = refl

isr_handler_twice_example :
    (h : History) × (shift_held.screen.bus ≡ out8 0x20 0x20 ∷ out8 0x20 0x20 ∷ h)
isr_handler_twice_example = isr_handler_twice 1 shift_key booted shift_held shift_pressed
