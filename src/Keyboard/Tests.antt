-- ===== src/Keyboard/Tests.antt =====
-- The keyboard at boot, and keys at concrete states.
use lumen_os.Prelude.{inr, ◌≤◌, ◌+◌, ◌∷◌, ◌≡◌, refl, some, [], arith}
use lumen_os.Vga.{Screen, vga_pos}
use lumen_os.Vga.Place.{vga_pos-ShowsCursor, text_buffer}
use lumen_os.Keyboard.{backspace, apply_shift, Keyboard, keyboard_get_char, enqueue}
use lumen_os.Keyboard.Ring.{IsRing, IsBlank, pending}
use lumen_os.Keyboard.Interrupts as Interrupts
use lumen_os.Keyboard.Interrupts.{
  next_head, put_head, typed, advanced, asked, gets_char, computes, stores, at_start,
}
use lumen_os.Keyboard.Interrupts.Steady.{Reach-steady}
use lumen_os.Keyboard.Interrupts.Lost.{enqueue_all, put_head-loses}
use lumen_os.Memory.Words.{load16}
use lumen_os.Port.{Device}
use lumen_os.Serial.{com1}
use lumen_os.Serial.Laws.{GetsReady}
use lumen_os.Vga.Terminal.{Terminal, Shows}
use lumen_os.Keyboard.Backspace.{erase}
use lumen_os.Keyboard.Backspace.Shown.{backspace-Shows}

abbrev origin : Screen
origin = record { memory = λ a. 0; buffer = text_buffer; row = 0; col = 0; bus = [] }

abbrev booted : Keyboard
booted = record { shift = 0; km1 = λ c. 0; ring = λ i. 0; head = 0; tail = 0; screen = origin }

abbrev pressed_once : Keyboard
pressed_once = record booted { head = 1 }

abbrev wrapped : Keyboard
wrapped = record booted { head = 127; tail = 120; ring = λ i. b'x' }

booted-IsBlank : IsBlank booted
booted-IsBlank = record {
  indices = record { head_in = omega arith; tail_in = omega arith };
  zeros = λ i. refl;
}

wrapped-IsRing : IsRing wrapped
wrapped-IsRing = record { head_in = omega arith; tail_in = omega arith }

put_head-loses_example :
    (pending (put_head (next_head wrapped) (enqueue_all (b'x' ∷ b'y' ∷ []) wrapped)) ≡ 8)
    × (pending (enqueue b'a' (enqueue_all (b'x' ∷ b'y' ∷ []) wrapped)) ≡ 10)
put_head-loses_example =
    put_head-loses b'a' (b'x' ∷ b'y' ∷ []) wrapped wrapped-IsRing (omega arith)
      (omega arith, (omega arith, tt)) (omega arith)

-- A driver whose table has a letter for every key.
abbrev lettered : Keyboard
lettered = record booted { km1 = λ c. b'a' }

lettered-IsBlank : IsBlank lettered
lettered-IsBlank = record {
  indices = record { head_in = omega arith; tail_in = omega arith };
  zeros = λ i. refl;
}

gets_a : keyboard_get_char 1 (λ h port. 0) 0x1E lettered ≡ some (b'a', lettered)
unfolding keyboard_get_char apply_shift
gets_a = refl

Reach-steady_example :
    ((at_start lettered).last ≡ 0)
    × IsRing (put_head 1 lettered)
    × (pending (put_head 1 lettered) + 0 ≤ 1)
Reach-steady_example =
    Reach-steady lettered lettered-IsBlank refl
      (record (at_start lettered) { keyboard = put_head 1 lettered; spot = asked; pressed = 1 })
      (Interrupts.later
        (Interrupts.later
          (Interrupts.later Interrupts.start
            (gets_char 1 (λ h port. 0) 0x1E b'a' (at_start lettered) lettered refl gets_a))
          (computes b'a' (record (at_start lettered) { spot = typed b'a'; pressed = 1 }) refl
            (omega arith)))
        (stores 1 (record (at_start lettered) { spot = advanced 1; pressed = 1 }) refl))

-- A line that is always ready, and the cursor at the start of the second row of an empty screen.
abbrev ready_line : Device
ready_line h port = 0x20

ready_line-GetsReady : GetsReady ready_line com1 1
ready_line-GetsReady h = record { round = 0; in_time = omega arith; ready = omega arith }

abbrev second_row : Terminal
second_row = record { cells = λ r c. 0; row = 1; col = 0 }

second_row-Shows : Shows (vga_pos 0 1 origin) second_row
unfolding load16 vga_pos
second_row-Shows = record {
  on_screen = record { row_in = omega arith; col_in = omega arith; buffer_is = refl };
  row_is = refl;
  col_is = refl;
  cursor_is = (vga_pos-ShowsCursor 0 1 origin).2;
  cell_is = λ r c hr hc. refl;
}

backspace-Shows_example :
    (s' : Screen) × (backspace 80 ready_line (vga_pos 0 1 origin) ≡ some s')
    × Shows s' (erase second_row)
backspace-Shows_example =
    backspace-Shows 80 1 ready_line ready_line-GetsReady (omega arith) (omega arith)
      (vga_pos 0 1 origin) second_row second_row-Shows (inr (omega arith))
