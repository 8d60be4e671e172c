-- ===== src/Keyboard.antt =====
-- src/stage0/io/kbd_mouse.c: the keyboard. Its buffer and its table are functions of the index.
-- `cli` and `sti` in `keyboard_getc` and the text that `keyboard_handler` formats into a local
-- buffer and never reads have no effect here. A wait or a loop that runs out of fuel gives
-- `none`.
pub mod Ring
pub mod Keys
pub mod Typed
pub mod Interrupts
pub mod Ends
pub mod Backspace
mod Tests
use Prim.Native.Nat.{bit_and}
use lumen_os.Prelude.{
  ℕ, zero, suc, ◌+◌, ◌-◌, ◌*◌, ◌/◌, ◌%◌, ◌^◌, ◌≤◌, ◌<◌, ◌≡◌, refl, sym, ap, ◌∙◌, fun_ext, ◌≢◌, ◌↔◌,
  ◌⊎◌, inl, inr, Bool, true, false, ◌&&◌, ◌||◌, not, Option, none, some, List, [], ◌∷◌, ◌++◌,
  append-nil, append_assoc, arith, ltb, leb, ◌==◌, if◌then◌else◌, u8, u16, u32, ==-true, ==-false,
  ltb-true, ltb-false, ==_iff, Bool-cases, Option-cases, u8-byte, length, get_elem?, length-append,
  codes,
}
use native.Mathlib.Nat.{le_trans, add-zero, mod-eq_of_lt, add_assoc, add_comm, mod-lt}
use lumen_os.Port.{History, Device, inb, outb}
use lumen_os.Serial.{serial_write_char, com1}
use lumen_os.Buffer.{tbuffer_get}
use lumen_os.Vga.{vga_width, vga_white, vga_black, vga_color, Screen, vga_pos, vga_newline, vga_set}

abbrev pub kbd_buffer_size : ℕ
kbd_buffer_size = 128

-- The variables of the driver, and the screen with the bus.
pub record Keyboard : Type 0 where
  pub shift : ℕ
  pub km1 : ℕ → ℕ
  pub ring : ℕ → ℕ
  pub head : ℕ
  pub tail : ℕ
  pub screen : Screen

-- The assignments of `keyboard_init`, in order.
abbrev pub key_table : List (ℕ × ℕ)
key_table =
    (0x02, b'1')
    ∷ (0x03, b'2')
    ∷ (0x04, b'3')
    ∷ (0x05, b'4')
    ∷ (0x06, b'5')
    ∷ (0x07, b'6')
    ∷ (0x08, b'7')
    ∷ (0x09, b'8')
    ∷ (0x0a, b'9')
    ∷ (0x0b, b'0')
    ∷ (0x0c, b'-')
    ∷ (0x0d, b'=')
    ∷ (0x0e, 8)
    ∷ (0x0f, 9)
    ∷ (0x10, b'q')
    ∷ (0x11, b'w')
    ∷ (0x12, b'e')
    ∷ (0x13, b'r')
    ∷ (0x14, b't')
    ∷ (0x15, b'y')
    ∷ (0x16, b'u')
    ∷ (0x17, b'i')
    ∷ (0x18, b'o')
    ∷ (0x19, b'p')
    ∷ (0x1a, b'[')
    ∷ (0x1b, b']')
    ∷ (0x1c, 0)
    ∷ (0x1d, 0)
    ∷ (0x1e, b'a')
    ∷ (0x1f, b's')
    ∷ (0x20, b'd')
    ∷ (0x21, b'f')
    ∷ (0x22, b'g')
    ∷ (0x23, b'h')
    ∷ (0x24, b'j')
    ∷ (0x25, b'k')
    ∷ (0x26, b'l')
    ∷ (0x27, b';')
    ∷ (0x28, 0x27)
    ∷ (0x29, b'`')
    ∷ (0x2a, 0)
    ∷ (0x2b, 0x5C)
    ∷ (0x2c, b'z')
    ∷ (0x2d, b'x')
    ∷ (0x2e, b'c')
    ∷ (0x2f, b'v')
    ∷ (0x30, b'b')
    ∷ (0x31, b'n')
    ∷ (0x32, b'm')
    ∷ (0x33, b',')
    ∷ (0x34, b'.')
    ∷ (0x35, b'/')
    ∷ (0x36, 0)
    ∷ (0x37, b'*')
    ∷ (0x38, 0)
    ∷ (0x39, b' ')
    ∷ (0x3a, 0)
    ∷ (0x3b, 0)
    ∷ (0x3c, 0)
    ∷ (0x3d, 0)
    ∷ (0x3e, 0)
    ∷ (0x3f, 0)
    ∷ (0x40, 0)
    ∷ (0x41, 0)
    ∷ (0x42, 0)
    ∷ (0x43, 0)
    ∷ (0x44, 0)
    ∷ (0x45, 0)
    ∷ (0x46, 0)
    ∷ (0x47, b'7')
    ∷ (0x48, 0)
    ∷ (0x49, b'9')
    ∷ (0x4a, b'-')
    ∷ (0x4b, 0)
    ∷ (0x4c, b'5')
    ∷ (0x4d, 0)
    ∷ (0x4e, b'+')
    ∷ (0x4f, b'1')
    ∷ (0x50, 0)
    ∷ (0x51, b'3')
    ∷ (0x52, b'0')
    ∷ (0x53, b'.')
    ∷ []

pub assign : List (ℕ × ℕ) → (ℕ → ℕ) → ℕ → ℕ
assign [] t x = t x
assign ((i, v) ∷ rest) t x = assign rest (λ y. if y == i then v else t y) x

unfoldable pub keyboard_init : Keyboard → Keyboard
unfolding assign
keyboard_init k = record k { km1 = assign key_table k.km1 }

pub is_letter : ℕ → Bool
is_letter c = (leb b'A' c && leb c b'Z') || (leb b'a' c && leb c b'z')

pub is_number : ℕ → Bool
is_number c = leb b'0' c && leb c b'9'

-- The `switch` of `apply_shift`.
pub shifted_digit : ℕ → ℕ
shifted_digit d =
    if d == 0
    then b')'
    else if d == 1
    then b'!'
    else if d == 2
    then b'@'
    else if d == 3
    then b'#'
    else if d == 4
    then b'$'
    else if d == 5
    then b'%'
    else if d == 6
    then b'^'
    else if d == 7
    then b'&'
    else if d == 8
    then b'*'
    else if d == 9
    then b'('
    else 0

pub apply_shift : ℕ → ℕ → ℕ
apply_shift shift c =
    if shift == 0
    then c
    else if is_letter c
    then u8 (c + 2 ^ 8 - 0x20)
    else if is_number c
    then shifted_digit (c - 0x30)
    else 0

-- `(char)(tbuffer_get(&vga_buffer, vga_col, vga_row) & 0x00FF)`
pub char_here : Screen → ℕ
char_here s = bit_and (tbuffer_get s.memory s.buffer s.col s.row) 0xFF

-- One place left on the screen; the column wraps as an `unsigned char`.
pub step_left : Screen → Screen
step_left s = vga_pos (s.col + 2 ^ 8 - 1) s.row s

-- The loop that looks for the end of the text on a row.
pub seek_text : ℕ → Screen → Option Screen
unfolding char_here step_left
seek_text zero s = none
seek_text (suc f) s =
    let s1 = step_left s in
    elim (char_here s == 0) [
      | false ↦ some s
      | true ↦ elim (s1.col == 0) [ true ↦ some (step_left s1) | false ↦ seek_text f s1 ]
    ]

-- The `else` branch of the backspace key, from column 0.
pub backspace_row : ℕ → Device → Screen → Option Screen
unfolding seek_text
backspace_row fuel dev s =
    let s1 = vga_pos (vga_width - 1) (s.row + 2 ^ 8 - 1) s in
    elim (serial_write_char fuel dev (char_here s1) com1 s1.bus) [
      | none ↦ none
      | some bus' ↦
          let s2 : Screen = record s1 { bus = bus' } in
          if char_here s2 == 0
          then (elim (seek_text fuel s2) [
            | none ↦ none
            | some s3 ↦ some (vga_pos (s3.col + 1) s3.row s3)
          ])
          else some s2
    ]

pub backspace : ℕ → Device → Screen → Option Screen
unfolding backspace_row
backspace fuel dev s =
    let moved =
      if ltb 0 s.col then some (vga_pos (s.col - 1) s.row s) else backspace_row fuel dev s in
    elim moved [
      | none ↦ none
      | some s1 ↦ some (vga_set 0 (vga_color vga_white vga_black) s1.col s1.row s1)
    ]

unfoldable pub keyboard_get_char : ℕ → Device → ℕ → Keyboard → Option (ℕ × Keyboard)
keyboard_get_char fuel dev scancode k =
    let s = k.screen in
    if scancode == 0x2A
    then some (0, record k { shift = 255 })
    else if scancode == 0x36
    then some (0, record k { shift = 255 })
    else if scancode == 0xAA
    then some (0, record k { shift = 0 })
    else if scancode == 0xB6
    then some (0, record k { shift = 0 })
    else if scancode == 0x1C
    then some (0, record k { screen = vga_newline s })
    else if scancode == 0x0E
    then (elim (backspace fuel dev s) [
      | none ↦ none
      | some s' ↦ some (0, record k { screen = s' })
    ])
    else if scancode == 0x48
    then some (0, record k { screen = vga_pos s.col (s.row + 2 ^ 8 - 1) s })
    else if scancode == 0x4B
    then some (0, record k { screen = vga_pos (s.col + 2 ^ 8 - 1) s.row s })
    else if scancode == 0x4D
    then some (0, record k { screen = vga_pos (s.col + 1) s.row s })
    else if scancode == 0x50
    then some (0, record k { screen = vga_pos s.col (s.row + 1) s })
    else some (apply_shift k.shift (k.km1 scancode), k)

-- What `keyboard_handler` does with the character: only `kbd_head` moves.
unfoldable pub enqueue : ℕ → Keyboard → Keyboard
enqueue c k =
    let next = u8 ((k.head + 1) % kbd_buffer_size) in
    if c == 0 then k else if next == k.tail then k else record k { head = next }

unfoldable pub with_bus : History → Keyboard → Keyboard
with_bus h k = let s : Screen = k.screen in record k { screen = record s { bus = h } }

unfoldable pub keyboard_handler : ℕ → Device → Keyboard → Option Keyboard
keyboard_handler fuel dev k =
    let (scancode, h) = inb dev 0x60 k.screen.bus in
    elim (keyboard_get_char fuel dev scancode (with_bus h k)) [
      | none ↦ none
      | some (c, k1) ↦ let k2 = enqueue c k1 in some (with_bus (outb 0x20 0x20 k2.screen.bus) k2)
    ]

pub keyboard_getc : Keyboard → ℕ × Keyboard
keyboard_getc k =
    if k.head == k.tail
    then (0, k)
    else (k.ring k.tail, record k { tail = u8 ((k.tail + 1) % kbd_buffer_size) })
