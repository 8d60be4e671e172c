-- ===== src/Vga.antt =====
-- src/stage0/vga: the text screen. `vga_row` and `vga_col` are `short`s that are only ever set
-- from an `unsigned char`, so they are numbers below 256; a coordinate that is passed as
-- `unsigned char` wraps. A text is given by its bytes.
pub mod Place
pub mod Cells
pub mod Terminal
pub mod Typed
mod Tests
use Prim.Native.Nat.{bit_and, bit_or}
use lumen_os.Prelude.{
  ℕ, zero, suc, ◌+◌, ◌-◌, ◌*◌, ◌/◌, ◌%◌, ◌^◌, ◌≤◌, ◌<◌, ◌≡◌, refl, sym, ap, ◌∙◌, fun_ext, ◌≢◌, ◌↔◌,
  ◌⊎◌, inl, inr, Bool, true, false, ◌&&◌, ◌||◌, not, Option, none, some, List, [], ◌∷◌, ◌++◌,
  append-nil, append_assoc, arith, ltb, leb, ◌==◌, if◌then◌else◌, u8, u16, u32, ==-true, ==-false,
  ltb-true, ltb-false, ==_iff, Bool-cases, Option-cases, u8-byte, length, get_elem?, length-append,
  codes,
}
use native.Mathlib.Nat.{le_trans, add-zero, mod-eq_of_lt, add_assoc, add_comm, mod-lt}
use lumen_os.Memory.{Memory}
use lumen_os.Memory.Words.{store16}
use lumen_os.Strings.Copy.{memmove}
use lumen_os.Port.{History, Device, outb, inb}
use lumen_os.Buffer.{Grid, tbuffer_init, tbuffer_fill, tbuffer_set}

abbrev pub vga_width : ℕ
vga_width = 80

abbrev pub vga_height : ℕ
vga_height = 25

abbrev pub vga_address : ℕ
vga_address = 0xB8000

abbrev pub vga_black : ℕ
vga_black = 0

abbrev pub vga_white : ℕ
vga_white = 15

-- `VGA_COLOR`
unfoldable pub vga_color : ℕ → ℕ → ℕ
vga_color fg bg = u8 (bit_or fg (bg * 2 ^ 4))

-- `(int16_t) a` of a signed `char`, as a bit pattern.
abbrev pub sign_extend : ℕ → ℕ
sign_extend a = if ltb a 0x80 then a else a + 0xFF00

-- `VGA_CHAR`, as the `uint16_t` that it is passed as.
unfoldable pub vga_char : ℕ → ℕ → ℕ
vga_char a color = u16 (bit_or (sign_extend a) (color * 2 ^ 8))

-- The variables of the screen, the memory that holds it, and the bus.
pub record Screen : Type 0 where
  pub memory : Memory
  pub buffer : Grid
  pub row : ℕ
  pub col : ℕ
  pub bus : History

unfoldable pub vga_init : Screen → Screen
unfolding tbuffer_init
vga_init s = record s { buffer = tbuffer_init vga_address vga_width vga_height }

unfoldable pub vga_cursor_pos : ℕ → ℕ → History → History
unfolding outb
vga_cursor_pos x y h =
    let pos = u16 (y * vga_width + x) in
    let h1 = outb 0x3D4 0x0F h in
    let h2 = outb 0x3D5 (bit_and pos 0xFF) h1 in
    let h3 = outb 0x3D4 0x0E h2 in outb 0x3D5 (bit_and (pos / 2 ^ 8) 0xFF) h3

pub vga_cursor_setmode : Device → ℕ → History → History
unfolding outb inb
vga_cursor_setmode dev enable h =
    if enable == 0
    then outb 0x3D5 0x20 (outb 0x3D4 0x0A h)
    else let h1 = outb 0x3D4 0x0A h in
      let (v1, h2) = inb dev 0x3D5 h1 in
      let h3 = outb 0x3D5 (bit_or (bit_and v1 0xC0) 0) h2 in
      let h4 = outb 0x3D4 0x0B h3 in
      let (v2, h5) = inb dev 0x3D5 h4 in outb 0x3D5 (bit_or (bit_and v2 0xE0) 15) h5

unfoldable pub vga_pos : ℕ → ℕ → Screen → Screen
unfolding vga_cursor_pos
vga_pos col row s = record s {
  col = u8 col;
  row = u8 row;
  bus = vga_cursor_pos (u8 col) (u8 row) s.bus;
}

-- `for (i = 0; i < left; i++) VGA_ADDRESS[first + i] = c;`
pub fill_cells : ℕ → ℕ → ℕ → Memory → Memory
fill_cells zero first c m = m
fill_cells (suc left) first c m =
    fill_cells left (first + 1) c (store16 m (vga_address + 2 * first) c)

-- The loop over the rows from `row` on, with `left` rows left.
pub clear_rows : ℕ → ℕ → Memory → Memory
unfolding fill_cells
clear_rows zero row m = m
clear_rows (suc left) row m =
    clear_rows left (row + 1) (fill_cells vga_width (row * vga_width) (bit_or 0 (0x07 * 2 ^ 8)) m)

unfoldable pub vga_scroll : ℕ → Screen → Screen
vga_scroll lines s =
    if leb vga_height lines
    then record s {
      memory = fill_cells (vga_width * vga_height) 0 (bit_or b' ' (0x07 * 2 ^ 8)) s.memory;
    }
    else let chars_to_copy = (vga_height - lines) * vga_width in
      let m =
        (memmove s.memory vga_address (vga_address + 2 * (lines * vga_width))
          (chars_to_copy * 2)).1 in
      record s { memory = clear_rows lines (vga_height - lines) m }

unfoldable pub vga_newline : Screen → Screen
unfolding vga_pos vga_scroll
vga_newline s =
    let s1 = vga_pos 0 (s.row + 1) s in
    if ltb (vga_height - 1) s1.row
    then (let s2 = vga_scroll 1 s1 in vga_pos 0 (s2.row + 2 ^ 8 - 1) s2)
    else s1

unfoldable pub vga_set : ℕ → ℕ → ℕ → ℕ → Screen → Screen
unfolding tbuffer_set vga_char
vga_set a color col row s = record s {
  memory = tbuffer_set s.memory s.buffer (vga_char a color) (u8 col) (u8 row);
}

unfoldable pub vga_put : ℕ → ℕ → Screen → Screen
vga_put a color s =
    let s1 = if leb vga_width (s.col + 1) then vga_newline s else s in
    let s2 = vga_set a color s1.col s1.row s1 in vga_pos (s2.col + 1) s2.row s2

-- The first `length` bytes of the text; the loop never passes the end of the text.
unfoldable pub vga_write : List ℕ → ℕ → ℕ → Screen → Screen
unfolding vga_put
vga_write [] color length s = s
vga_write (a ∷ as') color zero s = s
vga_write (a ∷ as') color (suc length) s = vga_write as' color length (vga_put a color s)

unfoldable pub vga_print : List ℕ → ℕ → Screen → Screen
unfolding vga_write
vga_print a color s = vga_write a color (u16 (length a)) s

unfoldable pub vga_clear : ℕ → Screen → Screen
unfolding tbuffer_fill vga_char
vga_clear color s = record s { memory = tbuffer_fill s.memory s.buffer (vga_char 0 color) }
