-- ===== src/Vga/Place.antt =====
-- Where the cursor of the screen can be, and where the hardware shows it.
use lumen_os.Prelude.{
  zero, suc, length, List, leb, ◌-◌, ℕ, ◌+◌, ◌*◌, ◌/◌, ◌^◌, ◌<◌, ◌≡◌, refl, [], ◌∷◌, arith, ltb,
  ◌==◌, if◌then◌else◌, u8, u16,
}
use lumen_os.Prelude.Bits.{bit_and_mask}
use lumen_os.Port.{History, out8, in8, out16, in16, outb}
use lumen_os.Buffer.{Grid}
use lumen_os.Vga.{
  vga_write, vga_print, vga_width, vga_height, vga_address, Screen, vga_cursor_pos, vga_pos,
  vga_scroll, vga_newline, vga_set, vga_put,
}

-- The buffer that `vga_init` sets up.
abbrev pub text_buffer : Grid
text_buffer = record { address = vga_address; width = vga_width; height = vga_height }

-- The cursor is on the screen, and the buffer is set up.
pub record IsOnScreen (s : Screen) : Type 0 where
  pub row_in : s.row < vga_height
  pub col_in : s.col < vga_width
  pub buffer_is : s.buffer ≡ text_buffer

-- The registers of the cathode ray tube controller: the index at port 0x3D4, the data at 0x3D5; 14
-- and 15 are the two bytes of the cursor's place.
pub record Crtc : Type 0 where
  pub index : ℕ
  pub high : ℕ
  pub low : ℕ

abbrev pub on_write : ℕ → ℕ → Crtc → Crtc
on_write port v c =
    if port == 0x3D4
    then record c { index = v }
    else if port == 0x3D5
    then if c.index == 14
      then record c { high = v }
      else if c.index == 15
      then record c { low = v }
      else c
    else c

-- The controller after the accesses of a history.
abbrev pub crtc : History → Crtc
crtc [] = record { index = 0; high = 0; low = 0 }
crtc (out8 port v ∷ h) = on_write port v (crtc h)
crtc (in8 port ∷ h) = crtc h
crtc (out16 port v ∷ h) = crtc h
crtc (in16 port ∷ h) = crtc h

-- The hardware cursor is at the cell of the screen's variables.
abbrev pub ShowsCursor : Screen → Type 0
ShowsCursor s = (crtc s.bus).high * 2 ^ 8 + (crtc s.bus).low ≡ s.row * vga_width + s.col

cursor_pos_lem :
    (x y : ℕ) (h : History)
    → x < 256
    → y < 256
    → (crtc (vga_cursor_pos x y h)).high * 2 ^ 8 + (crtc (vga_cursor_pos x y h)).low
      ≡ y * vga_width + x
unfolding vga_cursor_pos outb
cursor_pos_lem x y h hx hy =
    rw (bit_and_mask 8 (u16 (y * vga_width + x)), bit_and_mask 8 (u16 (y * vga_width + x) / 2 ^ 8))
      (omega arith)

-- After `vga_pos` the variables are the coordinates modulo 256, and the hardware cursor is shown
-- at them.
pub vga_pos-ShowsCursor :
    (col row : ℕ) (s : Screen)
    → ((vga_pos col row s).col ≡ u8 col)
      × ((vga_pos col row s).row ≡ u8 row)
      × ShowsCursor (vga_pos col row s)
unfolding vga_pos
vga_pos-ShowsCursor col row s =
    (refl, refl, cursor_pos_lem (u8 col) (u8 row) s.bus (omega arith) (omega arith))

scroll-keeps :
    (n : ℕ) (s : Screen)
    → ((vga_scroll n s).row ≡ s.row)
      × ((vga_scroll n s).col ≡ s.col)
      × ((vga_scroll n s).buffer ≡ s.buffer)
unfolding vga_scroll
scroll-keeps n s = ground arith

-- `vga_newline` goes to column 0 of the next row; on the last row the screen scrolls and the row
-- stays.
pub vga_newline_place :
    (s : Screen)
    → IsOnScreen s
    → ((vga_newline s).col ≡ 0)
      × ((vga_newline s).row ≡ (if ltb (s.row + 1) vga_height then s.row + 1 else s.row))
      × ((vga_newline s).buffer ≡ s.buffer)
unfolding vga_newline vga_pos
vga_newline_place s v = ground (arith, scroll-keeps 1 (vga_pos 0 (s.row + 1) s))

-- `vga_newline` keeps the cursor on the screen and shows it.
pub vga_newline-IsOnScreen : (s : Screen) → IsOnScreen s → IsOnScreen (vga_newline s)
vga_newline-IsOnScreen s v = ground (arith, vga_newline_place s)

-- `vga_put` keeps the cursor on the screen.
pub vga_put-IsOnScreen : (a color : ℕ) (s : Screen) → IsOnScreen s → IsOnScreen (vga_put a color s)
unfolding vga_put vga_set vga_pos
vga_put-IsOnScreen a color s v = ground (arith, vga_newline-IsOnScreen s, vga_newline_place s)

-- `vga_newline` and `vga_put` leave the hardware cursor at the variables.
pub vga_newline-ShowsCursor : (s : Screen) → IsOnScreen s → ShowsCursor (vga_newline s)
unfolding vga_newline
vga_newline-ShowsCursor s v = ground (
  arith,
  vga_pos-ShowsCursor 0 (s.row + 1) s,
  vga_pos-ShowsCursor 0 ((vga_scroll 1 (vga_pos 0 (s.row + 1) s)).row + 2 ^ 8 - 1)
      (vga_scroll 1 (vga_pos 0 (s.row + 1) s)),
)

pub vga_put-ShowsCursor : (a color : ℕ) (s : Screen) → ShowsCursor (vga_put a color s)
unfolding vga_put
vga_put-ShowsCursor a color s =
    let s1 : Screen = if leb vga_width (s.col + 1) then vga_newline s else s in
    let s2 : Screen = vga_set a color s1.col s1.row s1 in
    (vga_pos-ShowsCursor (s2.col + 1) s2.row s2).2

vga_write_keeps :
    (as' : List ℕ) (color n : ℕ) (s : Screen)
    → IsOnScreen s
    → ShowsCursor s
    → IsOnScreen (vga_write as' color n s) × ShowsCursor (vga_write as' color n s)
unfolding vga_write
vga_write_keeps [] color n s v shown = (v, shown)
vga_write_keeps (a ∷ as') color zero s v shown = (v, shown)
vga_write_keeps (a ∷ as') color (suc n) s v shown =
    vga_write_keeps as' color n (vga_put a color s) (vga_put-IsOnScreen a color s v)
      (vga_put-ShowsCursor a color s)

-- Printing any text in any color keeps the cursor inside the 80 columns and 25 rows, keeps the
-- buffer, and leaves the hardware cursor at the variables.
pub vga_print_keeps :
    (text : List ℕ) (color : ℕ) (s : Screen)
    → IsOnScreen s
    → ShowsCursor s
    → IsOnScreen (vga_print text color s) × ShowsCursor (vga_print text color s)
unfolding vga_print
vga_print_keeps text color s v shown = vga_write_keeps text color (u16 (length text)) s v shown
