-- ===== src/Vga/Terminal.antt =====
-- The screen as a terminal: a grid of characters with a cursor, without addresses, bytes and
-- ports.
use lumen_os.Prelude.{
  ℕ, ◌+◌, ◌^◌, ◌<◌, ◌≡◌, ◌∙◌, inl, inr, ◌&&◌, List, [], ◌∷◌, arith, ltb, leb, ◌==◌, if◌then◌else◌,
  Bool-cases, length,
}
use native.Mathlib.Nat.{mod-eq_of_lt}
use lumen_os.Vga.{
  vga_width, vga_height, Screen, vga_char, vga_put, vga_newline, vga_write, vga_print,
}
use lumen_os.Vga.Place.{
  ShowsCursor, vga_newline-ShowsCursor, vga_put-ShowsCursor, IsOnScreen, vga_newline-IsOnScreen,
  vga_newline_place, vga_put-IsOnScreen,
}
use lumen_os.Vga.Cells.{cell, put_from, vga_newline_cells, vga_put-cell}

pub record Terminal : Type 0 where
  pub cells : ℕ → ℕ → ℕ
  pub row : ℕ
  pub col : ℕ

-- Down by one line; on the last line all lines move up, and the last is cleared.
pub next_line : Terminal → Terminal
next_line t =
    if ltb (t.row + 1) vga_height then record t { row = t.row + 1; col = 0 } else record t {
      cells = λ r c. if ltb (r + 1) vga_height then t.cells (r + 1) c else 0x700;
      col = 0;
    }

-- The last column stays empty.
abbrev before_char : Terminal → Terminal
before_char t = if leb vga_width (t.col + 1) then next_line t else t

abbrev with_char : ℕ → Terminal → Terminal
with_char w t = record t {
  cells = λ r c. if r == t.row && c == t.col then w else t.cells r c;
  col = t.col + 1;
}

pub type_char : ℕ → ℕ → Terminal → Terminal
type_char a color t = with_char (vga_char a color) (before_char t)

pub type_text : List ℕ → ℕ → Terminal → Terminal
type_text [] color t = t
type_text (a ∷ as') color t = type_text as' color (type_char a color t)

-- The screen is a picture of the terminal, and the hardware shows the cursor there.
pub record Shows (s : Screen) (t : Terminal) : Type 0 where
  pub on_screen : IsOnScreen s
  pub row_is : s.row ≡ t.row
  pub col_is : s.col ≡ t.col
  pub cursor_is : ShowsCursor s
  pub cell_is : (r c : ℕ) → r < vga_height → c < vga_width → cell s.memory r c ≡ t.cells r c

-- A new line on the screen is one on the terminal.
pub vga_newline-Shows :
    (s : Screen) (t : Terminal) → Shows s t → Shows (vga_newline s) (next_line t)
unfolding next_line
vga_newline-Shows s t v = record {
  on_screen = vga_newline-IsOnScreen s v.on_screen;
  row_is = ground (arith, vga_newline_place s v.on_screen);
  col_is = ground (arith, vga_newline_place s v.on_screen);
  cursor_is = vga_newline-ShowsCursor s v.on_screen;
  cell_is = λ r c hr hc.
      ground (arith, vga_newline_cells r c s v.on_screen hr hc, v.cell_is r c, v.cell_is (r + 1) c);
}

put_from-Shows : (s : Screen) (t : Terminal) → Shows s t → Shows (put_from s) (before_char t)
put_from-Shows s t v = elim (Bool-cases (leb vga_width (s.col + 1))) [
  | inl last ↦ rw (last, rw v.col_is at last) (vga_newline-Shows s t v)
  | inr inside ↦ rw (inside, rw v.col_is at inside) v
]

-- A character on the screen is one on the terminal.
pub vga_put-Shows :
    (a color : ℕ) (s : Screen) (t : Terminal)
    → Shows s t
    → Shows (vga_put a color s) (type_char a color t)
unfolding type_char
vga_put-Shows a color s t v =
    let w : Shows (put_from s) (before_char t) = put_from-Shows s t v in
    let place = vga_put-cell a color 0 0 s v.on_screen (omega arith) (omega arith) in
    record {
      on_screen = vga_put-IsOnScreen a color s v.on_screen;
      row_is = place.1 ∙ w.row_is;
      col_is = omega (arith, place.2, w.col_is);
      cursor_is = vga_put-ShowsCursor a color s;
      cell_is = λ r c hr hc.
          (vga_put-cell a color r c s v.on_screen hr hc).0
          ∙ ground (arith, w.row_is, w.col_is, w.cell_is r c hr hc);
    }

vga_write-Shows :
    (as' : List ℕ) (color : ℕ) (s : Screen) (t : Terminal)
    → Shows s t
    → Shows (vga_write as' color (length as') s) (type_text as' color t)
unfolding vga_write type_text
vga_write-Shows [] color s t v = v
vga_write-Shows (a ∷ as') color s t v =
    vga_write-Shows as' color (vga_put a color s) (type_char a color t)
      (vga_put-Shows a color s t v)

-- If the screen is a picture of a terminal, with the hardware cursor at the terminal's, printing
-- a text of fewer than 2^16 bytes in a color makes it a picture of the terminal after typing the
-- text, with the hardware cursor there.
pub vga_print-Shows :
    (text : List ℕ) (color : ℕ) (s : Screen) (t : Terminal)
    → length text < 2 ^ 16
    → Shows s t
    → Shows (vga_print text color s) (type_text text color t)
unfolding vga_print
vga_print-Shows text color s t short v = rw (mod-eq_of_lt short) (vga_write-Shows text color s t v)
