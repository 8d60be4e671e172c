-- ===== src/Vga/Cells.antt =====
-- The characters on the screen: what scrolling, clearing and putting do to each of the 2000 cells.
pub mod Frame
use lumen_os.Prelude.{
  ℕ, zero, suc, ◌+◌, ◌-◌, ◌*◌, ◌/◌, ◌%◌, ◌^◌, ◌≤◌, ◌<◌, ◌≡◌, refl, ap, ◌∙◌, inl, inr, true, ◌&&◌,
  arith, ltb, leb, ◌==◌, if◌then◌else◌, u8, u16, ltb-false, ==_iff, Bool-cases,
}
use native.Mathlib.Nat.{mod-eq_of_lt}
use Prim.Native.Nat.{bit_or}
use lumen_os.Prelude.Bits.{bit_or_field, bit_or_high, holds_below, holds_below-at}
use lumen_os.Buffer.{tbuffer_set}
use lumen_os.Vga.{
  vga_char, vga_set, vga_put, vga_newline, vga_pos, vga_width, vga_height, vga_address, Screen,
  fill_cells, clear_rows, vga_scroll,
}
use lumen_os.Vga.Place.{IsOnScreen, vga_newline-IsOnScreen}
use lumen_os.Memory.Words.{load16-store16, load16-store16_apart, load16, store16, store16_at}
use lumen_os.Memory.{Memory, within}
use lumen_os.Strings.Copy.{memmove, memmove_lem}

-- The low byte of a cell is at an even address.
abbrev pub byte_of : ℕ → ℕ → ℕ
byte_of c x = if x % 2 == 0 then u8 c else u8 (c / 2 ^ 8)

fill_cells_at :
    (left first c : ℕ) (m : Memory) (x : ℕ)
    → fill_cells left first c m x
      ≡ (if within (vga_address + 2 * first) (2 * left) x then byte_of c x else m x)
unfolding fill_cells
fill_cells_at zero first c m x = ground arith
fill_cells_at (suc left) first c m x = ground (
  arith,
  fill_cells_at left (first + 1) c (store16 m (vga_address + 2 * first) c) x,
  store16_at m (vga_address + 2 * first) c x,
)

clear_rows_at :
    (left row : ℕ) (m : Memory) (x : ℕ)
    → clear_rows left row m x
      ≡ (if within (vga_address + 160 * row) (160 * left) x then byte_of 0x700 x else m x)
unfolding clear_rows
clear_rows_at zero row m x = ground arith
clear_rows_at (suc left) row m x = ground (
  arith,
  clear_rows_at left (row + 1) (fill_cells vga_width (row * vga_width) 0x700 m) x,
  fill_cells_at vga_width (row * vga_width) 0x700 m x,
)

-- The memory after scrolling by fewer lines than the screen has.
scrolled : ℕ → Memory → Memory
scrolled n m x =
    if within vga_address (160 * (25 - n)) x
    then m (x + 160 * n)
    else if within (vga_address + 160 * (25 - n)) (160 * n) x
    then byte_of 0x700 x
    else m x

-- What `memmove` does in `vga_scroll`.
lift : ℕ → Memory → Memory
lift n m = (memmove m vga_address (vga_address + 2 * (n * vga_width)) ((25 - n) * vga_width * 2)).1

lift_at :
    (n : ℕ) (m : Memory) (x : ℕ)
    → n < 25
    → lift n m x ≡ (if within vga_address (160 * (25 - n)) x then m (x + 160 * n) else m x)
unfolding lift
lift_at n m x h =
    ap (λ (r : ℕ × Memory). r.1 x)
      (memmove_lem m vga_address (vga_address + 2 * (n * vga_width)) ((25 - n) * vga_width * 2))
    ∙ ground arith

vga_scroll_memory :
    (n : ℕ) (s : Screen)
    → n < 25
    → (vga_scroll n s).memory ≡ clear_rows n (25 - n) (lift n s.memory)
unfolding vga_scroll lift
vga_scroll_memory n s h = ground arith

vga_scroll_at :
    (n : ℕ) (s : Screen) (x : ℕ) → n < 25 → (vga_scroll n s).memory x ≡ scrolled n s.memory x
unfolding scrolled
vga_scroll_at n s x h =
    rw (vga_scroll_memory n s h)
      (ground (arith, clear_rows_at n (25 - n) (lift n s.memory) x, lift_at n s.memory x))

-- The word in the cell of a row and a column.
abbrev pub cell : Memory → ℕ → ℕ → ℕ
cell m row col = load16 m (vga_address + 2 * (row * vga_width + col))

-- Scrolling by `n` lines, fewer than there are, moves each row up by `n` and leaves zero
-- characters in light grey on the last `n` rows.
pub vga_scroll_lem :
    (n row col : ℕ) (s : Screen)
    → n < vga_height
    → row < vga_height
    → col < vga_width
    → cell (vga_scroll n s).memory row col
      ≡ (if ltb (row + n) vga_height then cell s.memory (row + n) col else 0x700)
unfolding load16 scrolled
vga_scroll_lem n row col s hn hr hc = ground (
  arith,
  vga_scroll_at n s (vga_address + 2 * (row * vga_width + col)),
  vga_scroll_at n s (vga_address + 2 * (row * vga_width + col) + 1),
)

-- `vga_newline` leaves every cell as it is above the last row; on the last row it moves each row
-- up by one and leaves zero characters in light grey there.
pub vga_newline_cells :
    (row col : ℕ) (s : Screen)
    → IsOnScreen s
    → row < vga_height
    → col < vga_width
    → cell (vga_newline s).memory row col ≡ (
        if ltb (s.row + 1) vga_height
        then cell s.memory row col
        else if ltb (row + 1) vga_height
        then cell s.memory (row + 1) col
        else 0x700)
unfolding vga_newline vga_pos
vga_newline_cells row col s v hr hc =
    ground (arith, vga_scroll_lem 1 row col (vga_pos 0 (s.row + 1) s))

char_word : (a color : ℕ) → u16 (vga_char a color) ≡ vga_char a color
unfolding vga_char
char_word a color = omega arith

pub set_cells :
    (a color : ℕ) (row col : ℕ) (s : Screen)
    → IsOnScreen s
    → row < vga_height
    → col < vga_width
    → cell (vga_set a color s.col s.row s).memory row col
      ≡ (if row == s.row && col == s.col then vga_char a color else cell s.memory row col)
unfolding vga_set tbuffer_set
set_cells a color row col s v hr hc = rw v.buffer_is (
    ground (
      arith,
      char_word a color,
      load16-store16 s.memory (vga_address + 2 * (s.row * vga_width + s.col)) (vga_char a color),
      load16-store16_apart s.memory (vga_address + 2 * (s.row * vga_width + s.col))
          (vga_char a color) (vga_address + 2 * (row * vga_width + col)),
    ))

-- Where `vga_put` writes: it goes to a new line first if the cursor is in the last column.
abbrev pub put_from : Screen → Screen
put_from s = if leb vga_width (s.col + 1) then vga_newline s else s

put_from-IsOnScreen : (s : Screen) → IsOnScreen s → IsOnScreen (put_from s)
put_from-IsOnScreen s v = ground (arith, vga_newline-IsOnScreen s v)

-- `vga_put` writes the cell of the cursor, after a newline if that is in the last column.
pub vga_put-cell :
    (a color row col : ℕ) (s : Screen)
    → IsOnScreen s
    → row < vga_height
    → col < vga_width
    → (cell (vga_put a color s).memory row col ≡ (
        if row == (put_from s).row && col == (put_from s).col
        then vga_char a color
        else cell (put_from s).memory row col))
      × ((vga_put a color s).row ≡ (put_from s).row)
      × ((vga_put a color s).col ≡ (put_from s).col + 1)
unfolding vga_put vga_set vga_pos
vga_put-cell a color row col s v hr hc =
    let v1 : IsOnScreen (put_from s) = put_from-IsOnScreen s v in
    (
      set_cells a color row col (put_from s) v1 hr hc,
      mod-eq_of_lt (omega (arith, v1.row_in)),
      mod-eq_of_lt (omega (arith, v1.col_in)),
    )

-- A character below 128 keeps the color that it is written with.
pub vga_char_lem : (a color : ℕ) → a < 128 → color < 256 → vga_char a color ≡ color * 2 ^ 8 + a
unfolding vga_char
vga_char_lem a color ha hc = ground (arith, bit_or_field 8 a color)

table : holds_below (λ c. bit_or 255 c == 255) 256 ≡ true
unfolding holds_below
table = refl

-- A character from 128 on is sign extended over its color: the attribute byte is 0xFF whatever
-- the color is.
pub vga_char_high : (a color : ℕ) → 128 ≤ a → a < 256 → color < 256 → vga_char a color ≡ 0xFF00 + a
unfolding vga_char
vga_char_high a color lo hi hc =
    let full : bit_or 255 color ≡ 255 =
      (==_iff _ 255).0 (holds_below-at (λ c. bit_or 255 c == 255) 256 color hc table) in
    let split : a + 0xFF00 ≡ 255 * 2 ^ 8 + a = omega arith in
    rw (ltb-false a 128 lo, split, bit_or_high 8 255 a color hi, full) (omega arith)

vga_char_is :
    (a color : ℕ)
    → a < 256
    → color < 256
    → vga_char a color ≡ (if ltb a 128 then color * 2 ^ 8 + a else 0xFF00 + a)
vga_char_is a color ha hc = elim (Bool-cases (ltb a 128)) [
  | inl low ↦ rw low (vga_char_lem a color (ground arith) hc)
  | inr high ↦ rw high (vga_char_high a color (ground arith) ha hc)
]

-- With the cursor on the screen `vga_put` of a byte in a color of one byte writes the cell of the
-- cursor, after a newline if that is in the last column, leaves every other cell alone, and moves
-- the cursor one column on. The cell holds the character and the color if the character is below
-- 128; from 128 on it holds the character and the attribute 0xFF, whatever the color is.
pub vga_put_lem :
    (a color row col : ℕ) (s : Screen)
    → IsOnScreen s
    → row < vga_height
    → col < vga_width
    → a < 256
    → color < 256
    → (cell (vga_put a color s).memory row col ≡ (
        if row == (put_from s).row && col == (put_from s).col
        then (if ltb a 128 then color * 2 ^ 8 + a else 0xFF00 + a)
        else cell (put_from s).memory row col))
      × ((vga_put a color s).row ≡ (put_from s).row)
      × ((vga_put a color s).col ≡ (put_from s).col + 1)
vga_put_lem a color row col s v hr hc ha hcol =
    let (e, row_is, col_is) = vga_put-cell a color row col s v hr hc in
    (
      e
          ∙ ap
              (λ w.
                if row == (put_from s).row && col == (put_from s).col
                then w
                else cell (put_from s).memory row col)
              (vga_char_is a color ha hcol),
      row_is,
      col_is,
    )
