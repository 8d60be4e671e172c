-- ===== src/Vga/Typed.antt =====
-- The variables of the screen fit their types, and memory holds bytes.
use lumen_os.Prelude.{
  ℕ, zero, suc, ◌+◌, ◌-◌, ◌*◌, ◌^◌, ◌<◌, inl, inr, arith, ltb, leb, if◌then◌else◌, Bool-cases,
}
use lumen_os.Memory.{Memory}
use lumen_os.Memory.Words.{store16}
use lumen_os.Memory.Bytes.{IsBytes, store16-IsBytes}
use lumen_os.Strings.Copy.Bytes.{memmove-IsBytes}
use lumen_os.Buffer.Bytes.{tbuffer_fill-IsBytes}
use lumen_os.Buffer.{tbuffer_set}
use lumen_os.Vga.{
  vga_width, vga_height, vga_address, Screen, vga_pos, fill_cells, clear_rows, vga_scroll,
  vga_newline, vga_set, vga_put, vga_clear,
}

-- A row and a column come from an `unsigned char`.
pub record IsTyped (s : Screen) : Type 0 where
  pub bytes : IsBytes s.memory
  pub row_in : s.row < 256
  pub col_in : s.col < 256

pub vga_pos-IsTyped : (col row : ℕ) (s : Screen) → IsBytes s.memory → IsTyped (vga_pos col row s)
unfolding vga_pos
vga_pos-IsTyped col row s b = record { bytes = b; row_in = omega arith; col_in = omega arith }

fill_cells-IsBytes :
    (left first c : ℕ) (m : Memory) → IsBytes m → IsBytes (fill_cells left first c m)
unfolding fill_cells
fill_cells-IsBytes zero first c m b = b
fill_cells-IsBytes (suc left) first c m b =
    fill_cells-IsBytes left (first + 1) c (store16 m (vga_address + 2 * first) c)
      (store16-IsBytes m (vga_address + 2 * first) c b)

clear_rows-IsBytes : (left row : ℕ) (m : Memory) → IsBytes m → IsBytes (clear_rows left row m)
unfolding clear_rows
clear_rows-IsBytes zero row m b = b
clear_rows-IsBytes (suc left) row m b =
    clear_rows-IsBytes left (row + 1) (fill_cells vga_width (row * vga_width) _ m)
      (fill_cells-IsBytes vga_width (row * vga_width) _ m b)

vga_scroll-IsBytes : (n : ℕ) (s : Screen) → IsBytes s.memory → IsBytes (vga_scroll n s).memory
unfolding vga_scroll
vga_scroll-IsBytes n s b = elim (Bool-cases (leb vga_height n)) [
  | inl all ↦ rw all (fill_cells-IsBytes (vga_width * vga_height) 0 _ s.memory b)
  | inr some_left ↦
      rw some_left
        (clear_rows-IsBytes n (vga_height - n) _ (memmove-IsBytes s.memory vga_address _ _ b))
]

pub vga_newline-IsTyped : (s : Screen) → IsBytes s.memory → IsTyped (vga_newline s)
unfolding vga_newline
vga_newline-IsTyped s b =
    let s1 = vga_pos 0 (s.row + 1) s in
    elim (Bool-cases (ltb (vga_height - 1) s1.row)) [
      | inl below ↦ rw below (
          vga_pos-IsTyped 0 ((vga_scroll 1 s1).row + 2 ^ 8 - 1) (vga_scroll 1 s1)
            (vga_scroll-IsBytes 1 s1 b))
      | inr above ↦ rw above (vga_pos-IsTyped 0 (s.row + 1) s b)
    ]

vga_set-IsBytes :
    (a color col row : ℕ) (s : Screen)
    → IsBytes s.memory
    → IsBytes (vga_set a color col row s).memory
unfolding vga_set tbuffer_set
vga_set-IsBytes a color col row s b = store16-IsBytes s.memory _ _ b

pub vga_set-IsTyped :
    (a color col row : ℕ) (s : Screen) → IsTyped s → IsTyped (vga_set a color col row s)
unfolding vga_set
vga_set-IsTyped a color col row s v = record {
  bytes = vga_set-IsBytes a color col row s v.bytes;
  row_in = v.row_in;
  col_in = v.col_in;
}

pub vga_put-IsTyped : (a color : ℕ) (s : Screen) → IsBytes s.memory → IsTyped (vga_put a color s)
unfolding vga_put
vga_put-IsTyped a color s b =
    let s1 = if leb vga_width (s.col + 1) then vga_newline s else s in
    vga_pos-IsTyped _ _ (vga_set a color s1.col s1.row s1) (
      vga_set-IsBytes a color s1.col s1.row s1 (elim (Bool-cases (leb vga_width (s.col + 1))) [
        | inl full ↦ rw full ((vga_newline-IsTyped s b).bytes)
        | inr room ↦ rw room b
      ]))

pub vga_clear-IsBytes :
    (color : ℕ) (s : Screen) → IsBytes s.memory → IsBytes (vga_clear color s).memory
unfolding vga_clear
vga_clear-IsBytes color s b = tbuffer_fill-IsBytes s.memory s.buffer _ b
