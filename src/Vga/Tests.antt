-- ===== src/Vga/Tests.antt =====
-- The screen with the cursor at the end of its last row.
use lumen_os.Prelude.{◌≡◌, refl, [], arith}
use lumen_os.Vga.{Screen, vga_pos, vga_scroll, vga_newline, vga_put}
use lumen_os.Vga.Place.{IsOnScreen, ShowsCursor, text_buffer, vga_pos-ShowsCursor}
use lumen_os.Vga.Cells.{cell, vga_put_lem, vga_scroll_lem}

abbrev corner : Screen
corner = record { memory = λ a. 0x41; buffer = text_buffer; row = 24; col = 79; bus = [] }

corner-IsOnScreen : IsOnScreen corner
corner-IsOnScreen = record { row_in = omega arith; col_in = omega arith; buffer_is = refl }

abbrev origin : Screen
origin = record { memory = λ a. 0; buffer = text_buffer; row = 0; col = 0; bus = [] }

origin-IsOnScreen : IsOnScreen origin
origin-IsOnScreen = record { row_in = omega arith; col_in = omega arith; buffer_is = refl }

vga_put_example :
    (cell (vga_put b'A' 15 corner).memory 24 0 ≡ 0x0F41)
    × ((vga_put b'A' 15 corner).row ≡ 24)
    × ((vga_put b'A' 15 corner).col ≡ 1)
unfolding vga_newline
vga_put_example =
    vga_put_lem b'A' 15 24 0 corner corner-IsOnScreen (omega arith) (omega arith) (omega arith)
      (omega arith)

vga_scroll_example : cell (vga_scroll 2 corner).memory 3 7 ≡ cell corner.memory 5 7
vga_scroll_example = vga_scroll_lem 2 3 7 corner (omega arith) (omega arith) (omega arith)

vga_pos_example :
    ((vga_pos 300 2 origin).col ≡ 44)
    × ((vga_pos 300 2 origin).row ≡ 2)
    × ShowsCursor (vga_pos 300 2 origin)
vga_pos_example = vga_pos-ShowsCursor 300 2 origin
