-- ===== src/Vga/Cells/Frame.antt =====
-- The memory outside the screen.
use lumen_os.Prelude.{ℕ, ◌+◌, ◌*◌, ◌≡◌, ◌∙◌, inl, inr, Bool, true, not, arith, leb, u16, Bool-cases}
use lumen_os.Memory.{within}
use lumen_os.Memory.Words.{store16_at}
use lumen_os.Buffer.{tbuffer_set}
use lumen_os.Buffer.Fill.{tbuffer_fill_frame}
use lumen_os.Vga.{vga_clear, Screen, vga_char, vga_set, vga_put, vga_newline, vga_pos}
use lumen_os.Vga.Place.{text_buffer, IsOnScreen, vga_newline-IsOnScreen}
use lumen_os.Vga.Cells.{scrolled, vga_scroll_at}

-- The address is not one of the screen's 4000 bytes.
abbrev pub is_outside : ℕ → Bool
is_outside x = not (within 0xB8000 4000 x)

pub vga_newline_frame :
    (s : Screen) (x : ℕ)
    → IsOnScreen s
    → is_outside x ≡ true
    → (vga_newline s).memory x ≡ s.memory x
unfolding vga_newline vga_pos scrolled
vga_newline_frame s x v out = ground (arith, vga_scroll_at 1 (vga_pos 0 (s.row + 1) s) x)

vga_set_frame :
    (a color : ℕ) (s : Screen) (x : ℕ)
    → IsOnScreen s
    → is_outside x ≡ true
    → (vga_set a color s.col s.row s).memory x ≡ s.memory x
unfolding vga_set tbuffer_set
vga_set_frame a color s x v out = rw v.buffer_is (
    ground
      (arith, store16_at s.memory (0xB8000 + 2 * (s.row * 80 + s.col)) (u16 (vga_char a color)) x))

pub vga_put_frame :
    (a color : ℕ) (s : Screen) (x : ℕ)
    → IsOnScreen s
    → is_outside x ≡ true
    → (vga_put a color s).memory x ≡ s.memory x
unfolding vga_put vga_pos
vga_put_frame a color s x v out = elim (Bool-cases (leb 80 (s.col + 1))) [
  | inl last ↦ rw last (
      vga_set_frame a color (vga_newline s) x (vga_newline-IsOnScreen s v) out
      ∙ vga_newline_frame s x v out)
  | inr inside ↦ rw inside (vga_set_frame a color s x v out)
]

pub vga_clear_frame :
    (color : ℕ) (s : Screen) (x : ℕ)
    → s.buffer ≡ text_buffer
    → is_outside x ≡ true
    → (vga_clear color s).memory x ≡ s.memory x
unfolding vga_clear
vga_clear_frame color s x e out = rw e (
    tbuffer_fill_frame s.memory 0xB8000 80 25 (vga_char 0 color) x (omega arith)
      (ground (arith, out)))
