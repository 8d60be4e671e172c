-- ===== src/Stdio/Tests.antt =====
-- Numbers as text.
use lumen_os.Prelude.{ℕ, ◌-◌, ◌^◌, ◌≡◌, refl, some, List, [], ◌∷◌, arith, codes}
use lumen_os.Memory.{Memory}
use lumen_os.Memory.Words.{load16}
use lumen_os.Vga.{Screen, vga_print}
use lumen_os.Vga.Terminal.{Terminal, Shows, type_text, vga_print-Shows}
use lumen_os.Stdio.Printf.Shown.{type_lines, printf-Shows}
use lumen_os.Vga.Place.{text_buffer}
use lumen_os.Stdio.Args.{word, text, number_then, next_text, next_word}
use lumen_os.Stdio.Text.{format_text, text_from, text_step, directive_text}
use lumen_os.Stdio.Printf.{printf}
use lumen_os.Stdio.Sprintf.{sprintf}
use lumen_os.Stdio.Sprintf.Laws.{HasWritten, sprintf_lem}
use lumen_os.Stdio.Itoa.{itoa, collect, unsigned_of}
use lumen_os.Stdio.Itoa.Laws.{read_digits, itoa_lem}

itoa_example :
    (ds : List ℕ) × (itoa (2 ^ 32 - 42) 10 ≡ some (b'-' ∷ ds)) × (read_digits 10 0 ds ≡ 42)
itoa_example = itoa_lem (2 ^ 32 - 42) 10 (omega arith) (omega arith) (omega arith)

assigned :
    format_text (codes "%4s=%x%%") (text (some (codes "ab")) ∷ word 200 ∷ [])
    ≡ some (codes "  ab=0xC8%")
unfolding text_from text_step directive_text number_then next_text next_word itoa unsigned_of
    collect
assigned = refl

sprintf_example :
    (m' : Memory) × (sprintf 0x8000
        (codes "%4s=%x%%")
        (text (some (codes "ab")) ∷ word 200 ∷ [])
        (λ x. 7)
      ≡ some (10, m'))
    × HasWritten (λ x. 7) m' 0x8000 (codes "  ab=0xC8%")
sprintf_example =
    sprintf_lem 0x8000 (codes "%4s=%x%%") (text (some (codes "ab")) ∷ word 200 ∷ []) (λ x. 7)
      (codes "  ab=0xC8%") assigned

abbrev screen : Screen
screen = record { memory = λ a. 0; buffer = text_buffer; row = 0; col = 0; bus = [] }

abbrev terminal : Terminal
terminal = record { cells = λ r c. 0; row = 0; col = 0 }

screen-Shows : Shows screen terminal
unfolding load16
screen-Shows = record {
  cursor_is = refl;
  on_screen = record { row_in = omega arith; col_in = omega arith; buffer_is = refl };
  row_is = refl;
  col_is = refl;
  cell_is = λ r c hr hc. refl;
}

printf-Shows_example :
    (s' : Screen) × (printf (codes "%4s=%x%%") (text (some (codes "ab")) ∷ word 200 ∷ []) screen
      ≡ some s')
    × Shows s' (type_lines (codes "  ab=0xC8%") terminal)
printf-Shows_example =
    printf-Shows (codes "%4s=%x%%") (text (some (codes "ab")) ∷ word 200 ∷ []) (codes "  ab=0xC8%")
      screen terminal refl assigned screen-Shows

vga_print-Shows_example :
    Shows (vga_print (codes "LumenOS") 15 screen) (type_text (codes "LumenOS") 15 terminal)
vga_print-Shows_example =
    vga_print-Shows (codes "LumenOS") 15 screen terminal (omega arith) screen-Shows
