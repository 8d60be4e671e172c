-- ===== src/Stdio/Printf/Shown.antt =====
-- `printf` as typing on a terminal.
use lumen_os.Prelude.{ℕ, ◌≡◌, inl, inr, true, some, List, [], ◌∷◌, if◌then◌else◌, Bool-cases}
use lumen_os.Vga.{Screen, vga_put, vga_newline}
use lumen_os.Vga.Terminal.{Terminal, next_line, type_char, Shows, vga_newline-Shows, vga_put-Shows}
use lumen_os.Stdio.Args.{Arg, is_line_end, in_text}
use lumen_os.Stdio.Text.{is_proper, format_text}
use lumen_os.Stdio.Printf.{white, put_char, put_chars, printf}
use lumen_os.Stdio.Printf.Laws.{printf_lem}

-- A text in white on black, a line end as a new line.
pub type_lines : List ℕ → Terminal → Terminal
type_lines [] t = t
type_lines (c ∷ cs) t = type_lines cs (if is_line_end c then next_line t else type_char c white t)

put_chars-Shows :
    (cs : List ℕ) (s : Screen) (t : Terminal) → Shows s t → Shows (put_chars cs s) (type_lines cs t)
unfolding put_chars put_char type_lines
put_chars-Shows [] s t v = v
put_chars-Shows (c ∷ cs) s t v = elim (Bool-cases (is_line_end c)) [
  | inl ends ↦ rw ends (put_chars-Shows cs (vga_newline s) (next_line t) (vga_newline-Shows s t v))
  | inr plain ↦
      rw plain
        (put_chars-Shows cs (vga_put c white s) (type_char c white t) (vga_put-Shows c white s t v))
]

-- If the screen is a picture of a terminal, with the hardware cursor at the terminal's, no
-- directive of the format has a line end for its letter and the format with its arguments stands
-- for a text, `printf` ends, and the screen is then a picture of the terminal after typing the
-- text, with the hardware cursor there.
pub printf-Shows :
    (format : List ℕ) (args : List Arg) (text : List ℕ) (s : Screen) (t : Terminal)
    → is_proper in_text format ≡ true
    → format_text format args ≡ some text
    → Shows s t
    → (s' : Screen) × (printf format args s ≡ some s') × Shows s' (type_lines text t)
printf-Shows format args text s t proper e v =
    (put_chars text s, rw (printf_lem format args s proper, e), put_chars-Shows text s t v)
