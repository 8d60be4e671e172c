-- ===== src/Stdio/Printf/Place.antt =====
-- Where `printf` leaves the cursor, and what it leaves alone.
use lumen_os.Prelude.{
  refl, ℕ, ◌≡◌, sym, ◌∙◌, inl, inr, true, Option, none, some, List, [], ◌∷◌, arith, Bool-cases,
}
use mathlib.Core.Option.{map, some-injective}
use mathlib.Core.Path.{subst}
use lumen_os.Vga.{Screen}
use lumen_os.Vga.Cells.Frame.{is_outside, vga_newline_frame, vga_put_frame}
use lumen_os.Vga.Place.{
  IsOnScreen, ShowsCursor, vga_newline-IsOnScreen, vga_newline-ShowsCursor, vga_put-IsOnScreen,
  vga_put-ShowsCursor,
}
use lumen_os.Stdio.Args.{Arg, is_line_end, in_text}
use lumen_os.Stdio.Text.{is_proper, format_text}
use lumen_os.Stdio.Printf.{white, put_char, put_chars, printf}
use lumen_os.Stdio.Printf.Laws.{printf_lem}

put_char_keeps :
    (c : ℕ) (s : Screen) → IsOnScreen s → IsOnScreen (put_char c s) × ShowsCursor (put_char c s)
unfolding put_char
put_char_keeps c s v = elim (Bool-cases (is_line_end c)) [
  | inl ends ↦ rw ends (vga_newline-IsOnScreen s v, vga_newline-ShowsCursor s v)
  | inr plain ↦ rw plain (vga_put-IsOnScreen c white s v, vga_put-ShowsCursor c white s)
]

pub put_chars-IsOnScreen : (cs : List ℕ) (s : Screen) → IsOnScreen s → IsOnScreen (put_chars cs s)
unfolding put_chars
put_chars-IsOnScreen [] s v = v
put_chars-IsOnScreen (c ∷ cs) s v = put_chars-IsOnScreen cs (put_char c s) (put_char_keeps c s v).0

pub put_chars-ShowsCursor :
    (c : ℕ) (cs : List ℕ) (s : Screen) → IsOnScreen s → ShowsCursor (put_chars (c ∷ cs) s)
unfolding put_chars
put_chars-ShowsCursor c [] s v = (put_char_keeps c s v).1
put_chars-ShowsCursor c (d ∷ cs) s v =
    put_chars-ShowsCursor d cs (put_char c s) (put_char_keeps c s v).0

-- If no directive of the format has a line end for its letter, `printf` puts a text on the screen
-- if it ends.
pub printf-put_chars :
    (format : List ℕ) (args : List Arg) (s s' : Screen)
    → is_proper in_text format ≡ true
    → printf format args s ≡ some s'
    → (t : List ℕ) × (put_chars t s ≡ s')
printf-put_chars format args s s' proper e =
    some_text (format_text format args) (sym (printf_lem format args s proper) ∙ e)
  where
    some_text :
        (r : Option (List ℕ))
        → map (λ t. put_chars t s) r ≡ some s'
        → (t : List ℕ) × (put_chars t s ≡ s')
    some_text none e' = ground (arith, e')
    some_text (some t) e' = (t, some-injective (put_chars t s) s' e')

-- Under the same condition what `printf` leaves has the cursor on the screen.
pub printf-IsOnScreen :
    (format : List ℕ) (args : List Arg) (s s' : Screen)
    → is_proper in_text format ≡ true
    → IsOnScreen s
    → printf format args s ≡ some s'
    → IsOnScreen s'
printf-IsOnScreen format args s s' proper v e =
    let (t, e') = printf-put_chars format args s s' proper e in
    subst IsOnScreen e' (put_chars-IsOnScreen t s v)

put_char_frame :
    (c : ℕ) (s : Screen) (x : ℕ)
    → IsOnScreen s
    → is_outside x ≡ true
    → (put_char c s).memory x ≡ s.memory x
unfolding put_char
put_char_frame c s x v out = elim (Bool-cases (is_line_end c)) [
  | inl ends ↦ rw ends (vga_newline_frame s x v out)
  | inr plain ↦ rw plain (vga_put_frame c white s x v out)
]

-- Outside the screen the memory stays as it is.
pub put_chars_frame :
    (cs : List ℕ) (s : Screen) (x : ℕ)
    → IsOnScreen s
    → is_outside x ≡ true
    → (put_chars cs s).memory x ≡ s.memory x
unfolding put_chars
put_chars_frame [] s x v out = refl
put_chars_frame (c ∷ cs) s x v out =
    put_chars_frame cs (put_char c s) x (put_char_keeps c s v).0 out ∙ put_char_frame c s x v out
