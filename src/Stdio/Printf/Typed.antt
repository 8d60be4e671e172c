-- ===== src/Stdio/Printf/Typed.antt =====
-- What `printf` puts into memory are bytes.
use lumen_os.Prelude.{ℕ, ◌≡◌, inl, inr, true, some, List, [], ◌∷◌, Bool-cases}
use mathlib.Core.Path.{subst}
use lumen_os.Vga.{Screen}
use lumen_os.Vga.Typed.{IsTyped, vga_newline-IsTyped, vga_put-IsTyped}
use lumen_os.Stdio.Args.{Arg, is_line_end, in_text}
use lumen_os.Stdio.Text.{is_proper}
use lumen_os.Stdio.Printf.{white, put_char, put_chars, printf}
use lumen_os.Stdio.Printf.Place.{printf-put_chars}

put_char-IsTyped : (c : ℕ) (s : Screen) → IsTyped s → IsTyped (put_char c s)
unfolding put_char
put_char-IsTyped c s v = elim (Bool-cases (is_line_end c)) [
  | inl ends ↦ rw ends (vga_newline-IsTyped s v.bytes)
  | inr plain ↦ rw plain (vga_put-IsTyped c white s v.bytes)
]

pub put_chars-IsTyped : (cs : List ℕ) (s : Screen) → IsTyped s → IsTyped (put_chars cs s)
unfolding put_chars
put_chars-IsTyped [] s v = v
put_chars-IsTyped (c ∷ cs) s v = put_chars-IsTyped cs (put_char c s) (put_char-IsTyped c s v)

pub printf-IsTyped :
    (format : List ℕ) (args : List Arg) (s s' : Screen)
    → is_proper in_text format ≡ true
    → IsTyped s
    → printf format args s ≡ some s'
    → IsTyped s'
printf-IsTyped format args s s' proper v e =
    let (t, e') = printf-put_chars format args s s' proper e in
    subst IsTyped e' (put_chars-IsTyped t s v)
