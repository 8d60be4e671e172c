-- ===== src/Stdio/Printf.antt =====
-- `printf` of src/stdlib/stdio.c. The format is given by its bytes. A format that ends inside a
-- directive makes the loop run past its end: that is `none`.
pub mod Parts
pub mod Laws
pub mod Place
pub mod Shown
pub mod Typed
use lumen_os.Prelude.{
  ℕ, zero, suc, ◌+◌, ◌-◌, ◌*◌, ◌||◌, Option, none, some, List, [], ◌∷◌, ◌==◌, if◌then◌else◌, u8,
  length,
}
use lumen_os.Vga.{vga_white, vga_black, vga_color, Screen, vga_newline, vga_put, vga_print}
use lumen_os.Stdio.Itoa.{itoa}
use lumen_os.Stdio.Args.{
  number_then, Arg, next_word, next_text, bytes_of, is_line_end, is_digit, uppercase, Mode, in_text,
  in_field,
}

-- `VGA_COLOR(VGA_WHITE, VGA_BLACK)`
abbrev pub white : ℕ
white = vga_color vga_white vga_black

-- The branches of `%c` and `%s` for one character.
unfoldable pub put_char : ℕ → Screen → Screen
put_char c s = if is_line_end c then vga_newline s else vga_put c white s

-- `for (j = 0; s && s[j]; j++)`
pub put_chars : List ℕ → Screen → Screen
put_chars [] s = s
put_chars (c ∷ cs) s = put_chars cs (put_char c s)

-- `for (j = len; j < width; j++)`; in `%s` its test for a line end looks at the `s` of the
-- directive.
pub put_spaces : ℕ → Screen → Screen
put_spaces zero s = s
put_spaces (suc left) s = put_spaces left (vga_put b' ' white s)

abbrev pub hex_prefix : List ℕ
hex_prefix = b'0' ∷ b'x' ∷ []

-- `%d`, `%i` and `%u`.
unfoldable pub print_decimal : ℕ → List Arg → Screen → Option (List Arg × Screen)
print_decimal width args s =
    number_then 10 args (λ buffer. vga_print buffer white (put_spaces (width - length buffer) s))

-- `%x` and `%p`; the order of the call of `itoa` and of the output of the prefix makes no
-- difference.
unfoldable pub print_hex : List Arg → Screen → Option (List Arg × Screen)
print_hex args s =
    number_then 16 args (λ buffer. vga_print buffer white (vga_print hex_prefix white s))

unfoldable pub print_upper_hex : List Arg → Screen → Option (List Arg × Screen)
print_upper_hex args s =
    number_then 16 args
      (λ buffer. vga_print (uppercase buffer) white (vga_print hex_prefix white s))

unfoldable pub print_octal : List Arg → Screen → Option (List Arg × Screen)
print_octal args s = number_then 8 args (λ buffer. vga_print buffer white s)

-- The `switch` at the byte `c` of the format.
pub print_directive : ℕ → ℕ → List Arg → Screen → Option (List Arg × Screen)
print_directive width c args s =
    if c == b'c'
    then (elim (next_word args) [ none ↦ none | some (v, rest) ↦ some (rest, put_char (u8 v) s) ])
    else if c == b's'
    then (elim (next_text args) [
      | none ↦ none
      | some (t, rest) ↦
          some (rest, put_chars (bytes_of t) (put_spaces (width - length (bytes_of t)) s))
    ])
    else if c == b'd' || c == b'i'
    then print_decimal width args s
    else if c == b'u'
    then print_decimal width args s
    else if c == b'x'
    then print_hex args s
    else if c == b'X'
    then print_upper_hex args s
    else if c == b'o'
    then print_octal args s
    else if c == b'p'
    then print_hex args s
    else if c == b'%'
    then some (args, vga_put b'%' white s)
    else some (args, vga_put c white (vga_put b'%' white s))

-- One byte of the format.
pub printf_step : Mode → ℕ → List Arg → Screen → Option (Mode × List Arg × Screen)
printf_step in_text c args s =
    if is_line_end c
    then some (in_text, args, vga_newline s)
    else if c == b'%'
    then some (in_field 0, args, s)
    else some (in_text, args, vga_put c white s)
printf_step (in_field width) c args s =
    if is_digit c
    then some (in_field (width * 10 + (c - b'0')), args, s)
    else (elim (print_directive width c args s) [
      | none ↦ none
      | some (args', s') ↦ some (in_text, args', s')
    ])

pub printf_from : Mode → List ℕ → List Arg → Screen → Option Screen
printf_from in_text [] args s = some s
printf_from (in_field width) [] args s = none
printf_from mode (c ∷ cs) args s = elim (printf_step mode c args s) [
  | none ↦ none
  | some (mode', args', s') ↦ printf_from mode' cs args' s'
]

pub printf : List ℕ → List Arg → Screen → Option Screen
printf format args s = printf_from in_text format args s
