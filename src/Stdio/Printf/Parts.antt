-- ===== src/Stdio/Printf/Parts.antt =====
-- What the loops and the numbers of `printf` put on the screen, byte by byte.
use lumen_os.Prelude.{
  ℕ, zero, suc, ◌-◌, ◌^◌, ◌≤◌, ◌<◌, ◌≡◌, refl, sym, ap, ◌∙◌, inl, inr, true, false, some, List, [],
  ◌∷◌, ◌++◌, arith, Bool-cases, length,
}
use native.Mathlib.Nat.{mod-eq_of_lt}
use lumen_os.Vga.{Screen, vga_put, vga_newline, vga_print, vga_write}
use lumen_os.Stdio.Itoa.Lines.{
  is_one_line, itoa-is_one_line, uppercase-is_one_line, length-uppercase,
}
use lumen_os.Stdio.Itoa.{itoa}
use lumen_os.Stdio.Args.{map_rest, number_then, number_then-map, Arg, is_line_end, uppercase}
use lumen_os.Stdio.Text.{spaces, padded, hex_text}
use lumen_os.Stdio.Printf.{
  white, put_char, put_chars, put_spaces, hex_prefix, print_decimal, print_hex, print_upper_hex,
  print_octal,
}

pub put_chars-append :
    (as' bs : List ℕ) (s : Screen) → put_chars (as' ++ bs) s ≡ put_chars bs (put_chars as' s)
unfolding put_chars
put_chars-append [] bs s = refl
put_chars-append (c ∷ cs) bs s = put_chars-append cs bs (put_char c s)

pub put_spaces_lem : (n : ℕ) (s : Screen) → put_spaces n s ≡ put_chars (spaces n) s
unfolding put_chars put_spaces put_char
put_spaces_lem zero s = refl
put_spaces_lem (suc n) s = put_spaces_lem n (vga_put b' ' white s)

pub put_char-plain : (c : ℕ) (s : Screen) → is_line_end c ≡ false → put_char c s ≡ vga_put c white s
unfolding put_char
put_char-plain c s h = rw h

pub put_char-end : (c : ℕ) (s : Screen) → is_line_end c ≡ true → put_char c s ≡ vga_newline s
unfolding put_char
put_char-end c s h = rw h

vga_write_lem :
    (cs : List ℕ) (s : Screen)
    → is_one_line cs ≡ true
    → vga_write cs white (length cs) s ≡ put_chars cs s
unfolding vga_write put_chars put_char
vga_write_lem [] s h = refl
vga_write_lem (c ∷ cs) s h = elim (Bool-cases (is_line_end c)) [
  | inl ends ↦ ground (arith, h)
  | inr plain ↦ rw plain (vga_write_lem cs (vga_put c white s) (ground (arith, h)))
]

-- `vga_print` does not look for line ends.
vga_print_lem :
    (cs : List ℕ) (s : Screen)
    → is_one_line cs ≡ true
    → length cs < 2 ^ 16
    → vga_print cs white s ≡ put_chars cs s
unfolding vga_print
vga_print_lem cs s h short = rw (mod-eq_of_lt short) (vga_write_lem cs s h)

print_padded :
    (width val base : ℕ) (ds : List ℕ) (s : Screen)
    → itoa val base ≡ some ds
    → vga_print ds white (put_spaces (width - length ds) s) ≡ put_chars (padded width ds) s
print_padded width val base ds s fits =
    let (plain, short) = itoa-is_one_line val base ds fits in
    vga_print_lem ds (put_spaces (width - length ds) s) plain (omega arith)
    ∙ ap (put_chars ds) (put_spaces_lem (width - length ds) s)
    ∙ sym (put_chars-append (spaces (width - length ds)) ds s)

print_prefixed :
    (cs : List ℕ) (s : Screen)
    → is_one_line cs ≡ true
    → length cs ≤ 33
    → vga_print cs white (vga_print hex_prefix white s) ≡ put_chars (hex_text cs) s
print_prefixed cs s plain short =
    vga_print_lem cs (vga_print hex_prefix white s) plain (omega arith)
    ∙ ap (put_chars cs) (vga_print_lem hex_prefix s refl (omega arith))
    ∙ sym (put_chars-append hex_prefix cs s)

pub print_decimal_lem :
    (width : ℕ) (args : List Arg) (s : Screen)
    → print_decimal width args s
      ≡ map_rest (λ t. put_chars t s) (number_then 10 args (padded width))
unfolding print_decimal
print_decimal_lem width args s =
    number_then-map 10 args (padded width)
      (λ buffer. vga_print buffer white (put_spaces (width - length buffer) s)) (λ t. put_chars t s)
      (λ val rest ds e fits. print_padded width val 10 ds s fits)

pub print_hex_lem :
    (args : List Arg) (s : Screen)
    → print_hex args s ≡ map_rest (λ t. put_chars t s) (number_then 16 args hex_text)
unfolding print_hex
print_hex_lem args s =
    number_then-map 16 args hex_text
      (λ buffer. vga_print buffer white (vga_print hex_prefix white s)) (λ t. put_chars t s)
      (λ val rest ds e fits.
        let (plain, short) = itoa-is_one_line val 16 ds fits in print_prefixed ds s plain short)

pub print_upper_hex_lem :
    (args : List Arg) (s : Screen)
    → print_upper_hex args s
      ≡ map_rest (λ t. put_chars t s) (number_then 16 args (λ ds. hex_text (uppercase ds)))
unfolding print_upper_hex
print_upper_hex_lem args s =
    number_then-map 16 args (λ ds. hex_text (uppercase ds))
      (λ buffer. vga_print (uppercase buffer) white (vga_print hex_prefix white s))
      (λ t. put_chars t s)
      (λ val rest ds e fits.
        let (plain, short) = itoa-is_one_line val 16 ds fits in
        print_prefixed (uppercase ds) s (uppercase-is_one_line ds plain)
          (omega (arith, length-uppercase ds)))

pub print_octal_lem :
    (args : List Arg) (s : Screen)
    → print_octal args s ≡ map_rest (λ t. put_chars t s) (number_then 8 args (λ ds. ds))
unfolding print_octal
print_octal_lem args s =
    number_then-map 8 args (λ ds. ds) (λ buffer. vga_print buffer white s) (λ t. put_chars t s)
      (λ val rest ds e fits.
        let (plain, short) = itoa-is_one_line val 8 ds fits in
        vga_print_lem ds s plain (omega arith))
