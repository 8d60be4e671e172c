-- ===== src/Stdio/Printf/Laws.antt =====
-- `printf` against the text of its format.
use lumen_os.Prelude.{
  ℕ, ◌-◌, ◌≡◌, refl, sym, ap, ◌∙◌, inl, inr, true, false, ◌||◌, Option, none, some, List, [], ◌∷◌,
  ◌++◌, arith, ◌==◌, u8, Bool-cases, Option-cases, length,
}
use mathlib.Core.Option.{map}
use lumen_os.Vga.{Screen, vga_put}
use lumen_os.Stdio.Args.{
  map_rest, if-map_rest, Arg, next_word, next_text, bytes_of, is_line_end, is_digit, Mode, in_text,
  in_field,
}
use lumen_os.Stdio.Text.{
  map_step, map_step-map_rest, is_proper, is_letter, next_mode, spaces, padded, directive_text,
  text_step, text_from, format_text,
}
use lumen_os.Stdio.Printf.{
  white, put_char, put_chars, put_spaces, print_directive, printf_step, printf_from, printf,
}
use lumen_os.Stdio.Printf.Parts.{
  put_chars-append, put_spaces_lem, put_char-plain, put_char-end, print_decimal_lem, print_hex_lem,
  print_upper_hex_lem, print_octal_lem,
}

-- The directive does what adding its text does; an unknown one may not be a line end.
print_directive_lem :
    (width c : ℕ) (args : List Arg) (s : Screen)
    → is_line_end c ≡ false
    → print_directive width c args s ≡ map_rest (λ t. put_chars t s) (directive_text width c args)
unfolding print_directive directive_text put_chars
print_directive_lem width c args s plain =
    if-map_rest out (c == b'c') _ _ _ _ (for_char (next_word args)) (
      if-map_rest out (c == b's') _ _ _ _ (for_text (next_text args)) (
        if-map_rest out (c == b'd' || c == b'i') _ _ _ _ (print_decimal_lem width args s) (
          if-map_rest out (c == b'u') _ _ _ _ (print_decimal_lem width args s) (
            if-map_rest out (c == b'x') _ _ _ _ (print_hex_lem args s) (
              if-map_rest out (c == b'X') _ _ _ _ (print_upper_hex_lem args s) (
                if-map_rest out (c == b'o') _ _ _ _ (print_octal_lem args s) (
                  if-map_rest out (c == b'p') _ _ _ _ (print_hex_lem args s) (
                    if-map_rest out (c == b'%') _ _ _ _ (literal b'%' args refl)
                      (unknown c args plain)))))))))
  where
    out : List ℕ → Screen
    out t = put_chars t s

    literal :
        (c : ℕ) (args : List Arg)
        → is_line_end c ≡ false
        → some (args, vga_put c white s) ≡ map_rest out (some (args, c ∷ []))
    literal c args h = ap (λ x. some (args, x)) (sym (put_char-plain c s h))

    unknown :
        (c : ℕ) (args : List Arg)
        → is_line_end c ≡ false
        → some (args, vga_put c white (vga_put b'%' white s))
          ≡ map_rest out (some (args, b'%' ∷ c ∷ []))
    unknown c args h =
        ap (λ x. some (args, x))
          (rw (put_char-plain b'%' s refl, put_char-plain c (vga_put b'%' white s) h))

    for_char :
        (r : Option (ℕ × List Arg))
        → (elim r [ none ↦ none | some (v, rest) ↦ some (rest, put_char (u8 v) s) ])
          ≡ map_rest out (elim r [ none ↦ none | some (v, rest) ↦ some (rest, u8 v ∷ []) ])
    for_char none = refl
    for_char (some (v, rest)) = refl

    for_text :
        (r : Option (Option (List ℕ) × List Arg))
        → (elim r [
          | none ↦ none
          | some (t, rest) ↦
              some (rest, put_chars (bytes_of t) (put_spaces (width - length (bytes_of t)) s))
        ])
          ≡ map_rest out
              (elim r [ none ↦ none | some (t, rest) ↦ some (rest, padded width (bytes_of t)) ])
    for_text none = refl
    for_text (some (t, rest)) =
        ap (λ x. some (rest, x))
          (ap (put_chars (bytes_of t)) (put_spaces_lem (width - length (bytes_of t)) s)
            ∙ sym (put_chars-append (spaces (width - length (bytes_of t))) (bytes_of t) s))

printf_step_lem :
    (mode : Mode) (c : ℕ) (args : List Arg) (s : Screen)
    → is_letter mode c ≡ true
    → printf_step mode c args s ≡ map_step (λ t. put_chars t s) (text_step mode c args)
unfolding printf_step text_step put_chars
printf_step_lem in_text c args s h = elim (Bool-cases (c == b'%')) [
  | inl starts ↦ rw (starts, not_end starts)
  | inr plain ↦ elim (Bool-cases (is_line_end c)) [
    | inl ends ↦ rw (plain, ends) (ap (λ x. some (in_text, args, x)) (sym (put_char-end c s ends)))
    | inr inside ↦
        rw (plain, inside) (ap (λ x. some (in_text, args, x)) (sym (put_char-plain c s inside)))
  ]
]
  where
    not_end : c == b'%' ≡ true → is_line_end c ≡ false
    not_end e = ground (arith, e)
printf_step_lem (in_field width) c args s h = elim (Bool-cases (is_digit c)) [
  | inl more ↦ rw more
  | inr ends ↦
      rw (ends, print_directive_lem width c args s (ground (arith, h)))
        (map_step-map_rest (λ t. put_chars t s) (directive_text width c args))
]

text_step-next_mode :
    (mode mode' : Mode) (c : ℕ) (args args' : List Arg) (t : List ℕ)
    → text_step mode c args ≡ some (mode', args', t)
    → mode' ≡ next_mode mode c
unfolding text_step
text_step-next_mode in_text mode' c args args' t e = elim (Bool-cases (c == b'%')) [
  | inl starts ↦ ground (arith, rw (text_step, starts) at e, starts)
  | inr plain ↦ ground (arith, rw (text_step, plain) at e, plain)
]
text_step-next_mode (in_field width) mode' c args args' t e = elim (Bool-cases (is_digit c)) [
  | inl more ↦ ground (arith, rw (text_step, more) at e, more)
  | inr ends ↦ elim (Option-cases (directive_text width c args)) [
    | inl bad ↦ ground (arith, rw (text_step, ends, bad) at e)
    | inr (r, good) ↦ ground (arith, rw (text_step, ends, good) at e, ends)
  ]
]

printf_from_lem :
    (mode : Mode) (cs : List ℕ) (args : List Arg) (s : Screen)
    → is_proper mode cs ≡ true
    → printf_from mode cs args s ≡ map (λ t. put_chars t s) (text_from mode cs args)
unfolding printf_from text_from put_chars
printf_from_lem in_text [] args s h = refl
printf_from_lem (in_field width) [] args s h = refl
printf_from_lem mode (c ∷ cs) args s h =
    let step = printf_step_lem mode c args s (ground (arith, h)) in
    elim (Option-cases (text_step mode c args)) [
      | inl e ↦ rw (printf_from, text_from, step, e)
      | inr ((mode', args', t), e) ↦
          rw (printf_from, text_from, step, e)
            (printf_from_lem mode' cs args' (put_chars t s)
                (rw (text_step-next_mode mode mode' c args args' t e) (ground (arith, h)))
              ∙ joined t (text_from mode' cs args'))
    ]
  where
    joined :
        (t : List ℕ) (r : Option (List ℕ))
        → map (λ ts. put_chars ts (put_chars t s)) r
          ≡ map (λ ts. put_chars ts s) (elim r [ none ↦ none | some ts ↦ some (t ++ ts) ])
    joined t none = refl
    joined t (some ts) = ap some (sym (put_chars-append t ts s))

-- If no directive of the format has a line end for its letter, `printf` puts the text of the
-- format with its arguments on the screen byte by byte, a line end as a new line, and has a
-- result exactly if there is such a text.
pub printf_lem :
    (format : List ℕ) (args : List Arg) (s : Screen)
    → is_proper in_text format ≡ true
    → printf format args s ≡ map (λ t. put_chars t s) (format_text format args)
unfolding printf
printf_lem format args s h = printf_from_lem in_text format args s h
