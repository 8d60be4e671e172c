-- ===== src/Stdio/Sprintf/Laws.antt =====
-- `sprintf` against the text of its format.
use lumen_os.Prelude.{
  ◌≤◌, get_elem?, ◌⊎◌, ◌<◌, inr, inl, Bool-cases, arith, ◌+◌, ℕ, zero, suc, ◌-◌, ◌≡◌, ◌∙◌, refl,
  sym, ap, ◌||◌, Option, Option-cases, none, some, List, [], ◌∷◌, ◌++◌, ◌==◌, u8, length,
}
use mathlib.Core.Option.{map}
use lumen_os.Memory.{Memory, store8, store8_at, store8_self}
use lumen_os.Stdio.Args.{
  is_digit, in_field, in_text, Mode, map_rest, if-map_rest, number_then, number_then-map, Arg,
  next_word, next_text, bytes_of, uppercase,
}
use lumen_os.Stdio.Text.{
  map_step, map_step-map_rest, format_text, text_from, text_step, spaces, padded, hex_text,
  directive_text,
}
use lumen_os.Stdio.Sprintf.{
  sprintf, Memory, store8, sprintf_from, sprintf_step, Out, put, puts, put_blanks, write_decimal,
  write_hex, write_upper_hex, write_octal, write_directive,
}

puts-append :
    (str : ℕ) (as' bs : List ℕ) (o : Out) → puts str (as' ++ bs) o ≡ puts str bs (puts str as' o)
unfolding puts
puts-append str [] bs o = refl
puts-append str (c ∷ cs) bs o = puts-append str cs bs (put str c o)

blanks-puts : (str n : ℕ) (o : Out) → put_blanks str n o ≡ puts str (spaces n) o
unfolding puts put_blanks
blanks-puts str zero o = refl
blanks-puts str (suc n) o = blanks-puts str n (put str b' ' o)

padded-puts :
    (str width : ℕ) (cs : List ℕ) (o : Out)
    → puts str cs (put_blanks str (width - length cs) o) ≡ puts str (padded width cs) o
padded-puts str width cs o =
    rw (blanks-puts str (width - length cs) o)
      (sym (puts-append str (spaces (width - length cs)) cs o))

write_decimal_lem :
    (str width : ℕ) (args : List Arg) (o : Out)
    → write_decimal str width args o
      ≡ map_rest (λ t. puts str t o) (number_then 10 args (padded width))
unfolding write_decimal
write_decimal_lem str width args o =
    number_then-map 10 args (padded width)
      (λ buffer. puts str buffer (put_blanks str (width - length buffer) o)) (λ t. puts str t o)
      (λ val rest ds e fits. padded-puts str width ds o)

write_hex_lem :
    (str : ℕ) (args : List Arg) (o : Out)
    → write_hex str args o ≡ map_rest (λ t. puts str t o) (number_then 16 args hex_text)
unfolding write_hex puts
write_hex_lem str args o =
    number_then-map 16 args hex_text (λ buffer. puts str buffer (put str b'x' (put str b'0' o)))
      (λ t. puts str t o) (λ val rest ds e fits. refl)

write_upper_hex_lem :
    (str : ℕ) (args : List Arg) (o : Out)
    → write_upper_hex str args o
      ≡ map_rest (λ t. puts str t o) (number_then 16 args (λ ds. hex_text (uppercase ds)))
unfolding write_upper_hex puts
write_upper_hex_lem str args o =
    number_then-map 16 args (λ ds. hex_text (uppercase ds))
      (λ buffer. puts str (uppercase buffer) (put str b'x' (put str b'0' o))) (λ t. puts str t o)
      (λ val rest ds e fits. refl)

write_octal_lem :
    (str : ℕ) (args : List Arg) (o : Out)
    → write_octal str args o ≡ map_rest (λ t. puts str t o) (number_then 8 args (λ ds. ds))
unfolding write_octal
write_octal_lem str args o =
    number_then-map 8 args (λ ds. ds) (λ buffer. puts str buffer o) (λ t. puts str t o)
      (λ val rest ds e fits. refl)

-- The directive does what adding its text does.
write_directive_lem :
    (str width c : ℕ) (args : List Arg) (o : Out)
    → write_directive str width c args o
      ≡ map_rest (λ t. puts str t o) (directive_text width c args)
unfolding write_directive directive_text puts
write_directive_lem str width c args o =
    if-map_rest out (c == b'c') _ _ _ _ (for_char (next_word args)) (
      if-map_rest out (c == b's') _ _ _ _ (for_text (next_text args)) (
        if-map_rest out (c == b'd' || c == b'i') _ _ _ _ (write_decimal_lem str width args o) (
          if-map_rest out (c == b'u') _ _ _ _ (write_decimal_lem str width args o) (
            if-map_rest out (c == b'x') _ _ _ _ (write_hex_lem str args o) (
              if-map_rest out (c == b'X') _ _ _ _ (write_upper_hex_lem str args o) (
                if-map_rest out (c == b'o') _ _ _ _ (write_octal_lem str args o) (
                  if-map_rest out (c == b'p') _ _ _ _ (write_hex_lem str args o)
                    (if-map_rest out (c == b'%') _ _ _ _ refl refl))))))))
  where
    out : List ℕ → Out
    out t = puts str t o

    for_char :
        (r : Option (ℕ × List Arg))
        → (elim r [ none ↦ none | some (v, rest) ↦ some (rest, put str (u8 v) o) ])
          ≡ map_rest
              (λ t. puts str t o)
              (elim r [ none ↦ none | some (v, rest) ↦ some (rest, u8 v ∷ []) ])
    for_char none = refl
    for_char (some (v, rest)) = refl

    for_text :
        (r : Option (Option (List ℕ) × List Arg))
        → (elim r [
          | none ↦ none
          | some (t, rest) ↦
              some (rest, puts str (bytes_of t) (put_blanks str (width - length (bytes_of t)) o))
        ])
          ≡ map_rest
              (λ t. puts str t o)
              (elim r [ none ↦ none | some (t, rest) ↦ some (rest, padded width (bytes_of t)) ])
    for_text none = refl
    for_text (some (t, rest)) = ap (λ x. some (rest, x)) (padded-puts str width (bytes_of t) o)

sprintf_step_lem :
    (str : ℕ) (mode : Mode) (c : ℕ) (args : List Arg) (o : Out)
    → sprintf_step str mode c args o ≡ map_step (λ t. puts str t o) (text_step mode c args)
unfolding sprintf_step text_step puts
sprintf_step_lem str in_text c args o = elim (Bool-cases (c == b'%')) [
  | inl starts ↦ rw starts
  | inr plain ↦ rw plain
]
sprintf_step_lem str (in_field width) c args o = elim (Bool-cases (is_digit c)) [
  | inl more ↦ rw more
  | inr ends ↦
      rw (ends, write_directive_lem str width c args o)
        (map_step-map_rest (λ t. puts str t o) (directive_text width c args))
]

-- The loop adds the text of what is left of the format.
sprintf_from_lem :
    (str : ℕ) (mode : Mode) (cs : List ℕ) (args : List Arg) (o : Out)
    → sprintf_from str mode cs args o ≡ map (λ t. puts str t o) (text_from mode cs args)
unfolding sprintf_from text_from puts
sprintf_from_lem str in_text [] args o = refl
sprintf_from_lem str (in_field width) [] args o = refl
sprintf_from_lem str mode (c ∷ cs) args o = elim (Option-cases (text_step mode c args)) [
  | inl e ↦ rw (sprintf_from, text_from, sprintf_step_lem str mode c args o, e)
  | inr ((mode', args', t), e) ↦
      rw (sprintf_from, text_from, sprintf_step_lem str mode c args o, e)
        (sprintf_from_lem str mode' cs args' (puts str t o) ∙ joined t (text_from mode' cs args'))
]
  where
    joined :
        (t : List ℕ) (r : Option (List ℕ))
        → map (λ ts. puts str ts (puts str t o)) r
          ≡ map (λ ts. puts str ts o) (elim r [ none ↦ none | some ts ↦ some (t ++ ts) ])
    joined t none = refl
    joined t (some ts) = ap some (sym (puts-append str t ts o))

get_elem?-lt : (t : List ℕ) (i c : ℕ) → get_elem? t i ≡ some c → i < length t
get_elem?-lt [] i c e = ground arith
get_elem?-lt (d ∷ ds) zero c e = ground arith
get_elem?-lt (d ∷ ds) (suc i) c e = ground (arith, get_elem?-lt ds i c)

-- What a caller of `sprintf` finds: the bytes of the text from `str` on, a zero behind them, and
-- nothing else changed.
pub record HasWritten (m m' : Memory) (str : ℕ) (t : List ℕ) : Type 0 where
  pub bytes : (i c : ℕ) → get_elem? t i ≡ some c → m' (str + i) ≡ u8 c
  pub ends : m' (str + length t) ≡ 0
  pub beside : (x : ℕ) → (x < str) ⊎ (str + length t < x) → m' x ≡ m x

pos-puts : (str : ℕ) (t : List ℕ) (o : Out) → (puts str t o).pos ≡ o.pos + length t
unfolding puts put
pos-puts str [] o = omega arith
pos-puts str (c ∷ cs) o = omega (arith, pos-puts str cs (put str c o))

beside-puts :
    (str : ℕ) (t : List ℕ) (o : Out) (x : ℕ)
    → (x < str + o.pos) ⊎ (str + o.pos + length t ≤ x)
    → (puts str t o).memory x ≡ o.memory x
unfolding puts put
beside-puts str [] o x out = refl
beside-puts str (c ∷ cs) o x out =
    ground (arith, beside-puts str cs (put str c o) x, store8_at o.memory (str + o.pos) (u8 c) x)

memory-puts :
    (str : ℕ) (t : List ℕ) (o : Out) (i c : ℕ)
    → get_elem? t i ≡ some c
    → (puts str t o).memory (str + o.pos + i) ≡ u8 c
unfolding puts put
memory-puts str (d ∷ ds) o zero c e = ground (
  arith,
  beside-puts str ds (put str d o) (str + o.pos),
  store8_self o.memory (str + o.pos) (u8 d),
)
memory-puts str (d ∷ ds) o (suc i) c e = ground (arith, memory-puts str ds (put str d o) i c)
memory-puts str [] o i c e = ground arith

-- If the text of the format with its arguments is `t`, `sprintf` returns the length of `t` and
-- leaves the bytes of `t` from `str` on, a zero behind them, and all other memory as it was.
pub sprintf_lem :
    (str : ℕ) (format : List ℕ) (args : List Arg) (m : Memory) (t : List ℕ)
    → format_text format args ≡ some t
    → (m' : Memory) × (sprintf str format args m ≡ some (length t, m')) × HasWritten m m' str t
unfolding sprintf
sprintf_lem str format args m t e =
    let o : Out = record { memory = m; pos = 0 } in
    let o' : Out = puts str t o in
    let n : o'.pos ≡ length t = omega (arith, pos-puts str t o) in
    (
      store8 o'.memory (str + o'.pos) 0,
      rw (sprintf, sprintf_from_lem str in_text format args o, e)
          (ap (λ n. some (n, store8 o'.memory (str + o'.pos) 0)) n),
      record {
        bytes = λ i c at. ground (
          arith,
          store8_at o'.memory (str + o'.pos) 0 (str + i),
          memory-puts str t o i c at,
          get_elem?-lt t i c at,
        );
        ends = rw (← n) (store8_self o'.memory (str + o'.pos) 0);
        beside =
            λ x out. ground (arith, store8_at o'.memory (str + o'.pos) 0 x, beside-puts str t o x);
      },
    )
