-- ===== src/Stdio/Text.antt =====
-- What `printf` and `sprintf` have to put out: the text that a format and its arguments stand
-- for. `none` where the format or the arguments are wrong.
pub mod Laws
use lumen_os.Prelude.{
  ℕ, zero, suc, ◌+◌, ◌-◌, ◌*◌, ◌||◌, Bool, true, ◌&&◌, not, ◌≡◌, refl, Option, none, some, List, [],
  ◌∷◌, ◌++◌, ◌==◌, if◌then◌else◌, u8, length,
}
use lumen_os.Stdio.Args.{
  number_then, map_rest, Arg, next_word, next_text, bytes_of, is_digit, is_line_end, uppercase,
  Mode, in_text, in_field,
}

abbrev pub spaces : ℕ → List ℕ
spaces zero = []
spaces (suc n) = b' ' ∷ spaces n

-- Padded on the left to the width of the field.
abbrev pub padded : ℕ → List ℕ → List ℕ
padded width cs = spaces (width - length cs) ++ cs

abbrev pub hex_text : List ℕ → List ℕ
hex_text ds = b'0' ∷ b'x' ∷ ds

unfoldable pub directive_text : ℕ → ℕ → List Arg → Option (List Arg × List ℕ)
directive_text width c args =
    if c == b'c'
    then (elim (next_word args) [ none ↦ none | some (v, rest) ↦ some (rest, u8 v ∷ []) ])
    else if c == b's'
    then (elim (next_text args) [
      | none ↦ none
      | some (t, rest) ↦ some (rest, padded width (bytes_of t))
    ])
    else if c == b'd' || c == b'i'
    then number_then 10 args (padded width)
    else if c == b'u'
    then number_then 10 args (padded width)
    else if c == b'x'
    then number_then 16 args hex_text
    else if c == b'X'
    then number_then 16 args (λ ds. hex_text (uppercase ds))
    else if c == b'o'
    then number_then 8 args (λ ds. ds)
    else if c == b'p'
    then number_then 16 args hex_text
    else if c == b'%'
    then some (args, b'%' ∷ [])
    else some (args, b'%' ∷ c ∷ [])

-- One byte of the format, and the text that it adds.
unfoldable pub text_step : Mode → ℕ → List Arg → Option (Mode × List Arg × List ℕ)
text_step in_text c args =
    if c == b'%' then some (in_field 0, args, []) else some (in_text, args, c ∷ [])
text_step (in_field width) c args =
    if is_digit c
    then some (in_field (width * 10 + (c - b'0')), args, [])
    else (elim (directive_text width c args) [
      | none ↦ none
      | some (args', t) ↦ some (in_text, args', t)
    ])

unfoldable pub text_from : Mode → List ℕ → List Arg → Option (List ℕ)
text_from in_text [] args = some []
text_from (in_field width) [] args = none
text_from mode (c ∷ cs) args = elim (text_step mode c args) [
  | none ↦ none
  | some (mode', args', t) ↦ elim (text_from mode' cs args') [
    | none ↦ none
    | some ts ↦ some (t ++ ts)
  ]
]

-- The text of a format.
abbrev pub format_text : List ℕ → List Arg → Option (List ℕ)
format_text format args = text_from in_text format args

-- Where the format is behind its byte `c`.
abbrev pub next_mode : Mode → ℕ → Mode
next_mode in_text c = if c == b'%' then in_field 0 else in_text
next_mode (in_field width) c = if is_digit c then in_field (width * 10 + (c - b'0')) else in_text

abbrev pub is_letter : Mode → ℕ → Bool
is_letter in_text c = true
is_letter (in_field width) c = is_digit c || not (is_line_end c)

-- No directive has a line end for its letter.
abbrev pub is_proper : Mode → List ℕ → Bool
is_proper mode [] = true
is_proper mode (c ∷ cs) = is_letter mode c && is_proper (next_mode mode c) cs

abbrev pub map_step :
    {S T : Type 0} → (S → T) → Option (Mode × List Arg × S) → Option (Mode × List Arg × T)
map_step h none = none
map_step h (some (mode, args, x)) = some (mode, args, h x)

-- Behind a directive the format goes on as text.
pub map_step-map_rest :
    {S T : Type 0} (h : S → T) (r : Option (List Arg × S))
    → (elim (map_rest h r) as (λ x. Option (Mode × List Arg × T)) [
      | none ↦ none
      | some (args', y) ↦ some (in_text, args', y)
    ])
      ≡ map_step h (elim r as (λ x. Option (Mode × List Arg × S)) [
        | none ↦ none
        | some (args', x) ↦ some (in_text, args', x)
      ])
map_step-map_rest h none = refl
map_step-map_rest h (some (args', t)) = refl
