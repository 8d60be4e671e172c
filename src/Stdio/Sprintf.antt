-- ===== src/Stdio/Sprintf.antt =====
-- `sprintf` of src/stdlib/stdio.c, as `printf` beside it.
pub mod Laws
use lumen_os.Prelude.{
  ℕ, zero, suc, ◌+◌, ◌-◌, ◌*◌, ◌||◌, Option, none, some, List, [], ◌∷◌, ◌==◌, if◌then◌else◌, u8,
  length,
}
use lumen_os.Memory.{Memory, store8}
use lumen_os.Stdio.Itoa.{itoa}
use lumen_os.Stdio.Args.{
  number_then, Arg, next_word, next_text, bytes_of, is_digit, uppercase, Mode, in_text, in_field,
}

-- The memory and `pos`.
pub record Out : Type 0 where
  pub memory : Memory
  pub pos : ℕ

-- `str[pos++] = c`
pub put : ℕ → ℕ → Out → Out
put str c o = record o { memory = store8 o.memory (str + o.pos) (u8 c); pos = o.pos + 1 }

pub puts : ℕ → List ℕ → Out → Out
puts str [] o = o
puts str (c ∷ cs) o = puts str cs (put str c o)

pub put_blanks : ℕ → ℕ → Out → Out
put_blanks str zero o = o
put_blanks str (suc left) o = put_blanks str left (put str b' ' o)

unfoldable pub write_decimal : ℕ → ℕ → List Arg → Out → Option (List Arg × Out)
write_decimal str width args o =
    number_then 10 args (λ buffer. puts str buffer (put_blanks str (width - length buffer) o))

unfoldable pub write_hex : ℕ → List Arg → Out → Option (List Arg × Out)
write_hex str args o =
    number_then 16 args (λ buffer. puts str buffer (put str b'x' (put str b'0' o)))

unfoldable pub write_upper_hex : ℕ → List Arg → Out → Option (List Arg × Out)
write_upper_hex str args o =
    number_then 16 args (λ buffer. puts str (uppercase buffer) (put str b'x' (put str b'0' o)))

unfoldable pub write_octal : ℕ → List Arg → Out → Option (List Arg × Out)
write_octal str args o = number_then 8 args (λ buffer. puts str buffer o)

pub write_directive : ℕ → ℕ → ℕ → List Arg → Out → Option (List Arg × Out)
write_directive str width c args o =
    if c == b'c'
    then (elim (next_word args) [ none ↦ none | some (v, rest) ↦ some (rest, put str (u8 v) o) ])
    else if c == b's'
    then (elim (next_text args) [
      | none ↦ none
      | some (t, rest) ↦
          some (rest, puts str (bytes_of t) (put_blanks str (width - length (bytes_of t)) o))
    ])
    else if c == b'd' || c == b'i'
    then write_decimal str width args o
    else if c == b'u'
    then write_decimal str width args o
    else if c == b'x'
    then write_hex str args o
    else if c == b'X'
    then write_upper_hex str args o
    else if c == b'o'
    then write_octal str args o
    else if c == b'p'
    then write_hex str args o
    else if c == b'%'
    then some (args, put str b'%' o)
    else some (args, put str c (put str b'%' o))

pub sprintf_step : ℕ → Mode → ℕ → List Arg → Out → Option (Mode × List Arg × Out)
sprintf_step str in_text c args o =
    if c == b'%' then some (in_field 0, args, o) else some (in_text, args, put str c o)
sprintf_step str (in_field width) c args o =
    if is_digit c
    then some (in_field (width * 10 + (c - b'0')), args, o)
    else (elim (write_directive str width c args o) [
      | none ↦ none
      | some (args', o') ↦ some (in_text, args', o')
    ])

pub sprintf_from : ℕ → Mode → List ℕ → List Arg → Out → Option Out
sprintf_from str in_text [] args o = some o
sprintf_from str (in_field width) [] args o = none
sprintf_from str mode (c ∷ cs) args o = elim (sprintf_step str mode c args o) [
  | none ↦ none
  | some (mode', args', o') ↦ sprintf_from str mode' cs args' o'
]

-- The number that is returned, and the memory.
pub sprintf : ℕ → List ℕ → List Arg → Memory → Option (ℕ × Memory)
sprintf str format args m =
    elim (sprintf_from str in_text format args (record { memory = m; pos = 0 })) [
      | none ↦ none
      | some o ↦ some (o.pos, store8 o.memory (str + o.pos) 0)
    ]
