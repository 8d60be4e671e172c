-- ===== src/Stdio/Args.antt =====
-- The arguments of `printf` and `sprintf` behind the format. A `va_list` is the list of the
-- arguments that are left; an argument that is missing or of another kind, which C leaves
-- undefined, gives `none`.
use lumen_os.Stdio.Itoa.{itoa}
use lumen_os.Prelude.{
  ap, inr, inl, Option-cases, ◌≡◌, ℕ, ◌-◌, Bool, true, false, ◌&&◌, ◌||◌, Option, none, some, List,
  [], ◌∷◌, leb, ◌==◌, if◌then◌else◌,
}

-- A number or a pointer by its bit pattern, or a pointer to a text by the text; `text none` is
-- NULL.
pub data Arg : Type 0 where
  word : ℕ → Arg
  text : Option (List ℕ) → Arg

unfoldable pub next_word : List Arg → Option (ℕ × List Arg)
next_word [] = none
next_word (word v ∷ rest) = some (v, rest)
next_word (text t ∷ rest) = none

unfoldable pub next_text : List Arg → Option (Option (List ℕ) × List Arg)
next_text [] = none
next_text (word v ∷ rest) = none
next_text (text t ∷ rest) = some (t, rest)

-- `val = va_arg(args, int); itoa(val, buffer, base);`, and what is done with the text in the
-- buffer.
unfoldable pub number_then : {S : Type 0} → ℕ → List Arg → (List ℕ → S) → Option (List Arg × S)
number_then base args f = elim (next_word args) [
  | none ↦ none
  | some (val, rest) ↦ elim (itoa val base) [ none ↦ none | some buffer ↦ some (rest, f buffer) ]
]

abbrev pub map_rest : {S T : Type 0} → (S → T) → Option (List Arg × S) → Option (List Arg × T)
map_rest h none = none
map_rest h (some (rest, x)) = some (rest, h x)

pub number_then-map :
    {S T : Type 0} (base : ℕ) (args : List Arg) (f : List ℕ → S) (g : List ℕ → T) (h : S → T)
    → ((val : ℕ) (rest : List Arg) (ds : List ℕ)
        → next_word args ≡ some (val, rest)
        → itoa val base ≡ some ds
        → g ds ≡ h (f ds))
    → number_then base args g ≡ map_rest h (number_then base args f)
unfolding number_then
number_then-map base args f g h same = elim (Option-cases (next_word args)) [
  | inl e ↦ rw (number_then, e)
  | inr ((val, rest), e) ↦ elim (Option-cases (itoa val base)) [
    | inl none_fits ↦ rw (number_then, e, none_fits)
    | inr (ds, fits) ↦
        rw (number_then, e, fits) (ap (λ x. some (rest, x)) (same val rest ds e fits))
  ]
]

pub if-map_rest :
    {S T : Type 0} (h : S → T) (b : Bool) (x y : Option (List Arg × T))
    (x' y' : Option (List Arg × S))
    → x ≡ map_rest h x'
    → y ≡ map_rest h y'
    → (if b then x else y) ≡ map_rest h (if b then x' else y')
if-map_rest h true x y x' y' p q = p
if-map_rest h false x y x' y' p q = q

-- The bytes that the loops over a `%s` argument see.
abbrev pub bytes_of : Option (List ℕ) → List ℕ
bytes_of none = []
bytes_of (some cs) = cs

abbrev pub is_line_end : ℕ → Bool
is_line_end c = c == b'\n' || c == b'\r'

abbrev pub is_digit : ℕ → Bool
is_digit c = leb b'0' c && leb c b'9'

-- The loop of `%X` over the digits.
unfoldable pub uppercase : List ℕ → List ℕ
uppercase [] = []
uppercase (c ∷ cs) = (if leb b'a' c && leb c b'f' then c - 32 else c) ∷ uppercase cs

-- What `printf` and `sprintf` are between two bytes of the format: in the text, or behind a `%`
-- with the field width so far.
-- A width above the largest `int`, which C leaves undefined, is a number like any other.
pub data Mode : Type 0 where
  in_text : Mode
  in_field : ℕ → Mode
