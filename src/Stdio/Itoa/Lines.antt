-- ===== src/Stdio/Itoa/Lines.antt =====
-- The text of `itoa` has no line end and fits its buffers.
use lumen_os.Prelude.{
  ℕ, zero, suc, ◌+◌, ◌/◌, ◌%◌, ◌≤◌, ◌≡◌, refl, inl, inr, Bool, true, false, ◌&&◌, not, some, List,
  [], ◌∷◌, arith, ◌==◌, Bool-cases, Option-cases, length, get_elem?,
}
use lumen_os.Stdio.Itoa.{itoa, digit, digit_text, collect, is_negative, unsigned_of}
use lumen_os.Stdio.Args.{is_line_end, uppercase}

-- No byte is a line end.
abbrev pub is_one_line : List ℕ → Bool
is_one_line [] = true
is_one_line (c ∷ cs) = not (is_line_end c) && is_one_line cs

one_of :
    (cs : List ℕ) (i c : ℕ)
    → is_one_line cs ≡ true
    → get_elem? cs i ≡ some c
    → is_line_end c ≡ false
one_of [] i c h e = ground arith
one_of (d ∷ ds) zero c h e = ground (arith, h)
one_of (d ∷ ds) (suc i) c h e = one_of ds i c (ground (arith, h)) e

digit-is_line_end : (d : ℕ) → is_line_end (digit d) ≡ false
unfolding digit digit_text
digit-is_line_end d = elim (Option-cases (get_elem? digit_text d)) [
  | inl e ↦ rw e
  | inr (c, e) ↦ rw e (one_of digit_text d c refl e)
]

collect-is_one_line :
    (room base uval : ℕ) (buf out : List ℕ)
    → is_one_line buf ≡ true
    → collect room base uval buf ≡ some out
    → (is_one_line out ≡ true) × (length out ≤ length buf + room)
unfolding collect
collect-is_one_line zero base uval buf out h e = ground arith
collect-is_one_line (suc room) base uval buf out h e = elim (Bool-cases (uval == 0)) [
  | inl done ↦ ground (arith, rw done at e)
  | inr more ↦ ground (
    arith,
    collect-is_one_line room base (uval / base) (digit (uval % base) ∷ buf) out
        (rw (digit-is_line_end (uval % base)) h) (rw more at e),
  )
]

pub itoa-is_one_line :
    (value base : ℕ) (ds : List ℕ)
    → itoa value base ≡ some ds
    → (is_one_line ds ≡ true) × (length ds ≤ 33)
unfolding itoa
itoa-is_one_line value base ds e = elim (Bool-cases (value == 0)) [
  | inl none_left ↦ ground (arith, rw (itoa, none_left) at e)
  | inr more ↦ elim (Option-cases (collect 32 base (unsigned_of value base) [])) [
    | inl full ↦ ground (arith, rw (itoa, more, full) at e)
    | inr (out, got) ↦ elim (Bool-cases (base == 10 && is_negative value)) [
      | inl minus ↦ ground (
        arith,
        rw (itoa, more, got, minus) at e,
        collect-is_one_line 32 base (unsigned_of value base) [] out refl got,
      )
      | inr plus ↦ ground (
        arith,
        rw (itoa, more, got, plus) at e,
        collect-is_one_line 32 base (unsigned_of value base) [] out refl got,
      )
    ]
  ]
]

pub uppercase-is_one_line :
    (cs : List ℕ) → is_one_line cs ≡ true → is_one_line (uppercase cs) ≡ true
unfolding uppercase
uppercase-is_one_line [] h = refl
uppercase-is_one_line (c ∷ cs) h = ground (arith, h, uppercase-is_one_line cs)

pub length-uppercase : (cs : List ℕ) → length (uppercase cs) ≡ length cs
unfolding uppercase
length-uppercase [] = refl
length-uppercase (c ∷ cs) = omega (arith, length-uppercase cs)
