-- ===== src/Stdio/Itoa.antt =====
-- `itoa` of src/stdlib/stdio.c. An `int` is its bit pattern, below 2^32. `-value` of the least
-- `int` is taken to wrap. The result is the text in `str` before the zero, `none` if the digits
-- do not fit the local buffer of 32 bytes.
pub mod Laws
pub mod Lines
use lumen_os.Prelude.{
  ℕ, zero, suc, ◌+◌, ◌-◌, ◌*◌, ◌/◌, ◌%◌, ◌^◌, ◌≤◌, ◌<◌, ◌≡◌, refl, sym, ap, ◌∙◌, fun_ext, ◌≢◌, ◌↔◌,
  ◌⊎◌, inl, inr, Bool, true, false, ◌&&◌, ◌||◌, not, Option, none, some, List, [], ◌∷◌, ◌++◌,
  append-nil, append_assoc, arith, ltb, leb, ◌==◌, if◌then◌else◌, u8, u16, u32, ==-true, ==-false,
  ltb-true, ltb-false, ==_iff, Bool-cases, Option-cases, u8-byte, length, get_elem?, length-append,
  codes,
}
use native.Mathlib.Nat.{le_trans, add-zero, mod-eq_of_lt, add_assoc, add_comm, mod-lt}

pub digit_text : List ℕ
digit_text = codes "0123456789ABCDEF"

pub digit : ℕ → ℕ
unfolding digit_text
digit d = elim (get_elem? digit_text d) [ none ↦ 0 | some c ↦ c ]

-- `while (uval)`. The buffer is kept newest digit first, which is the order in which the last
-- loop of `itoa` copies it to `str`; the fuel is the room that the buffer has left.
unfoldable pub collect : ℕ → ℕ → ℕ → List ℕ → Option (List ℕ)
unfolding digit
collect zero base uval buf = if uval == 0 then some buf else none
collect (suc room) base uval buf =
    let rest = collect room base (uval / base) (digit (uval % base) ∷ buf) in
    if uval == 0 then some buf else rest

abbrev pub is_negative : ℕ → Bool
is_negative value = leb (2 ^ 31) value

-- `uval`
unfoldable pub unsigned_of : ℕ → ℕ → ℕ
unsigned_of value base = if base == 10 && is_negative value then u32 (2 ^ 32 - value) else value

unfoldable pub itoa : ℕ → ℕ → Option (List ℕ)
itoa value base =
    if value == 0 then some (b'0' ∷ []) else (elim (collect 32 base (unsigned_of value base) []) [
      | none ↦ none
      | some buf ↦ some (if base == 10 && is_negative value then b'-' ∷ buf else buf)
    ])
