-- ===== src/Stdio/Itoa/Laws.antt =====
-- What `itoa` writes reads back as the number.
use lumen_os.Prelude.{
  Option-cases, ==-false, none, ◌≢◌, ◌&&◌, length, ℕ, zero, suc, ◌+◌, ◌-◌, ◌*◌, ◌/◌, ◌%◌, ◌^◌, ◌≤◌,
  ◌<◌, ◌≡◌, refl, ap, ◌∙◌, inl, inr, true, some, List, [], ◌∷◌, arith, leb, ◌==◌, if◌then◌else◌,
  ==-true, ==_iff, Bool-cases,
}
use native.Mathlib.Nat.{div-add-mod, pow-suc}
use lumen_os.Prelude.Bits.{holds_below, holds_below-at}
use lumen_os.Stdio.Itoa.{unsigned_of, is_negative, itoa, digit, collect}

unfoldable pub digit_value : ℕ → ℕ
digit_value c = if leb c b'9' then c - b'0' else c - b'A' + 10

-- The number that a text stands for, behind a number that has been read.
abbrev pub read_digits : ℕ → ℕ → List ℕ → ℕ
read_digits base acc [] = acc
read_digits base acc (c ∷ cs) = read_digits base (acc * base + digit_value c) cs

digit_check : holds_below (λ d. digit_value (digit d) == d) 16 ≡ true
unfolding holds_below digit digit_value
digit_check = refl

digit_value-digit : (d : ℕ) → d < 16 → digit_value (digit d) ≡ d
digit_value-digit d h =
    (==_iff _ d).0 (holds_below-at (λ d. digit_value (digit d) == d) 16 d h digit_check)

halve : (u b p : ℕ) → 2 ≤ b → u < 2 * p → u / b < p
halve u b p lo h = grind arith

collect_lem :
    (room base uval : ℕ) (buf : List ℕ)
    → 2 ≤ base
    → base ≤ 16
    → uval < 2 ^ room
    → (out : List ℕ) × (collect room base uval buf ≡ some out)
      × (read_digits base 0 out ≡ read_digits base uval buf)
unfolding collect
collect_lem zero base uval buf lo hi h =
    (buf, rw (==-true uval 0 (omega arith)), ap (λ n. read_digits base n buf) (omega arith))
collect_lem (suc room) base uval buf lo hi h = elim (Bool-cases (uval == 0)) [
  | inl done ↦ (buf, rw done, ap (λ n. read_digits base n buf) (ground arith))
  | inr more ↦
      let (out, e, r) =
        collect_lem room base (uval / base) (digit (uval % base) ∷ buf) lo hi
          (halve uval base (2 ^ room) lo (omega (arith, pow-suc 2 room))) in
      (
        out,
        rw more e,
        r
            ∙ ap (λ n. read_digits base n buf)
                (omega
                  (arith, digit_value-digit (uval % base) (omega arith), div-add-mod uval base)),
      )
]

eighth : (u b p : ℕ) → 8 ≤ b → u < 8 * p → u / b < p
eighth u b p lo h = grind arith

collect-length :
    (room base uval k : ℕ) (buf out : List ℕ)
    → 8 ≤ base
    → uval < 8 ^ k
    → collect room base uval buf ≡ some out
    → length out ≤ length buf + k
unfolding collect
collect-length zero base uval k buf out lo h e = ground arith
collect-length (suc room) base uval zero buf out lo h e = ground arith
collect-length (suc room) base uval (suc k) buf out lo h e = elim (Bool-cases (uval == 0)) [
  | inl done ↦ ground (arith, rw done at e)
  | inr more ↦ omega (
    arith,
    collect-length room base (uval / base) k (digit (uval % base) ∷ buf) out lo
        (eighth uval base (8 ^ k) lo (omega (arith, pow-suc 8 k))) (rw more at e),
  )
]

-- The number that `itoa` writes digits of: the size of a negative number in base 10, else the
-- pattern.
abbrev pub magnitude : ℕ → ℕ → ℕ
magnitude value base = if base == 10 && is_negative value then 2 ^ 32 - value else value

abbrev pub with_sign : ℕ → ℕ → List ℕ → List ℕ
with_sign value base ds = if base == 10 && is_negative value then b'-' ∷ ds else ds

unsigned_of_lem : (value base : ℕ) → value < 2 ^ 32 → unsigned_of value base ≡ magnitude value base
unfolding unsigned_of
unsigned_of_lem value base h = ground arith

unsigned_of-lt : (value base : ℕ) → value < 2 ^ 32 → unsigned_of value base < 2 ^ 32
unfolding unsigned_of
unsigned_of-lt value base h = ground arith

itoa-zero : (base : ℕ) → itoa 0 base ≡ some (with_sign 0 base (b'0' ∷ []))
unfolding itoa
itoa-zero base = ground arith

itoa-some :
    (value base : ℕ) (ds : List ℕ)
    → value ≢ 0
    → collect 32 base (unsigned_of value base) [] ≡ some ds
    → itoa value base ≡ some (with_sign value base ds)
unfolding itoa
itoa-some value base ds h e = rw (==-false value 0 h, itoa, e)

zero_reads : (base : ℕ) → read_digits base 0 (b'0' ∷ []) ≡ magnitude 0 base
unfolding digit_value
zero_reads base = ground arith

itoa-none :
    (value base : ℕ)
    → value ≢ 0
    → collect 32 base (unsigned_of value base) [] ≡ none
    → itoa value base ≡ none
unfolding itoa
itoa-none value base h e = rw (==-false value 0 h, itoa, e)

-- In every base from 2 to 16 `itoa` ends within its local buffer and writes digits that read back
-- as the number, behind a minus sign exactly if the base is 10 and the `int` is negative, where
-- they read back as its size.
pub itoa_lem :
    (value base : ℕ)
    → value < 2 ^ 32
    → 2 ≤ base
    → base ≤ 16
    → (ds : List ℕ) × (itoa value base ≡ some (with_sign value base ds))
      × (read_digits base 0 ds ≡ magnitude value base)
itoa_lem zero base h lo hi = (b'0' ∷ [], itoa-zero base, zero_reads base)
itoa_lem (suc v) base h lo hi =
    let (ds, e, r) =
      collect_lem 32 base (unsigned_of (suc v) base) [] lo hi (unsigned_of-lt (suc v) base h) in
    (ds, itoa-some (suc v) base ds (omega arith) e, r ∙ unsigned_of_lem (suc v) base h)

-- In the bases from 8 on, and so in all that the library uses, the text has at most 12 bytes, so
-- it fits a buffer of 32.
pub itoa-length :
    (value base : ℕ) (text : List ℕ)
    → value < 2 ^ 32
    → 8 ≤ base
    → itoa value base ≡ some text
    → length text ≤ 12
itoa-length zero base text h lo e = ground (arith, itoa-zero base)
itoa-length (suc v) base text h lo e =
    elim (Option-cases (collect 32 base (unsigned_of (suc v) base) [])) [
      | inl full ↦ absurd (nothing full)
      | inr (ds, got) ↦ ground (
        arith,
        collect-length 32 base (unsigned_of (suc v) base) 11 [] ds lo
            (omega (arith, unsigned_of-lt (suc v) base h)) got,
        itoa-some (suc v) base ds (omega arith) got,
      )
    ]
  where
    nothing : collect 32 base (unsigned_of (suc v) base) [] ≡ none → ⊥
    nothing full = cc (e, itoa-none (suc v) base (omega arith) full)
