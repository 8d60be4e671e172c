-- ===== src/Strings/Token.antt =====
-- `strtok` of src/stdlib/string.c. Its static variable `next` is an argument and part of the
-- result, which is the returned pointer, the new `next` and the memory. The loops run on fuel,
-- and `NULL` is the pointer 0.
pub mod Laws
pub mod Text
pub mod Words
pub mod Loop
pub mod Split
use lumen_os.Prelude.{
  ℕ, zero, suc, ◌+◌, ◌-◌, ◌*◌, ◌/◌, ◌%◌, ◌^◌, ◌≤◌, ◌<◌, ◌≡◌, refl, sym, ap, ◌∙◌, fun_ext, ◌≢◌, ◌↔◌,
  ◌⊎◌, inl, inr, Bool, true, false, ◌&&◌, ◌||◌, not, Option, none, some, List, [], ◌∷◌, ◌++◌,
  append-nil, append_assoc, arith, ltb, leb, ◌==◌, if◌then◌else◌, u8, u16, u32, ==-true, ==-false,
  ltb-true, ltb-false, ==_iff, Bool-cases, Option-cases, u8-byte, length, get_elem?, length-append,
  codes,
}
use native.Mathlib.Nat.{le_trans, add-zero, mod-eq_of_lt, add_assoc, add_comm, mod-lt}
use lumen_os.Memory.{Memory, store8}
use lumen_os.Strings.Scan.{strchr}

-- Whether a loop goes on that runs over delimiters (`true`) or over other characters (`false`),
-- where `strchr` gave `found`.
pub goes_on : Bool → ℕ → Bool
goes_on true found = not (found == 0)
goes_on false found = found == 0

-- Both loops of `strtok`, from `next` on; `fuel` is for `strchr`.
unfoldable pub advance : Bool → ℕ → ℕ → Memory → ℕ → ℕ → Option ℕ
unfolding goes_on
advance over zero fuel m delim next = none
advance over (suc left) fuel m delim next = elim (m next == 0) [
  | true ↦ some next
  | false ↦ elim (strchr fuel m delim (m next)) [
    | none ↦ none
    | some found ↦ elim (goes_on over found) [
      | true ↦ advance over left fuel m delim (next + 1)
      | false ↦ some next
    ]
  ]
]

-- The code from the first loop on.
unfoldable pub token_from : ℕ → Memory → ℕ → ℕ → Option (ℕ × ℕ × Memory)
token_from fuel m next delim = elim (advance true fuel fuel m delim next) [
  | none ↦ none
  | some start ↦
      if m start == 0 then some (0, start, m) else (elim (advance false fuel fuel m delim start) [
        | none ↦ none
        | some end ↦
            if m end == 0 then some (start, 0, m) else some (start, end + 1, store8 m end 0)
      ])
]

unfoldable pub strtok : ℕ → Memory → ℕ → ℕ → ℕ → Option (ℕ × ℕ × Memory)
strtok fuel m next str delim =
    let from = if str == 0 then next else str in
    if from == 0 then some (0, from, m) else token_from fuel m from delim
