-- ===== src/Strings/Token/Text.antt =====
-- The token that `strtok` leaves in memory is a string of its own.
use lumen_os.Prelude.{
  ℕ, zero, suc, ◌+◌, ◌≤◌, ◌<◌, ◌≡◌, refl, ◌≢◌, inl, inr, true, false, some, List, [], ◌∷◌, arith,
  ◌==◌, if◌then◌else◌, Bool-cases, length,
}
use lumen_os.Memory.{Memory, store8}
use lumen_os.Memory.Text.{IsText}
use lumen_os.Strings.Token.{strtok}
use lumen_os.Strings.Token.Laws.{
  is_end, drop, take, run_of, run_of-le, IsText-drop, from_token, token_length, behind_token,
  tokenised, strtok_lem,
}

cut-IsText :
    (m : Memory) (p q b : ℕ) (cs : List ℕ)
    → IsText m p cs
    → b < length cs
    → q ≡ p + b
    → IsText (store8 m q 0) p (take b cs)
unfolding store8
cut-IsText m p q zero cs t h e = ground arith
cut-IsText m p q (suc b) [] t h e = absurd (omega arith)
cut-IsText m p q (suc b) (c ∷ cs) t h e =
    (ground arith, t.1, t.2, cut-IsText m (p + 1) q b cs t.3 (omega arith) (omega arith))

whole-IsText :
    (m : Memory) (p b : ℕ) (cs : List ℕ) → IsText m p cs → length cs ≤ b → IsText m p (take b cs)
whole-IsText m p zero [] t h = t
whole-IsText m p (suc b) [] t h = t
whole-IsText m p zero (c ∷ cs) t h = absurd (omega arith)
whole-IsText m p (suc b) (c ∷ cs) t h =
    (t.0, t.1, t.2, whole-IsText m (p + 1) b cs t.3 (omega arith))

drop-is_end : (n : ℕ) (cs : List ℕ) → is_end (drop n cs) ≡ true → length cs ≤ n
drop-is_end zero [] e = omega arith
drop-is_end zero (c ∷ cs) e = ground arith
drop-is_end (suc n) [] e = omega arith
drop-is_end (suc n) (c ∷ cs) e = omega (arith, drop-is_end n cs e)

drop-not_end : (n : ℕ) (cs : List ℕ) → is_end (drop n cs) ≡ false → n < length cs
drop-not_end zero [] e = ground arith
drop-not_end zero (c ∷ cs) e = omega arith
drop-not_end (suc n) [] e = ground arith
drop-not_end (suc n) (c ∷ cs) e = omega (arith, drop-not_end n cs e)

-- Where a string has a token, the pointer that `strtok` gives for it is that of a string of
-- exactly the token's characters in the memory afterwards.
pub tokenised-IsText :
    (m : Memory) (p : ℕ) (ds cs : List ℕ)
    → IsText m p cs
    → is_end (from_token ds cs) ≡ false
    → let (start, _, m') = tokenised m p ds cs in
      IsText m' start (take (token_length ds cs) (from_token ds cs))
tokenised-IsText m p ds cs t some_token =
    let rest : IsText m (p + run_of true ds cs) (from_token ds cs) =
      IsText-drop m p cs (run_of true ds cs) t (run_of-le true ds cs) in
    elim (Bool-cases (is_end (behind_token ds cs))) [
      | inl last ↦
          rw (some_token, last)
            (whole-IsText m (p + run_of true ds cs) (token_length ds cs) (from_token ds cs) rest
              (drop-is_end (token_length ds cs) (from_token ds cs) last))
      | inr more ↦
          rw (some_token, more)
            (cut-IsText m (p + run_of true ds cs) (p + run_of true ds cs + token_length ds cs)
              (token_length ds cs) (from_token ds cs) rest
              (drop-not_end (token_length ds cs) (from_token ds cs) more) refl)
    ]

-- Under the conditions of `strtok_lem`, if the string has a character that is no delimiter,
-- `strtok` ends, and the pointer that it returns is that of a string of exactly the token's
-- characters in the memory afterwards.
pub strtok-IsText :
    (fuel : ℕ) (m : Memory) (next str delim : ℕ) (ds cs : List ℕ)
    → delim ≢ 0
    → (if str == 0 then next else str) ≢ 0
    → IsText m delim ds
    → IsText m (if str == 0 then next else str) cs
    → length ds < fuel
    → length cs < fuel
    → is_end (from_token ds cs) ≡ false
    → (start next' : ℕ) × (m' : Memory) × (strtok fuel m next str delim ≡ some (start, next', m'))
      × IsText m' start (take (token_length ds cs) (from_token ds cs))
strtok-IsText fuel m next str delim ds cs there from td tc enough long some_token =
    let p : ℕ = if str == 0 then next else str in
    let r : ℕ × ℕ × Memory = tokenised m p ds cs in
    (
      r.0,
      r.1,
      r.2,
      strtok_lem fuel m next str delim ds cs there from td tc enough long,
      tokenised-IsText m p ds cs tc some_token,
    )
