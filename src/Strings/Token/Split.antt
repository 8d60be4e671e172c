-- ===== src/Strings/Token/Split.antt =====
-- The loop over the tokens ends, and finds the words of the text.
use lumen_os.Prelude.{
  ℕ, zero, suc, ◌+◌, ◌<◌, ◌≡◌, refl, ◌≢◌, inl, inr, true, false, List, ◌∷◌, arith, ◌==◌,
  if◌then◌else◌, ==-false, Bool-cases, length,
}
use mathlib.Core.Path.{subst}
use lumen_os.Memory.{Memory, store8, store8_ne}
use lumen_os.Memory.Text.{IsText, IsText-frame}
use lumen_os.Strings.Token.Laws.{
  run_of, is_end, from_token, token_length, behind_token, IsText-drop, run_of-le,
}
use lumen_os.Strings.Token.Words.{words}
use lumen_os.Strings.Token.Loop.{
  tokens, IsSplit, Apart, is_end-cons, IsSplit-none, IsSplit-last, IsSplit-more, split-size,
}

module _ (fuel delim : ℕ) (ds : List ℕ) (there : delim ≢ 0) (enough : length ds < fuel) where
  split :
      (n : ℕ) (m : Memory) (next str p : ℕ) (cs : List ℕ)
      → (if str == 0 then next else str) ≡ p
      → p ≢ 0
      → IsText m delim ds
      → IsText m p cs
      → Apart p cs delim ds
      → length cs < fuel
      → length cs < n
      → IsSplit m p cs (words ds cs) (tokens n fuel m next str delim)
  split zero m next str p cs e ne td tc apart long rounds = absurd (omega arith)
  split (suc n) m next str p cs e ne td tc apart long rounds =
      elim (Bool-cases (is_end (from_token ds cs))) [
        | inl none_left ↦
            IsSplit-none fuel delim ds there enough m next str p cs e ne td tc long n none_left
        | inr one ↦ elim (Bool-cases (is_end (behind_token ds cs))) [
          | inl last ↦
              IsSplit-last fuel delim ds there enough m next str p cs e ne td tc long n rounds one
                last
          | inr more ↦
              let (c, rest, behind) = is_end-cons (behind_token ds cs) more in
              let q = p + run_of true ds cs + token_length ds cs in
              let size : run_of true ds cs + (token_length ds cs + suc (length rest)) ≡ length cs =
                split-size fuel delim ds there enough m next str p cs e ne td tc long c rest
                  behind in
              let at : IsText m q (c ∷ rest) = subst (IsText m q) behind (
                IsText-drop m (p + run_of true ds cs) (from_token ds cs) (token_length ds cs)
                  (IsText-drop m p cs (run_of true ds cs) tc (run_of-le true ds cs))
                  (run_of-le false ds (from_token ds cs))) in
              IsSplit-more fuel delim ds there enough m next str p cs e ne td tc long n one c rest
                behind
                (split n (store8 m q 0) (q + 1) 0 (q + 1) rest refl (omega arith)
                  (IsText-frame m (store8 m q 0) delim ds
                    (λ x lo hi. store8_ne m q 0 x (omega (arith, apart, lo, hi, size))) td)
                  (IsText-frame m (store8 m q 0) (q + 1) rest
                    (λ x lo hi. store8_ne m q 0 x (omega (arith, lo))) at.3)
                  (omega (arith, apart, size)) (omega (arith, long, size))
                  (omega (arith, rounds, size)))
        ]
      ]

  -- If the string and that of the delimiters are not NULL and do not meet, and the fuel and the
  -- bound on the calls exceed their lengths, then calling `strtok` with the string and after that
  -- with NULL ends with NULL; the pointers before it are, in order, those of strings with the
  -- words of the text, the longest runs of characters that are no delimiters, in the memory at the
  -- end; and nothing outside the string was changed.
  pub strtok-words :
      (n : ℕ) (m : Memory) (next str : ℕ) (cs : List ℕ)
      → str ≢ 0
      → IsText m delim ds
      → IsText m str cs
      → Apart str cs delim ds
      → length cs < fuel
      → length cs < n
      → IsSplit m str cs (words ds cs) (tokens n fuel m next str delim)
  strtok-words n m next str cs ne td tc apart long rounds =
      split n m next str str cs (rw (==-false str 0 ne) refl) ne td tc apart long rounds
