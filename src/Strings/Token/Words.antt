-- ===== src/Strings/Token/Words.antt =====
-- The tokens of a text, and how `strtok` of src/stdlib/string.c comes to the next one.
use lumen_os.Prelude.{
  ℕ, suc, ◌≡◌, refl, sym, ap, ◌∙◌, inl, inr, Bool, true, false, not, List, [], ◌∷◌, if◌then◌else◌,
  Bool-cases,
}
use lumen_os.Strings.Token.Laws.{
  is_delimiter, same, run_of, drop, take, is_end, from_token, token_length, behind_token,
}

-- The first character is in a token.
abbrev pub starts_token : List ℕ → List ℕ → Bool
starts_token ds [] = false
starts_token ds (c ∷ cs) = not (is_delimiter ds c)

abbrev pub lengthen : ℕ → List (List ℕ) → List (List ℕ)
lengthen c [] = (c ∷ []) ∷ []
lengthen c (w ∷ ws) = (c ∷ w) ∷ ws

-- The longest runs of characters that are no delimiters.
unfoldable pub words : List ℕ → List ℕ → List (List ℕ)
words ds [] = []
words ds (c ∷ cs) =
    let rest = words ds cs in
    if is_delimiter ds c
    then rest
    else if starts_token ds cs
    then lengthen c rest
    else (c ∷ []) ∷ rest

module _ (ds : List ℕ) (c : ℕ) (cs : List ℕ) where
  pub words-delimiter : is_delimiter ds c ≡ true → words ds (c ∷ cs) ≡ words ds cs
  unfolding words
  words-delimiter e =
      ap
        (λ b.
          if b
          then words ds cs
          else if starts_token ds cs
          then lengthen c (words ds cs)
          else (c ∷ []) ∷ words ds cs)
        e

  words-letter :
      is_delimiter ds c ≡ false
      → words ds (c ∷ cs)
        ≡ (if starts_token ds cs then lengthen c (words ds cs) else (c ∷ []) ∷ words ds cs)
  unfolding words
  words-letter e =
      ap
        (λ b.
          if b
          then words ds cs
          else if starts_token ds cs
          then lengthen c (words ds cs)
          else (c ∷ []) ∷ words ds cs)
        e

  run_of-goes :
      (over : Bool)
      → same over (is_delimiter ds c) ≡ true
      → run_of over ds (c ∷ cs) ≡ suc (run_of over ds cs)
  run_of-goes over e = ap (λ b. if b then suc (run_of over ds cs) else 0) e

  run_of-stops : (over : Bool) → same over (is_delimiter ds c) ≡ false → run_of over ds (c ∷ cs) ≡ 0
  run_of-stops over e = ap (λ b. if b then suc (run_of over ds cs) else 0) e

pub words-skip : (ds cs : List ℕ) → words ds (from_token ds cs) ≡ words ds cs
words-skip ds [] = refl
words-skip ds (c ∷ cs) = elim (Bool-cases (is_delimiter ds c)) [
  | inl delimiter ↦
      ap (λ n. words ds (drop n (c ∷ cs))) (run_of-goes ds c cs true delimiter)
      ∙ words-skip ds cs
      ∙ sym (words-delimiter ds c cs delimiter)
  | inr letter ↦ ap (λ n. words ds (drop n (c ∷ cs))) (run_of-stops ds c cs true letter)
]

-- The first run of the text, with the words behind it.
abbrev cut : ℕ → List ℕ → List ℕ → List (List ℕ)
cut n ds cs = take n cs ∷ words ds (drop n cs)

words-first :
    (ds : List ℕ) (c : ℕ) (cs : List ℕ)
    → is_delimiter ds c ≡ false
    → words ds (c ∷ cs) ≡ cut (run_of false ds (c ∷ cs)) ds (c ∷ cs)
unfolding words
words-first ds c [] letter =
    words-letter ds c [] letter
    ∙ ap (λ n. cut n ds (c ∷ [])) (sym (run_of-goes ds c [] false (ap not letter)))
words-first ds c (d ∷ cs) letter =
    words-letter ds c (d ∷ cs) letter ∙ elim (Bool-cases (is_delimiter ds d)) [
      | inl delimiter ↦
          ap (λ b. if not b then lengthen c (words ds (d ∷ cs)) else (c ∷ []) ∷ words ds (d ∷ cs))
            delimiter
          ∙ ap (λ n. cut n ds (c ∷ d ∷ cs))
              (sym (
                run_of-goes ds c (d ∷ cs) false (ap not letter)
                ∙ ap suc (run_of-stops ds d cs false (ap not delimiter))))
      | inr letter2 ↦
          ap (λ b. if not b then lengthen c (words ds (d ∷ cs)) else (c ∷ []) ∷ words ds (d ∷ cs))
            letter2
          ∙ ap (lengthen c) (words-first ds d cs letter2)
          ∙ ap (λ n. cut n ds (c ∷ d ∷ cs)) (sym (run_of-goes ds c (d ∷ cs) false (ap not letter)))
    ]

-- The first character behind a run does not belong to it.
pub drop-run :
    (over : Bool) (ds cs : List ℕ) (c : ℕ) (rest : List ℕ)
    → drop (run_of over ds cs) cs ≡ c ∷ rest
    → same over (is_delimiter ds c) ≡ false
drop-run over ds [] c rest e = cc e
drop-run over ds (d ∷ cs) c rest e = elim (Bool-cases (same over (is_delimiter ds d))) [
  | inl goes ↦
      drop-run over ds cs c rest
        (ap (λ n. drop n (d ∷ cs)) (sym (run_of-goes ds d cs over goes)) ∙ e)
  | inr stops ↦
      let whole : d ∷ cs ≡ c ∷ rest =
        ap (λ n. drop n (d ∷ cs)) (sym (run_of-stops ds d cs over stops)) ∙ e in
      cc (whole, stops)
]

-- The words of a text are its first token and the words behind it.
pub words-token :
    (ds cs : List ℕ)
    → is_end (from_token ds cs) ≡ false
    → words ds cs ≡ take (token_length ds cs) (from_token ds cs) ∷ words ds (behind_token ds cs)
words-token ds cs more = sym (words-skip ds cs) ∙ first (from_token ds cs) refl more
  where
    first :
        (xs : List ℕ)
        → from_token ds cs ≡ xs
        → is_end xs ≡ false
        → words ds xs ≡ cut (run_of false ds xs) ds xs
    first [] e h = cc h
    first (c ∷ rest) e h = words-first ds c rest (drop-run true ds cs c rest e)
