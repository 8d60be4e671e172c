-- ===== src/Strings/Token/Loop.antt =====
-- The loop that `strtok` of src/stdlib/string.c is made for: a first call with the string, and
-- calls with NULL until one returns NULL.
use lumen_os.Prelude.{
  ℕ, zero, suc, ◌+◌, ◌≤◌, ◌<◌, ◌≡◌, refl, sym, ap, ◌∙◌, ◌≢◌, ◌⊎◌, inl, Bool, true, false, not,
  Option, none, some, List, [], ◌∷◌, arith, ◌==◌, if◌then◌else◌, ==-false, length,
}
use mathlib.Core.Path.{subst}
use lumen_os.Memory.{Memory, store8, store8_ne}
use lumen_os.Memory.Text.{IsText, IsText-frame}
use lumen_os.Strings.Token.{strtok}
use lumen_os.Strings.Token.Laws.{
  is_delimiter, run_of, drop, take, is_end, from_token, token_length, behind_token, tokenised,
  strtok_lem, run_of-le,
}
use lumen_os.Strings.Token.Text.{tokenised-IsText}
use lumen_os.Strings.Token.Words.{words, words-skip, words-token, words-delimiter, drop-run}

-- The pointers that the calls return before NULL, and the memory at the end.
pub tokens : ℕ → ℕ → Memory → ℕ → ℕ → ℕ → Option (List ℕ × Memory)
tokens zero fuel m next str delim = none
tokens (suc n) fuel m next str delim = elim (strtok fuel m next str delim) [
  | none ↦ none
  | some (token, next', m') ↦ elim (token == 0) [
    | true ↦ some ([], m')
    | false ↦ elim (tokens n fuel m' next' 0 delim) [
      | none ↦ none
      | some (rest, m'') ↦ some (token ∷ rest, m'')
    ]
  ]
]

-- The pointers are those of strings with these characters.
abbrev pub Spells : Memory → List ℕ → List (List ℕ) → Type 0
Spells m [] [] = Unit {0}
Spells m [] (w ∷ ws) = ⊥
Spells m (p ∷ ps) [] = ⊥
Spells m (p ∷ ps) (w ∷ ws) = IsText m p w × Spells m ps ws

-- The loop ends, its pointers spell the words, and it changed nothing outside the string.
pub record IsSplit (m : Memory) (p : ℕ) (cs : List ℕ) (ws : List (List ℕ))
    (r : Option (List ℕ × Memory)) : Type 0 where
  pub pointers : List ℕ
  pub memory : Memory
  pub result : r ≡ some (pointers, memory)
  pub spelt : Spells memory pointers ws
  pub outside : (x : ℕ) → (x < p) ⊎ (p + length cs ≤ x) → memory x ≡ m x

-- The strings do not meet, ends included.
abbrev pub Apart : ℕ → List ℕ → ℕ → List ℕ → Type 0
Apart p cs q ds = (q + length ds < p) ⊎ (p + length cs < q)

tokens-none :
    (n fuel : ℕ) (m m' : Memory) (next next' str delim : ℕ)
    → strtok fuel m next str delim ≡ some (0, next', m')
    → tokens (suc n) fuel m next str delim ≡ some ([], m')
unfolding tokens
tokens-none n fuel m m' next next' str delim e = rw (tokens, e)

tokens-some :
    (n fuel : ℕ) (m m' : Memory) (next next' str delim token : ℕ)
    → strtok fuel m next str delim ≡ some (token, next', m')
    → token ≢ 0
    → tokens (suc n) fuel m next str delim ≡ (elim (tokens n fuel m' next' 0 delim) [
      | none ↦ none
      | some (rest, m'') ↦ some (token ∷ rest, m'')
    ])
unfolding tokens
tokens-some n fuel m m' next next' str delim token e ne = rw (tokens, e, ==-false token 0 ne) refl

length-drop : (n : ℕ) (cs : List ℕ) → n ≤ length cs → n + length (drop n cs) ≡ length cs
length-drop zero cs h = omega arith
length-drop (suc n) [] h = absurd (omega arith)
length-drop (suc n) (c ∷ cs) h = omega (arith, length-drop n cs (omega arith))

length-take : (n : ℕ) (cs : List ℕ) → n ≤ length cs → length (take n cs) ≡ n
length-take zero cs h = refl
length-take (suc n) [] h = absurd (omega arith)
length-take (suc n) (c ∷ cs) h = omega (arith, length-take n cs (omega arith))

not-false : (b : Bool) → not b ≡ false → b ≡ true
not-false true e = refl
not-false false e = cc e

is_end-nil : (cs : List ℕ) → is_end cs ≡ true → cs ≡ []
is_end-nil [] e = refl
is_end-nil (c ∷ cs) e = cc e

pub is_end-cons : (cs : List ℕ) → is_end cs ≡ false → (c : ℕ) × (rest : List ℕ) × (cs ≡ c ∷ rest)
is_end-cons [] e = cc e
is_end-cons (c ∷ cs) e = (c, cs, refl)

tokens-null :
    (n fuel : ℕ) (m : Memory) (delim : ℕ) → 0 < n → tokens n fuel m 0 0 delim ≡ some ([], m)
unfolding strtok
tokens-null zero fuel m delim h = absurd (omega arith)
tokens-null (suc n) fuel m delim h = tokens-none n fuel m m 0 0 0 delim refl

module _ (fuel delim : ℕ) (ds : List ℕ) (there : delim ≢ 0) (enough : length ds < fuel) (m : Memory)
    (next str p : ℕ) (cs : List ℕ) (e : (if str == 0 then next else str) ≡ p) (ne : p ≢ 0)
    (td : IsText m delim ds) (tc : IsText m p cs) (long : length cs < fuel) where
  abbrev begin : ℕ
  begin = p + run_of true ds cs

  abbrev end : ℕ
  end = begin + token_length ds cs

  call : strtok fuel m next str delim ≡ some (tokenised m p ds cs)
  call =
      strtok_lem fuel m next str delim ds cs there (rw e ne) td (rw e tc) enough long
      ∙ ap (λ q. some (tokenised m q ds cs)) e

  -- What the call gives, by the two tests.
  abbrev choice : Bool → Bool → ℕ × ℕ × Memory
  choice a b =
      if a then (0, begin, m) else if b then (begin, 0, m) else (begin, end + 1, store8 m end 0)

  -- No more tokens.
  pub IsSplit-none :
      (n : ℕ)
      → is_end (from_token ds cs) ≡ true
      → IsSplit m p cs (words ds cs) (tokens (suc n) fuel m next str delim)
  unfolding words
  IsSplit-none n none_left = record {
    pointers = [];
    memory = m;
    result =
        tokens-none n fuel m m next begin str delim
          (call ∙ ap (λ b. some (choice b (is_end (behind_token ds cs)))) none_left);
    spelt =
        subst (Spells m [])
          (sym (ap (words ds) (is_end-nil (from_token ds cs) none_left)) ∙ words-skip ds cs) tt;
    outside = λ x out. refl;
  }

  begin_in : is_end (from_token ds cs) ≡ false → run_of true ds cs < length cs
  begin_in one =
      let (c, rest, e') = is_end-cons (from_token ds cs) one in
      omega (arith, length-drop (run_of true ds cs) cs (run_of-le true ds cs), ap length e')

  -- The text ends with the token.
  pub IsSplit-last :
      (n : ℕ)
      → length cs < suc n
      → is_end (from_token ds cs) ≡ false
      → is_end (behind_token ds cs) ≡ true
      → IsSplit m p cs (words ds cs) (tokens (suc n) fuel m next str delim)
  unfolding words
  IsSplit-last n rounds one last =
      let w = take (token_length ds cs) (from_token ds cs) in
      let end_is : behind_token ds cs ≡ [] = is_end-nil (behind_token ds cs) last in
      let made : tokenised m p ds cs ≡ (begin, 0, m) =
        ap (λ b. choice b (is_end (behind_token ds cs))) one ∙ ap (choice false) last in
      record {
        pointers = begin ∷ [];
        memory = m;
        result =
            tokens-some n fuel m m next 0 str delim begin (call ∙ ap some made) (omega (arith, ne))
            ∙ rw (tokens-null n fuel m delim (omega (arith, rounds, begin_in one))) refl;
        spelt =
            subst (Spells m (begin ∷ []))
              (sym (words-token ds cs one ∙ ap (λ xs. w ∷ words ds xs) end_is))
              (
                subst (λ (r : ℕ × ℕ × Memory). IsText r.2 r.0 w) made
                    (tokenised-IsText m p ds cs tc one),
                tt,
              );
        outside = λ x out. refl;
      }

  pub split-size :
      (c : ℕ) (rest : List ℕ)
      → behind_token ds cs ≡ c ∷ rest
      → run_of true ds cs + (token_length ds cs + suc (length rest)) ≡ length cs
  split-size c rest behind = omega (
    arith,
    length-drop (run_of true ds cs) cs (run_of-le true ds cs),
    length-drop (token_length ds cs) (from_token ds cs) (run_of-le false ds (from_token ds cs)),
    ap length behind,
  )

  -- A delimiter follows the token.
  pub IsSplit-more :
      (n : ℕ)
      → is_end (from_token ds cs) ≡ false
      → (c : ℕ) (rest : List ℕ) → behind_token ds cs ≡ c ∷ rest
      → IsSplit
          (store8 m end 0)
          (end + 1)
          rest
          (words ds rest)
          (tokens n fuel (store8 m end 0) (end + 1) 0 delim)
      → IsSplit m p cs (words ds cs) (tokens (suc n) fuel m next str delim)
  IsSplit-more n one c rest behind r =
      let w = take (token_length ds cs) (from_token ds cs) in
      let delimiter : is_delimiter ds c ≡ true =
        not-false (is_delimiter ds c) (drop-run false ds (from_token ds cs) c rest behind) in
      let split_words : words ds cs ≡ w ∷ words ds rest =
        words-token ds cs one
        ∙ ap (λ xs. w ∷ words ds xs) behind
        ∙ ap (λ ws. w ∷ ws) (words-delimiter ds c rest delimiter) in
      let more : is_end (behind_token ds cs) ≡ false = ap is_end behind in
      let made : tokenised m p ds cs ≡ (begin, end + 1, store8 m end 0) =
        ap (λ b. choice b (is_end (behind_token ds cs))) one ∙ ap (choice false) more in
      let fits : token_length ds cs ≤ length (from_token ds cs) =
        run_of-le false ds (from_token ds cs) in
      let size : run_of true ds cs + (token_length ds cs + suc (length rest)) ≡ length cs =
        split-size c rest behind in
      record {
        pointers = begin ∷ r.pointers;
        memory = r.memory;
        result =
            tokens-some n fuel m (store8 m end 0) next (end + 1) str delim begin
              (call ∙ ap some made) (omega (arith, ne))
            ∙ rw (r.result) refl;
        spelt =
            subst (Spells r.memory (begin ∷ r.pointers)) {x = w ∷ words ds rest} (sym split_words) (
              IsText-frame (store8 m end 0) r.memory begin w
                  (λ x lo hi. r.outside x (
                    inl (
                      omega (arith, hi, length-take (token_length ds cs) (from_token ds cs) fits))))
                  (subst (λ (t : ℕ × ℕ × Memory). IsText t.2 t.0 w) made
                    (tokenised-IsText m p ds cs tc one)),
              r.spelt,
            );
        outside = λ x out.
            r.outside x (omega (arith, out, size)) ∙ store8_ne m end 0 x (omega (arith, out, size));
      }
