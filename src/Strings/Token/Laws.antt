-- ===== src/Strings/Token/Laws.antt =====
-- Where `strtok` finds a token, and what it leaves in memory.
use lumen_os.Prelude.{
  ℕ, zero, suc, ◌+◌, ◌≤◌, ◌<◌, ◌≡◌, refl, ap, ◌∙◌, ◌≢◌, Bool, true, false, not, Option, none, some,
  List, [], ◌∷◌, arith, ◌==◌, if◌then◌else◌, ==-true, ==-false, u8-byte, length,
}
use native.Mathlib.Nat.{add-zero}
use mathlib.Core.Path.{subst}
use lumen_os.Memory.{Memory, store8}
use lumen_os.Memory.Text.{IsText}
use lumen_os.Strings.Scan.Laws.{pointer, index_of, strchr_lem}
use lumen_os.Strings.Token.{goes_on, advance, token_from, strtok}

abbrev pub occurs_at : Option ℕ → Bool
occurs_at none = false
occurs_at (some k) = true

abbrev pub is_delimiter : List ℕ → ℕ → Bool
is_delimiter ds c = occurs_at (index_of c ds)

abbrev pub same : Bool → Bool → Bool
same true b = b
same false b = not b

-- How many characters at the front are delimiters (`true`) or are none (`false`).
abbrev pub run_of : Bool → List ℕ → List ℕ → ℕ
run_of over ds [] = 0
run_of over ds (c ∷ cs) = if same over (is_delimiter ds c) then suc (run_of over ds cs) else 0

abbrev pub drop : ℕ → List ℕ → List ℕ
drop zero cs = cs
drop (suc n) [] = []
drop (suc n) (c ∷ cs) = drop n cs

abbrev pub take : ℕ → List ℕ → List ℕ
take zero cs = []
take (suc n) [] = []
take (suc n) (c ∷ cs) = c ∷ take n cs

goes_on-pointer :
    (over : Bool) (d : ℕ) (r : Option ℕ)
    → d ≢ 0
    → goes_on over (pointer d r) ≡ same over (occurs_at r)
unfolding goes_on
goes_on-pointer true d none h = refl
goes_on-pointer false d none h = refl
goes_on-pointer true d (some k) h = ground arith
goes_on-pointer false d (some k) h = ground arith

by_case :
    {A : Type 0} (x y : A) (b : Bool) → (elim b [ true ↦ x | false ↦ y ]) ≡ (if b then x else y)
by_case x y true = refl
by_case x y false = refl

module _ (fuel : ℕ) (m : Memory) (delim : ℕ) (ds : List ℕ) (there : delim ≢ 0)
    (delims : IsText m delim ds) (enough : length ds < fuel) where
  goes_on-here :
      (over : Bool) (left next c : ℕ)
      → m next ≡ c
      → c ≢ 0
      → c < 256
      → advance over (suc left) fuel m delim next ≡ (
          if same over (is_delimiter ds c)
          then advance over left fuel m delim (next + 1)
          else some next)
  unfolding advance
  goes_on-here over left next c e ne byte =
      rw
        (
          advance,
          ==-false (m next) 0 (ground arith),
          strchr_lem fuel m delim (m next) ds delims enough,
          e,
          u8-byte c byte,
          goes_on-pointer over delim (index_of c ds) there,
        )
        (by_case _ _ (same over (is_delimiter ds c)))

  advance_lem :
      (over : Bool) (left next : ℕ) (cs : List ℕ)
      → IsText m next cs
      → length cs < left
      → advance over left fuel m delim next ≡ some (next + run_of over ds cs)
  unfolding advance
  advance_lem over zero next cs t h = absurd (omega arith)
  advance_lem over (suc left) next [] t h =
      rw (advance, ==-true (m next) 0 t) (ap some (omega arith))
  advance_lem over (suc left) next (c ∷ cs) (e, ne, byte, rest) h =
      goes_on-here over left next c e ne byte
      ∙ ground (arith, advance_lem over left (next + 1) cs rest)

abbrev pub is_end : List ℕ → Bool
is_end [] = true
is_end (c ∷ cs) = false

at_end : (m : Memory) (p : ℕ) (cs : List ℕ) → IsText m p cs → (m p == 0) ≡ is_end cs
at_end m p [] t = ==-true (m p) 0 t
at_end m p (c ∷ cs) t = ==-false (m p) 0 (ground arith)

pub IsText-drop :
    (m : Memory) (p : ℕ) (cs : List ℕ) (n : ℕ)
    → IsText m p cs
    → n ≤ length cs
    → IsText m (p + n) (drop n cs)
IsText-drop m p cs zero t h = rw add-zero t
IsText-drop m p [] (suc n) t h = absurd (omega arith)
IsText-drop m p (c ∷ cs) (suc n) t h =
    subst (λ q. IsText m q (drop n cs)) (omega arith) (IsText-drop m (p + 1) cs n t.3 (omega arith))

pub run_of-le : (over : Bool) (ds cs : List ℕ) → run_of over ds cs ≤ length cs
run_of-le over ds [] = omega arith
run_of-le over ds (c ∷ cs) = ground (arith, run_of-le over ds cs)

length-drop : (n : ℕ) (cs : List ℕ) → length (drop n cs) ≤ length cs
length-drop zero cs = omega arith
length-drop (suc n) [] = omega arith
length-drop (suc n) (c ∷ cs) = omega (arith, length-drop n cs)

-- What is left behind the delimiters at the front, and behind the token there.
abbrev pub from_token : List ℕ → List ℕ → List ℕ
from_token ds cs = drop (run_of true ds cs) cs

abbrev pub token_length : List ℕ → List ℕ → ℕ
token_length ds cs = run_of false ds (from_token ds cs)

abbrev pub behind_token : List ℕ → List ℕ → List ℕ
behind_token ds cs = drop (token_length ds cs) (from_token ds cs)

-- What `strtok` has to give for the string `cs` at `p`.
abbrev pub tokenised : Memory → ℕ → List ℕ → List ℕ → ℕ × ℕ × Memory
tokenised m p ds cs =
    let start = p + run_of true ds cs in
    let end = start + token_length ds cs in
    if is_end (from_token ds cs)
    then (0, start, m)
    else if is_end (behind_token ds cs)
    then (start, 0, m)
    else (start, end + 1, store8 m end 0)

some_chain :
    {A : Type 0} (x y z : A) (b c : Bool)
    → (if b then some x else if c then some y else some z)
      ≡ some (if b then x else if c then y else z)
some_chain x y z true c = refl
some_chain x y z false true = refl
some_chain x y z false false = refl

token_from_lem :
    (fuel : ℕ) (m : Memory) (p delim : ℕ) (ds cs : List ℕ)
    → delim ≢ 0
    → IsText m delim ds
    → IsText m p cs
    → length ds < fuel
    → length cs < fuel
    → token_from fuel m p delim ≡ some (tokenised m p ds cs)
unfolding token_from
token_from_lem fuel m p delim ds cs there td tc enough long =
    let a : ℕ = run_of true ds cs in
    let b : ℕ = token_length ds cs in
    let rest : IsText m (p + a) (from_token ds cs) =
      IsText-drop m p cs a tc (run_of-le true ds cs) in
    let after : IsText m (p + a + b) (behind_token ds cs) =
      IsText-drop m (p + a) (from_token ds cs) b rest (run_of-le false ds (from_token ds cs)) in
    rw
      (
        token_from,
        advance_lem fuel m delim ds there td enough true fuel p cs tc long,
        at_end m (p + a) (from_token ds cs) rest,
        advance_lem fuel m delim ds there td enough false fuel (p + a) (from_token ds cs) rest
            (omega (arith, length-drop a cs)),
        at_end m (p + a + b) (behind_token ds cs) after,
      )
      (some_chain _ _ _ (is_end (from_token ds cs)) (is_end (behind_token ds cs)))

-- If the string to work on, the argument or else the one that is left from the last call, is not
-- NULL and the fuel exceeds its length and the number of delimiters, `strtok` returns a pointer
-- to its first character that is no delimiter, writes a zero over the delimiter behind the token
-- and goes on behind that the next time; it returns NULL if there is no token, and the next time
-- if nothing follows the token.
pub strtok_lem :
    (fuel : ℕ) (m : Memory) (next str delim : ℕ) (ds cs : List ℕ)
    → delim ≢ 0
    → (if str == 0 then next else str) ≢ 0
    → IsText m delim ds
    → IsText m (if str == 0 then next else str) cs
    → length ds < fuel
    → length cs < fuel
    → strtok fuel m next str delim ≡ some (tokenised m (if str == 0 then next else str) ds cs)
unfolding strtok
strtok_lem fuel m next str delim ds cs there from td tc enough long =
    rw (strtok, ==-false (if str == 0 then next else str) 0 from)
      (token_from_lem fuel m (if str == 0 then next else str) delim ds cs there td tc enough long)
