-- ===== src/Strings/Scan/Laws.antt =====
-- What `strlen`, `strchr` and `strstr` find, against searches of the list of the string's bytes.
use lumen_os.Prelude.{
  ℕ, suc, zero, ◌+◌, ◌<◌, ◌≡◌, ap, arith, ◌==◌, Bool, true, false, if◌then◌else◌, u8, Option, none,
  some, List, [], ◌∷◌, length, ◌∙◌,
}
use native.Mathlib.Nat.{add-zero}
use lumen_os.Memory.{Memory}
use lumen_os.Memory.Text.{IsText}
use lumen_os.Strings.Scan.{strlen_from, strlen, strchr, match_at, strstr_from, strstr}

-- The pointer to the byte at an index of the string at `p`; `NULL` where there is none.
abbrev pub pointer : ℕ → Option ℕ → ℕ
pointer p none = 0
pointer p (some k) = p + k

abbrev pub later : Option ℕ → Option ℕ
later none = none
later (some k) = some (suc k)

abbrev pub index_of : ℕ → List ℕ → Option ℕ
index_of c [] = none
index_of c (d ∷ ds) = if d == c then some 0 else later (index_of c ds)

abbrev pub starts_with : List ℕ → List ℕ → Bool
starts_with [] ds = true
starts_with (c ∷ cs) [] = false
starts_with (c ∷ cs) (d ∷ ds) = if d == c then starts_with cs ds else false

-- The first index at which `cs` occurs.
abbrev pub find_text : List ℕ → List ℕ → Option ℕ
find_text cs [] = if starts_with cs [] then some 0 else none
find_text cs (d ∷ ds) = if starts_with cs (d ∷ ds) then some 0 else later (find_text cs ds)

strlen_from_lem :
    (fuel : ℕ) (m : Memory) (str len : ℕ) (cs : List ℕ)
    → IsText m (str + len) cs
    → length cs < fuel
    → strlen_from fuel m str len ≡ some (len + length cs)
unfolding strlen_from
strlen_from_lem zero m str len cs t h = absurd (omega arith)
strlen_from_lem (suc f) m str len [] t h = ground arith
strlen_from_lem (suc f) m str len (c ∷ cs) t h =
    ground (arith, strlen_from_lem f m str (len + 1) cs)

-- With fuel above the length of the string `strlen` returns its length.
pub strlen_lem :
    (fuel : ℕ) (m : Memory) (str : ℕ) (cs : List ℕ)
    → IsText m str cs
    → length cs < fuel
    → strlen fuel m str ≡ some (length cs)
unfolding strlen
strlen_lem fuel m str cs t h =
    strlen_from_lem fuel m str 0 cs (rw add-zero t) h ∙ ap some (omega arith)

-- With fuel above the length of the string `strchr` returns a pointer to the first byte equal to
-- `(char)c`, and `NULL` if the string has none.
pub strchr_lem :
    (fuel : ℕ) (m : Memory) (s c : ℕ) (cs : List ℕ)
    → IsText m s cs
    → length cs < fuel
    → strchr fuel m s c ≡ some (pointer s (index_of (u8 c) cs))
unfolding strchr
strchr_lem zero m s c cs t h = absurd (omega arith)
strchr_lem (suc f) m s c [] t h = ground arith
strchr_lem (suc f) m s c (d ∷ ds) t h = ground (arith, strchr_lem f m (s + 1) c ds)

match_at_lem :
    (fuel : ℕ) (m : Memory) (h n : ℕ) (hs ns : List ℕ)
    → IsText m h hs
    → IsText m n ns
    → length hs < fuel
    → match_at fuel m h n ≡ some (starts_with ns hs)
unfolding match_at
match_at_lem zero m h n hs ns th tn l = absurd (omega arith)
match_at_lem (suc f) m h n [] [] th tn l = ground arith
match_at_lem (suc f) m h n [] (c ∷ cs) th tn l = ground arith
match_at_lem (suc f) m h n (d ∷ ds) [] th tn l = ground arith
match_at_lem (suc f) m h n (d ∷ ds) (c ∷ cs) th tn l =
    ground (arith, match_at_lem f m (h + 1) (n + 1) ds cs)

strstr_from_lem :
    (fuel : ℕ) (m : Memory) (h n : ℕ) (hs : List ℕ) (c : ℕ) (cs : List ℕ)
    → IsText m h hs
    → IsText m n (c ∷ cs)
    → length hs < fuel
    → strstr_from fuel m h n ≡ some (pointer h (find_text (c ∷ cs) hs))
unfolding strstr_from
strstr_from_lem zero m h n hs c cs th tn l = absurd (omega arith)
strstr_from_lem (suc f) m h n [] c cs th tn l = ground arith
strstr_from_lem (suc f) m h n (d ∷ ds) c cs th tn l =
    ground
      (arith, match_at_lem (suc f) m h n (d ∷ ds) (c ∷ cs), strstr_from_lem f m (h + 1) n ds c cs)

-- With fuel above the length of the haystack `strstr` returns a pointer to the first occurrence
-- of the needle, and `NULL` if there is none.
pub strstr_lem :
    (fuel : ℕ) (m : Memory) (h n : ℕ) (hs ns : List ℕ)
    → IsText m h hs
    → IsText m n ns
    → length hs < fuel
    → strstr fuel m h n ≡ some (pointer h (find_text ns hs))
unfolding strstr
strstr_lem fuel m h n [] [] th tn l = ground arith
strstr_lem fuel m h n (d ∷ ds) [] th tn l = ground arith
strstr_lem fuel m h n hs (c ∷ cs) th tn l = ground (arith, strstr_from_lem fuel m h n hs c cs)
