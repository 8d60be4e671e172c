-- ===== src/Strings/Tests.antt =====
-- The string functions on a memory that holds "banana" at address 100 and "nan" at 200.
use lumen_os.Prelude.{
  [], ◌∷◌, ℕ, zero, suc, ◌+◌, ◌-◌, ◌<◌, ◌≡◌, refl, ◌↔◌, Option, none, some, List, arith, leb,
  if◌then◌else◌, get_elem?, codes,
}
use lumen_os.Prelude.Int.{pos, sub_ℕ}
use lumen_os.Memory.{Memory}
use lumen_os.Memory.Text.{IsText}
use lumen_os.Strings.Copy.{memmove, moved, memmove_lem}
use lumen_os.Strings.Scan.{strstr}
use lumen_os.Strings.Scan.Laws.{strstr_lem}
use lumen_os.Strings.Compare.{memcmp, strcmp}
use lumen_os.Strings.Compare.Laws.{strcmp-zero_iff, memcmp-first}
use lumen_os.Strings.Token.Words
use lumen_os.Strings.Token.Loop.{IsSplit, tokens}
use lumen_os.Strings.Token.Split.{strtok-words}

abbrev byte_or_zero : Option ℕ → ℕ
byte_or_zero none = 0
byte_or_zero (some c) = c

abbrev banana : List ℕ
banana = codes "banana"

abbrev nan : List ℕ
nan = codes "nan"

abbrev words : Memory
words x =
    if leb 200 x
    then byte_or_zero (get_elem? nan (x - 200))
    else if leb 100 x
    then byte_or_zero (get_elem? banana (x - 100))
    else 0

banana-IsText : IsText words 100 banana
banana-IsText = (
  refl,
  omega arith,
  omega arith,
  (
    refl,
    omega arith,
    omega arith,
    (
      refl,
      omega arith,
      omega arith,
      (
        refl,
        omega arith,
        omega arith,
        (refl, omega arith, omega arith, (refl, omega arith, omega arith, refl)),
      ),
    ),
  ),
)

nan-IsText : IsText words 200 nan
nan-IsText = (
  refl,
  omega arith,
  omega arith,
  (refl, omega arith, omega arith, (refl, omega arith, omega arith, refl)),
)

memmove_example : memmove words 102 100 6 ≡ (102, moved words 102 100 6)
memmove_example = memmove_lem words 102 100 6

strstr_example : strstr 7 words 100 200 ≡ some 102
strstr_example = strstr_lem 7 words 100 200 banana nan banana-IsText nan-IsText (omega arith)

strcmp-zero_example : (strcmp 7 words 100 200 ≡ some (pos 0)) ↔ (banana ≡ nan)
strcmp-zero_example =
    strcmp-zero_iff 7 words 100 200 banana nan banana-IsText nan-IsText (omega arith)

memcmp-first_example : memcmp words 101 103 6 ≡ sub_ℕ b'n' 0
memcmp-first_example = memcmp-first words 101 103 6 3 (omega arith) below_three (omega arith)
  where
    below_three : (j : ℕ) → j < 3 → words (101 + j) ≡ words (103 + j)
    below_three zero h = refl
    below_three (suc zero) h = refl
    below_three (suc (suc zero)) h = refl
    below_three (suc (suc (suc j))) h = absurd (omega arith)

strtok-words_example :
    IsSplit words 100 banana (Words.words nan banana) (tokens 7 7 words 0 100 200)
strtok-words_example =
    strtok-words 7 200 nan (omega arith) (omega arith) 7 words 0 100 banana (omega arith) nan-IsText
      banana-IsText (omega arith) (omega arith) (omega arith)

words-banana : Words.words nan banana ≡ codes "b" ∷ []
unfolding Words.words
words-banana = refl
