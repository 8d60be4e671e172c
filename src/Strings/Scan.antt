-- ===== src/Strings/Scan.antt =====
-- `strlen`, `strchr` and `strstr` of src/stdlib/string.c. A loop runs on fuel and gives `none`
-- when that runs out; `NULL` is the pointer 0.
pub mod Laws
use lumen_os.Prelude.{
  ℕ, suc, zero, ◌+◌, ◌<◌, ◌≡◌, arith, ◌==◌, ◌&&◌, not, Bool, true, false, if◌then◌else◌, u8, Option,
  none, some, List, [], ◌∷◌, length,
}
use lumen_os.Memory.{Memory}
use lumen_os.Memory.Text.{IsText}

pub strlen_from : ℕ → Memory → ℕ → ℕ → Option ℕ
strlen_from zero m str len = none
strlen_from (suc f) m str len =
    let rest = strlen_from f m str (len + 1) in if m (str + len) == 0 then some len else rest

pub strlen : ℕ → Memory → ℕ → Option ℕ
strlen fuel m str = strlen_from fuel m str 0

pub strchr : ℕ → Memory → ℕ → ℕ → Option ℕ
strchr zero m s c = none
strchr (suc f) m s c =
    let rest = strchr f m (s + 1) c in
    if m s == 0 then some 0 else if m s == u8 c then some s else rest

-- The inner loop of `strstr`: whether it ends at the end of the needle.
unfoldable pub match_at : ℕ → Memory → ℕ → ℕ → Option Bool
match_at zero m h n = none
match_at (suc f) m h n =
    let rest = match_at f m (h + 1) (n + 1) in
    if not (m h == 0) && not (m n == 0) && (m h == m n) then rest else some (m n == 0)

-- The outer loop.
unfoldable pub strstr_from : ℕ → Memory → ℕ → ℕ → Option ℕ
unfolding match_at
strstr_from zero m h n = none
strstr_from (suc f) m h n =
    let rest = strstr_from f m (h + 1) n in
    if m h == 0
    then some 0
    else elim (match_at (suc f) m h n) [ none ↦ none | some true ↦ some h | some false ↦ rest ]

unfoldable pub strstr : ℕ → Memory → ℕ → ℕ → Option ℕ
unfolding strstr_from
strstr fuel m haystack needle =
    if m needle == 0 then some haystack else strstr_from fuel m haystack needle
