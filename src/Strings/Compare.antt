-- ===== src/Strings/Compare.antt =====
-- `memcmp`, `strncmp` and `strcmp` of src/stdlib/string.c. The loops that a count bounds recur on
-- the rounds left, `strcmp` runs on fuel. A byte difference is an `int`, so it is not reduced.
pub mod Laws
use lumen_os.Prelude.{ℕ, suc, zero, ◌+◌, ◌==◌, ◌||◌, ◌&&◌, not, if◌then◌else◌, Option, none, some}
use lumen_os.Prelude.Int.{ℤ, pos, sub_ℕ}
use lumen_os.Memory.{Memory}

pub memcmp_from : ℕ → ℕ → Memory → ℕ → ℕ → ℤ
memcmp_from zero i m a b = pos 0
memcmp_from (suc left) i m a b =
    let rest = memcmp_from left (i + 1) m a b in
    if not (m (a + i) == m (b + i)) then sub_ℕ (m (a + i)) (m (b + i)) else rest

pub memcmp : Memory → ℕ → ℕ → ℕ → ℤ
unfolding memcmp_from
memcmp m s1 s2 n = memcmp_from n 0 m s1 s2

pub strncmp_from : ℕ → ℕ → Memory → ℕ → ℕ → ℤ
strncmp_from zero i m a b = pos 0
strncmp_from (suc left) i m a b =
    let rest = strncmp_from left (i + 1) m a b in
    if not (m (a + i) == m (b + i)) || (m (a + i) == 0) || (m (b + i) == 0)
    then sub_ℕ (m (a + i)) (m (b + i))
    else rest

pub strncmp : Memory → ℕ → ℕ → ℕ → ℤ
unfolding strncmp_from
strncmp m s1 s2 n = strncmp_from n 0 m s1 s2

pub strcmp : ℕ → Memory → ℕ → ℕ → Option ℤ
strcmp zero m a b = none
strcmp (suc f) m a b =
    let rest = strcmp f m (a + 1) (b + 1) in
    if not (m a == 0) && (m a == m b) then rest else some (sub_ℕ (m a) (m b))
