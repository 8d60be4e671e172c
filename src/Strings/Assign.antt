-- ===== src/Strings/Assign.antt =====
-- `strncpy` and `strcpy` of src/stdlib/string.c.
pub mod Laws
use lumen_os.Prelude.{ℕ, suc, zero, ◌+◌, ◌==◌, if◌then◌else◌, Option, none, some}
use lumen_os.Memory.{Memory, store8}

-- The second loop of `strncpy`, at index `i` with `left` rounds left.
pub pad : ℕ → ℕ → ℕ → Memory → Memory
pad zero i dest m = m
pad (suc left) i dest m = pad left (i + 1) dest (store8 m (dest + i) 0)

-- The first loop, which goes over into the second at the end of the source.
pub strncpy_from : ℕ → ℕ → ℕ → ℕ → Memory → Memory
strncpy_from zero i dest src m = m
strncpy_from (suc left) i dest src m =
    let rest = strncpy_from left (i + 1) dest src (store8 m (dest + i) (m (src + i))) in
    if m (src + i) == 0 then pad (suc left) i dest m else rest

pub strncpy : Memory → ℕ → ℕ → ℕ → ℕ × Memory
unfolding strncpy_from
strncpy m dest src n = (dest, strncpy_from n 0 dest src m)

-- `while ((*d++ = *src++));` copies the zero byte too.
pub strcpy_from : ℕ → ℕ → ℕ → Memory → Option Memory
strcpy_from zero d src m = none
strcpy_from (suc f) d src m =
    let m' = store8 m d (m src) in
    let rest = strcpy_from f (d + 1) (src + 1) m' in if m src == 0 then some m' else rest

pub strcpy : ℕ → Memory → ℕ → ℕ → Option (ℕ × Memory)
unfolding strcpy_from
strcpy fuel m dest src = elim (strcpy_from fuel dest src m) [
  | none ↦ none
  | some m' ↦ some (dest, m')
]
