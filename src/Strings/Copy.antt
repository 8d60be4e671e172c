-- ===== src/Strings/Copy.antt =====
-- `memmove`, `memcpy` and `memset` of src/stdlib/string.c. A function that writes memory returns
-- the pointer that it returns in C beside the new memory.
pub mod Bytes
use lumen_os.Prelude.{
  ℕ, suc, zero, ◌+◌, ◌-◌, ◌≤◌, ◌≡◌, ◌⊎◌, fun_ext, arith, ◌==◌, ltb, leb, ◌||◌, if◌then◌else◌, u8,
}
use lumen_os.Memory.{Memory, store8, within}

-- The loop that goes up, at index `i` with `left` rounds left.
pub copy_up : ℕ → ℕ → ℕ → ℕ → Memory → Memory
copy_up zero i d s m = m
copy_up (suc left) i d s m = copy_up left (i + 1) d s (store8 m (d + i) (m (s + i)))

-- The loop that goes down from index `i`.
pub copy_down : ℕ → ℕ → ℕ → Memory → Memory
copy_down zero d s m = m
copy_down (suc i) d s m = copy_down i d s (store8 m (d + i) (m (s + i)))

unfoldable pub memmove : Memory → ℕ → ℕ → ℕ → ℕ × Memory
memmove m d s size =
    if (d == s) || (size == 0)
    then (d, m)
    else if ltb d s || leb (s + size) d
    then (d, copy_up size 0 d s m)
    else (d, copy_down size d s m)

pub memcpy : Memory → ℕ → ℕ → ℕ → ℕ × Memory
memcpy m d s size = (d, copy_up size 0 d s m)

pub fill : ℕ → ℕ → ℕ → ℕ → Memory → Memory
fill zero i d v m = m
fill (suc left) i d v m = fill left (i + 1) d v (store8 m (d + i) v)

pub memset : Memory → ℕ → ℕ → ℕ → ℕ × Memory
memset m d value size = (d, fill size 0 d (u8 value) m)

-- What a move of `n` bytes has to leave behind: the old bytes of the source in the destination.
abbrev pub moved : Memory → ℕ → ℕ → ℕ → Memory
moved m d s n x = if within d n x then m (s + (x - d)) else m x

abbrev pub filled : Memory → ℕ → ℕ → ℕ → Memory
filled m d v n x = if within d n x then v else m x

copy_up_lem :
    (left i d s : ℕ) (m : Memory) (x : ℕ)
    → (d ≤ s) ⊎ (s + i + left ≤ d)
    → copy_up left i d s m x ≡ (if within (d + i) left x then m (s + (x - d)) else m x)
unfolding copy_up store8
copy_up_lem zero i d s m x h = ground arith
copy_up_lem (suc left) i d s m x h =
    ground (arith, copy_up_lem left (i + 1) d s (store8 m (d + i) (m (s + i))) x)

copy_down_lem : (i d s : ℕ) (m : Memory) (x : ℕ) → s ≤ d → copy_down i d s m x ≡ moved m d s i x
unfolding copy_down store8
copy_down_lem zero d s m x h = ground arith
copy_down_lem (suc i) d s m x h =
    ground (arith, copy_down_lem i d s (store8 m (d + i) (m (s + i))) x)

fill_lem : (left i d v : ℕ) (m : Memory) (x : ℕ) → fill left i d v m x ≡ filled m (d + i) v left x
unfolding fill store8
fill_lem zero i d v m x = ground arith
fill_lem (suc left) i d v m x = ground (arith, fill_lem left (i + 1) d v (store8 m (d + i) v) x)

memmove_at : (m : Memory) (d s n x : ℕ) → (memmove m d s n).1 x ≡ moved m d s n x
unfolding memmove
memmove_at m d s n x = ground (arith, copy_up_lem n 0 d s m x, copy_down_lem n d s m x)

memmove_ptr : (m : Memory) (d s n : ℕ) → (memmove m d s n).0 ≡ d
unfolding memmove
memmove_ptr m d s n = ground arith

-- For any two blocks, overlapping or not, `memmove` returns its destination, leaves there the
-- bytes that the source held before the call, and changes no byte outside the destination.
pub memmove_lem : (m : Memory) (d s n : ℕ) → memmove m d s n ≡ (d, moved m d s n)
memmove_lem m d s n = λ i. (memmove_ptr m d s n i, fun_ext (memmove_at m d s n) i)

-- `memcpy` does the same if the destination does not start inside the source.
pub memcpy_lem :
    (m : Memory) (d s n : ℕ) → (d ≤ s) ⊎ (s + n ≤ d) → memcpy m d s n ≡ (d, moved m d s n)
unfolding memcpy
memcpy_lem m d s n h = λ i. (d, fun_ext (λ x. at x) i)
  where
    at : (x : ℕ) → copy_up n 0 d s m x ≡ moved m d s n x
    at x = ground (arith, copy_up_lem n 0 d s m x)

-- `memset` writes the low byte of its value to every byte of the block and to no other.
pub memset_lem : (m : Memory) (d v n : ℕ) → memset m d v n ≡ (d, filled m d (u8 v) n)
unfolding memset
memset_lem m d v n = λ i. (d, fun_ext (λ x. at x) i)
  where
    at : (x : ℕ) → fill n 0 d (u8 v) m x ≡ filled m d (u8 v) n x
    at x = ground (arith, fill_lem n 0 d (u8 v) m x)
