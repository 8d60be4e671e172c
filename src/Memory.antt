-- ===== src/Memory.antt =====
-- The flat memory of the kernel: one byte at every address. The kernel runs on the bare machine
-- with no paging, so every address can be read and written. Pointers are numbers and pointer sums
-- do not wrap: C leaves pointer arithmetic outside an object undefined.
pub mod Text
pub mod Words
pub mod Bytes
use lumen_os.Prelude.{refl, ℕ, ◌+◌, ◌≡◌, ◌≢◌, arith, ◌==◌, ltb, leb, ◌&&◌, Bool, if◌then◌else◌}

abbrev pub Memory : Type 0
Memory = ℕ → ℕ

-- `*(unsigned char*)a = v`
unfoldable pub store8 : Memory → ℕ → ℕ → Memory
store8 m a v x = if x == a then v else m x

pub store8_at : (m : Memory) (a v x : ℕ) → store8 m a v x ≡ (if x == a then v else m x)
unfolding store8
store8_at m a v x = refl

pub store8_self : (m : Memory) (a v : ℕ) → store8 m a v a ≡ v
unfolding store8
store8_self m a v = ground arith

pub store8_ne : (m : Memory) (a v x : ℕ) → x ≢ a → store8 m a v x ≡ m x
unfolding store8
store8_ne m a v x h = ground arith

-- `x` lies in the `n` bytes from `a`.
abbrev pub within : ℕ → ℕ → ℕ → Bool
within a n x = leb a x && ltb x (a + n)
