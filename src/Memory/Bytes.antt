-- ===== src/Memory/Bytes.antt =====
-- Every byte of memory is one: what a store keeps.
use lumen_os.Prelude.{ℕ, ◌<◌, arith}
use lumen_os.Memory.{Memory, store8, store8_at}
use lumen_os.Memory.Words.{store16, store16_at}

abbrev pub IsBytes : Memory → Type 0
IsBytes m = (x : ℕ) → m x < 256

pub store8-IsBytes : (m : Memory) (a v : ℕ) → v < 256 → IsBytes m → IsBytes (store8 m a v)
store8-IsBytes m a v lt b x = ground (arith, store8_at m a v x, b x)

pub store16-IsBytes : (m : Memory) (a v : ℕ) → IsBytes m → IsBytes (store16 m a v)
store16-IsBytes m a v b x = ground (arith, store16_at m a v x, b x)
