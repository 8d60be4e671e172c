-- ===== src/Buffer/Bytes.antt =====
-- The fills of src/stage0/buffer put bytes into memory.
use lumen_os.Prelude.{ℕ, zero, suc, ◌+◌, ◌*◌}
use lumen_os.Memory.{Memory}
use lumen_os.Memory.Words.{store16}
use lumen_os.Memory.Bytes.{IsBytes, store16-IsBytes}
use lumen_os.Buffer.{Grid, fill16, tbuffer_fill}

fill16-IsBytes :
    (left i address c : ℕ) (m : Memory) → IsBytes m → IsBytes (fill16 left i address c m)
unfolding fill16
fill16-IsBytes zero i address c m b = b
fill16-IsBytes (suc left) i address c m b =
    fill16-IsBytes left (i + 1) address c (store16 m (address + 2 * i) c)
      (store16-IsBytes m (address + 2 * i) c b)

pub tbuffer_fill-IsBytes :
    (m : Memory) (b : Grid) (c : ℕ) → IsBytes m → IsBytes (tbuffer_fill m b c)
unfolding tbuffer_fill
tbuffer_fill-IsBytes m b c i = fill16-IsBytes _ 0 b.address c m i
