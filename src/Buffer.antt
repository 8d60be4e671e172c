-- ===== src/Buffer.antt =====
-- src/stage0/buffer: rows of characters at an address. `size_t` has 32 bits. The word that
-- `tbuffer_get` returns as a `short` is given as its bit pattern.
pub mod Fill
pub mod Bytes
use lumen_os.Prelude.{ℕ, zero, suc, ◌+◌, ◌*◌, u8, u16, u32}
use lumen_os.Memory.{Memory, store8}
use lumen_os.Memory.Words.{load16, store16}

-- `buffer_t`
pub record Buffer : Type 0 where
  pub address : ℕ
  pub size : ℕ

-- `buffer2d_t` and `tbuffer_t`
pub record Grid : Type 0 where
  pub address : ℕ
  pub width : ℕ
  pub height : ℕ

pub buffer_init : ℕ → ℕ → Buffer
buffer_init address size = record { address = address; size = size }

fill8 : ℕ → ℕ → ℕ → ℕ → Memory → Memory
fill8 zero i address c m = m
fill8 (suc left) i address c m = fill8 left (i + 1) address c (store8 m (address + i) c)

pub buffer_fill : Memory → Buffer → ℕ → Memory
unfolding fill8
buffer_fill m b c = fill8 b.size 0 b.address (u8 c) m

pub buffer_set : Memory → Buffer → ℕ → ℕ → Memory
buffer_set m b c index = store8 m (b.address + index) (u8 c)

pub buffer_get : Memory → Buffer → ℕ → ℕ
buffer_get m b index = m (b.address + index)

-- `y * buffer->width + x`
abbrev pub cell_index : Grid → ℕ → ℕ → ℕ
cell_index b x y = u32 (y * b.width + x)

pub buffer2d_init : ℕ → ℕ → ℕ → Grid
buffer2d_init address width height = record { address = address; width = width; height = height }

pub buffer2d_fill : Memory → Grid → ℕ → Memory
unfolding fill8
buffer2d_fill m b c = fill8 (u32 (b.width * b.height)) 0 b.address (u8 c) m

pub buffer2d_set : Memory → Grid → ℕ → ℕ → ℕ → Memory
buffer2d_set m b c x y = store8 m (b.address + cell_index b x y) (u8 c)

pub buffer2d_get : Memory → Grid → ℕ → ℕ → ℕ
buffer2d_get m b x y = m (b.address + cell_index b x y)

unfoldable pub tbuffer_init : ℕ → ℕ → ℕ → Grid
tbuffer_init address width height = record { address = address; width = width; height = height }

pub fill16 : ℕ → ℕ → ℕ → ℕ → Memory → Memory
fill16 zero i address c m = m
fill16 (suc left) i address c m = fill16 left (i + 1) address c (store16 m (address + 2 * i) c)

unfoldable pub tbuffer_fill : Memory → Grid → ℕ → Memory
tbuffer_fill m b c = fill16 (u32 (b.width * b.height)) 0 b.address c m

unfoldable pub tbuffer_set : Memory → Grid → ℕ → ℕ → ℕ → Memory
tbuffer_set m b c x y = store16 m (b.address + 2 * cell_index b x y) (u16 c)

unfoldable pub tbuffer_get : Memory → Grid → ℕ → ℕ → ℕ
tbuffer_get m b x y = load16 m (b.address + 2 * cell_index b x y)
