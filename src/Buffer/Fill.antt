-- ===== src/Buffer/Fill.antt =====
-- What filling a character buffer leaves alone.
use lumen_os.Prelude.{ℕ, zero, suc, ◌+◌, ◌*◌, ◌^◌, ◌<◌, ◌≡◌, refl, false, arith}
use native.Mathlib.Nat.{add-zero, mod-eq_of_lt}
use lumen_os.Memory.{Memory, within}
use lumen_os.Memory.Words.{store16, store16_at}
use lumen_os.Buffer.{fill16, tbuffer_fill}

fill16_frame :
    (left i address c : ℕ) (m : Memory) (x : ℕ)
    → within (address + 2 * i) (2 * left) x ≡ false
    → fill16 left i address c m x ≡ m x
unfolding fill16
fill16_frame zero i address c m x out = refl
fill16_frame (suc left) i address c m x out = ground (
  arith,
  fill16_frame left (i + 1) address c (store16 m (address + 2 * i) c) x,
  store16_at m (address + 2 * i) c x,
)

-- Filling writes only in the buffer.
pub tbuffer_fill_frame :
    (m : Memory) (address width height c x : ℕ)
    → width * height < 2 ^ 32
    → within address (2 * (width * height)) x ≡ false
    → tbuffer_fill m (record { address = address; width = width; height = height }) c x ≡ m x
unfolding tbuffer_fill
tbuffer_fill_frame m address width height c x small out =
    rw (mod-eq_of_lt small) (fill16_frame (width * height) 0 address c m x (rw add-zero out))
