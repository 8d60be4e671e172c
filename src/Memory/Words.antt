-- ===== src/Memory/Words.antt =====
-- Little-endian words in memory.
use lumen_os.Prelude.{
  ℕ, ◌+◌, ◌*◌, ◌/◌, ◌^◌, ◌<◌, ◌≤◌, ◌≡◌, ◌⊎◌, refl, arith, u8, u16, u32, ◌==◌, if◌then◌else◌,
}
use lumen_os.Memory.{Memory, store8, store8_at}

unfoldable pub load16 : Memory → ℕ → ℕ
load16 m a = m a + 2 ^ 8 * m (a + 1)

unfoldable pub store16 : Memory → ℕ → ℕ → Memory
store16 m a v = store8 (store8 m a (u8 v)) (a + 1) (u8 (v / 2 ^ 8))

unfoldable pub load32 : Memory → ℕ → ℕ
load32 m a = m a + 2 ^ 8 * m (a + 1) + 2 ^ 16 * m (a + 2) + 2 ^ 24 * m (a + 3)

unfoldable pub store32 : Memory → ℕ → ℕ → Memory
store32 m a v =
    store8 (store8 (store8 (store8 m a (u8 v)) (a + 1) (u8 (v / 2 ^ 8))) (a + 2) (u8 (v / 2 ^ 16)))
      (a + 3) (u8 (v / 2 ^ 24))

pub store16_at :
    (m : Memory) (a v x : ℕ)
    → store16 m a v x ≡ (if x == a + 1 then u8 (v / 2 ^ 8) else if x == a then u8 v else m x)
unfolding store16
store16_at m a v x =
    ground (arith, store8_at (store8 m a (u8 v)) (a + 1) (u8 (v / 2 ^ 8)) x, store8_at m a (u8 v) x)

pub store32_at :
    (m : Memory) (a v x : ℕ)
    → store32 m a v x ≡ (
        if x == a + 3
        then u8 (v / 2 ^ 24)
        else if x == a + 2
        then u8 (v / 2 ^ 16)
        else if x == a + 1
        then u8 (v / 2 ^ 8)
        else if x == a
        then u8 v
        else m x)
unfolding store32 store8
store32_at m a v x = refl

pub store32_outside : (m : Memory) (a v x : ℕ) → (x < a) ⊎ (a + 4 ≤ x) → store32 m a v x ≡ m x
store32_outside m a v x h = ground (arith, store32_at m a v x)

pub store16_outside : (m : Memory) (a v x : ℕ) → (x < a) ⊎ (a + 2 ≤ x) → store16 m a v x ≡ m x
store16_outside m a v x h = ground (arith, store16_at m a v x)

pub load32-store32 : (m : Memory) (a v : ℕ) → load32 (store32 m a v) a ≡ u32 v
unfolding load32
load32-store32 m a v = ground (
  arith,
  store32_at m a v a,
  store32_at m a v (a + 1),
  store32_at m a v (a + 2),
  store32_at m a v (a + 3),
)

pub load16-store16 : (m : Memory) (a v : ℕ) → load16 (store16 m a v) a ≡ u16 v
unfolding load16
load16-store16 m a v = ground (arith, store16_at m a v a, store16_at m a v (a + 1))

pub load32_cong :
    (m m' : Memory) (a : ℕ)
    → m' a ≡ m a
    → m' (a + 1) ≡ m (a + 1)
    → m' (a + 2) ≡ m (a + 2)
    → m' (a + 3) ≡ m (a + 3)
    → load32 m' a ≡ load32 m a
unfolding load32
load32_cong m m' a e0 e1 e2 e3 = omega arith

pub load32-store32_apart :
    (m : Memory) (a v b : ℕ) → (b + 4 ≤ a) ⊎ (a + 4 ≤ b) → load32 (store32 m a v) b ≡ load32 m b
load32-store32_apart m a v b h =
    load32_cong m (store32 m a v) b (store32_outside m a v b (omega arith))
      (store32_outside m a v (b + 1) (omega arith)) (store32_outside m a v (b + 2) (omega arith))
      (store32_outside m a v (b + 3) (omega arith))

pub load16-store16_apart :
    (m : Memory) (a v b : ℕ) → (b + 2 ≤ a) ⊎ (a + 2 ≤ b) → load16 (store16 m a v) b ≡ load16 m b
unfolding load16
load16-store16_apart m a v b h =
    ground (arith, store16_outside m a v b, store16_outside m a v (b + 1))
