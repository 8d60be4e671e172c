-- ===== src/Memory/Text.antt =====
-- C strings in memory: bytes other than 0, and a 0 behind them.
use lumen_os.Prelude.{ℕ, ◌+◌, ◌≤◌, ◌<◌, ◌≡◌, ◌≢◌, arith, List, [], ◌∷◌, length}
use lumen_os.Memory.{Memory}

-- The string at `p` has the bytes `cs`.
abbrev pub IsText : Memory → ℕ → List ℕ → Type 0
IsText m p [] = m p ≡ 0
IsText m p (c ∷ cs) = (m p ≡ c) × (c ≢ 0) × (c < 256) × IsText m (p + 1) cs

-- A string is untouched by what happens outside it.
pub IsText-frame :
    (m m' : Memory) (p : ℕ) (cs : List ℕ)
    → ((x : ℕ) → p ≤ x → x ≤ p + length cs → m' x ≡ m x)
    → IsText m p cs
    → IsText m' p cs
IsText-frame m m' p [] same h = ground (arith, same p)
IsText-frame m m' p (c ∷ cs) same (e, ne, byte, rest) = (
  ground (arith, same p),
  ne,
  byte,
  IsText-frame m m' (p + 1) cs (λ x lo hi. same x (omega arith) (omega arith)) rest,
)
