-- ===== src/Heap/Blocks.antt =====
-- The arena's list: offsets, sizes, and the header that `malloc` writes behind the last block.
use lumen_os.Prelude.{
  ℕ, ◌+◌, ◌-◌, ◌^◌, ◌≤◌, ◌<◌, ◌≡◌, refl, ◌∙◌, inl, inr, Bool, Option, none, some, List, [], ◌∷◌,
  ◌++◌, arith, Bool-cases,
}
use native.Mathlib.Nat.{mod-eq_of_lt}
use lumen_os.Memory.{Memory}
use lumen_os.Memory.Words.{store32, load32-store32, load32-store32_apart, store32_outside}
use lumen_os.Heap.Arena.{Block, used_block, total, first_fit, set_free, fits, shift}
use lumen_os.Heap.Chain.{Chain, Chain-frame, IsStart}

pub shift-some :
    (n o : ℕ) (r : Option ℕ) → shift n r ≡ some o → (k : ℕ) × (r ≡ some k) × (o ≡ n + k)
shift-some n o none e = cc
shift-some n o (some k) e = (k, refl, ground arith)

-- The search ends at the start of a block.
pub first_fit-IsStart : (n o : ℕ) (bs : List Block) → first_fit n bs ≡ some o → IsStart o bs
first_fit-IsStart n o [] e = cc
first_fit-IsStart n o (b ∷ bs) e = elim (Bool-cases (fits n b)) [
  | inl yes_fits ↦ inl (ground arith)
  | inr not_fits ↦
      let (k, e', o_eq) = shift-some b.size o (first_fit n bs) (rw not_fits at e) in
      let back : o - b.size ≡ k = omega arith in
      inr (omega arith, rw back (first_fit-IsStart n k bs e'))
]

pub total-set_free : (o : ℕ) (v : Bool) (bs : List Block) → total (set_free o v bs) ≡ total bs
total-set_free o v [] = refl
total-set_free o v (b ∷ bs) = ground (arith, total-set_free (o - b.size) v bs)

pub total-append : (bs cs : List Block) → total (bs ++ cs) ≡ total bs + total cs
total-append [] cs = omega arith
total-append (b ∷ bs) cs = omega (arith, total-append bs cs)

-- The three stores of a new header.
abbrev pub with_header : Memory → ℕ → ℕ → Memory
with_header m e n = store32 (store32 (store32 m e n) (e + 4) 0) (e + 8) 0

module _ (m : Memory) (e n : ℕ) where
  pub with_header_outside : (x : ℕ) → x < e → with_header m e n x ≡ m x
  with_header_outside x h =
      store32_outside (store32 (store32 m e n) (e + 4) 0) (e + 8) 0 x (omega arith)
      ∙ store32_outside (store32 m e n) (e + 4) 0 x (omega arith)
      ∙ store32_outside m e n x (omega arith)

  pub Chain-with_header : 12 ≤ n → n < 2 ^ 32 → Chain (with_header m e n) e e (used_block n ∷ [])
  Chain-with_header big small = (
    refl,
    load32-store32_apart (store32 (store32 m e n) (e + 4) 0) (e + 8) 0 e (omega arith)
        ∙ load32-store32_apart (store32 m e n) (e + 4) 0 e (omega arith)
        ∙ load32-store32 m e n
        ∙ mod-eq_of_lt small,
    load32-store32_apart (store32 (store32 m e n) (e + 4) 0) (e + 8) 0 (e + 4) (omega arith)
        ∙ load32-store32 (store32 m e n) (e + 4) 0,
    big,
    load32-store32 (store32 (store32 m e n) (e + 4) 0) (e + 8) 0,
  )

  -- Blocks below the new header stay as they are.
  pub Chain-below :
      (a p : ℕ) (bs : List Block)
      → a + total bs ≤ e
      → Chain m a p bs
      → Chain (with_header m e n) a p bs
  Chain-below a p bs h c =
      Chain-frame m (with_header m e n) a p bs (λ x lo hi. with_header_outside x (omega arith)) c
