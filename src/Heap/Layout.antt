-- ===== src/Heap/Layout.antt =====
-- Where the blocks of the list lie, and what a write inside one of them leaves alone.
use lumen_os.Prelude.{
  ℕ, ◌+◌, ◌-◌, ◌≤◌, ◌<◌, ◌≡◌, ◌∙◌, inl, inr, some, List, [], ◌∷◌, arith, ltb, ◌==◌, Bool-cases,
}
use lumen_os.Memory.{Memory, store8, store8_ne}
use lumen_os.Memory.Words.{load32, load32_cong}
use lumen_os.Heap.Arena.{Block, block_at}
use lumen_os.Heap.Chain.{Chain, Chain-frame, IsStart}

pub block_at-IsStart : (o : ℕ) (b : Block) (bs : List Block) → block_at o bs ≡ some b → IsStart o bs
block_at-IsStart o b [] e = cc
block_at-IsStart o b (c ∷ bs) e = elim (Bool-cases (o == 0)) [
  | inl here ↦ inl (ground (arith, here))
  | inr there ↦ elim (Bool-cases (ltb o c.size)) [
    | inl inside ↦ absurd (ground (arith, rw (there, inside) at e))
    | inr past ↦
        inr (ground (arith, past), block_at-IsStart (o - c.size) b bs (rw (there, past) at e))
  ]
]

-- Of two blocks the first ends before the second starts.
pub block_at-lt :
    (o q : ℕ) (b c : Block) (bs : List Block)
    → block_at o bs ≡ some b
    → block_at q bs ≡ some c
    → o < q
    → o + b.size ≤ q
block_at-lt o q b c [] e f lt = cc
block_at-lt o q b c (d ∷ bs) e f lt = ground (arith, block_at-lt (o - d.size) (q - d.size) b c bs)

-- A byte behind the header of a block is in no header.
pub Chain-store8 :
    (m : Memory) (a p o q v : ℕ) (b : Block) (bs : List Block)
    → block_at o bs ≡ some b
    → a + o + 12 ≤ q
    → q < a + o + b.size
    → Chain m a p bs
    → Chain (store8 m q v) a p bs
Chain-store8 m a p o q v b [] e lo hi c = cc
Chain-store8 m a p o q v b (d ∷ bs) e lo hi c = (
  c.0,
  kept a (omega arith) ∙ c.1,
  kept (a + 4) (omega arith) ∙ c.2,
  c.3,
  rw (kept (a + 8) (omega arith)) (elim (Bool-cases (o == 0)) [
    | inl here ↦
        Chain-frame m (store8 m q v) (a + d.size) (load32 m (a + 8)) bs
          (λ x low high. store8_ne m q v x (ground (arith, here, e))) c.4
    | inr there ↦ elim (Bool-cases (ltb o d.size)) [
      | inl inside ↦ absurd (ground (arith, rw (there, inside) at e))
      | inr past ↦
          Chain-store8 m (a + d.size) (load32 m (a + 8)) (o - d.size) q v b bs
            (rw (there, past) at e) (ground (arith, past)) (ground (arith, past)) c.4
    ]
  ]),
)
  where
    kept : (x : ℕ) → x ≤ a + 8 → load32 (store8 m q v) x ≡ load32 m x
    kept x le =
        load32_cong m (store8 m q v) x (store8_ne m q v x (omega arith))
          (store8_ne m q v (x + 1) (omega arith)) (store8_ne m q v (x + 2) (omega arith))
          (store8_ne m q v (x + 3) (omega arith))
