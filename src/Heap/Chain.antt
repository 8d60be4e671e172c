-- ===== src/Heap/Chain.antt =====
use native.Mathlib.Nat.{mod-eq_of_lt}
-- How a list of blocks lies in memory.
use lumen_os.Prelude.{
  sym, ap, ==-true, refl, ==-false, u32, ◌∙◌, inr, ◌++◌, inl, arith, ◌-◌, ◌^◌, ◌<◌, ◌⊎◌, ℕ, ◌+◌,
  ◌≤◌, ◌≡◌, Bool, true, false, List, [], ◌∷◌,
}
use lumen_os.Memory.{Memory}
use lumen_os.Memory.Words.{
  store32_outside, load32-store32, load32-store32_apart, load32_cong, store32, load32,
}
use lumen_os.Heap.Arena.{used_block, set_free, total, Block}

abbrev pub flag : Bool → ℕ
flag true = 1
flag false = 0

u32-flag : (v : Bool) → u32 (flag v) ≡ flag v
u32-flag true = refl
u32-flag false = refl

-- From the pointer `p` the `next` fields lead through the headers of the blocks, which lie one
-- behind the other from `a` on.
abbrev pub Chain : Memory → ℕ → ℕ → List Block → Type 0
Chain m a p [] = p ≡ 0
Chain m a p (b ∷ bs) =
    (p ≡ a)
    × (load32 m a ≡ b.size)
    × (load32 m (a + 4) ≡ flag b.free)
    × (12 ≤ b.size)
    × Chain m (a + b.size) (load32 m (a + 8)) bs

-- Block headers end below the end of the last block, so writes from there on leave the chain
-- alone.
pub Chain-frame :
    (m m' : Memory) (a p : ℕ) (bs : List Block)
    → ((x : ℕ) → a ≤ x → x < a + total bs → m' x ≡ m x)
    → Chain m a p bs
    → Chain m' a p bs
Chain-frame m m' a p [] same c = c
Chain-frame m m' a p (b ∷ bs) same c = (
  c.0,
  cong a (omega arith) (omega arith) ∙ c.1,
  cong (a + 4) (omega arith) (omega arith) ∙ c.2,
  c.3,
  rw (cong (a + 8) (omega arith) (omega arith)) (
      Chain-frame m m' (a + b.size) (load32 m (a + 8)) bs
        (λ x lo hi. same x (omega arith) (omega arith)) c.4),
)
  where
    eight : 12 ≤ b.size
    eight = c.3

    cong : (q : ℕ) (lo : a ≤ q) (hi : q ≤ a + 8) → load32 m' q ≡ load32 m q
    cong q lo hi =
        load32_cong m m' q (same q (omega arith) (omega arith))
          (same (q + 1) (omega arith) (omega arith)) (same (q + 2) (omega arith) (omega arith))
          (same (q + 3) (omega arith) (omega arith))

abbrev pub IsStart : ℕ → List Block → Type 0
IsStart o [] = ⊥
IsStart o (b ∷ bs) = (o ≡ 0) ⊎ ((b.size ≤ o) × IsStart (o - b.size) bs)

module _ (m : Memory) (a p : ℕ) (b : Block) (bs : List Block) (c : Chain m a p (b ∷ bs)) where
  -- A write into the header at the front that spares its `next` field.
  Chain-front :
      (v : Bool) (q : ℕ) → q ≡ a + 4 → Chain (store32 m q (flag v)) a p (record b { free = v } ∷ bs)
  Chain-front v q e = (
    c.0,
    load32-store32_apart m q (flag v) a (omega arith) ∙ c.1,
    ap (load32 (store32 m q (flag v))) (sym e) ∙ load32-store32 m q (flag v) ∙ u32-flag v,
    c.3,
    rw (load32-store32_apart m q (flag v) (a + 8) (omega arith)) (
        Chain-frame m (store32 m q (flag v)) (a + b.size) (load32 m (a + 8)) bs
          (λ x lo hi. store32_outside m q (flag v) x (ground (arith, c.3))) c.4),
  )

  -- A write behind the header at the front, for a changed rest of the chain.
  Chain-rest :
      (q v : ℕ) (bs' : List Block)
      → a + 12 ≤ q
      → Chain (store32 m q v) (a + b.size) (load32 m (a + 8)) bs'
      → Chain (store32 m q v) a p (b ∷ bs')
  Chain-rest q v bs' far rest = (
    c.0,
    load32-store32_apart m q v a (omega arith) ∙ c.1,
    load32-store32_apart m q v (a + 4) (omega arith) ∙ c.2,
    c.3,
    rw (load32-store32_apart m q v (a + 8) (omega arith)) rest,
  )

-- Writing the `free` field of a block changes that block of the list.
pub Chain-set_free :
    (m : Memory) (a p o : ℕ) (v : Bool) (bs : List Block)
    → IsStart o bs
    → Chain m a p bs
    → Chain (store32 m (a + o + 4) (flag v)) a p (set_free o v bs)
Chain-set_free m a p o v [] start c = absurd start
Chain-set_free m a p o v (b ∷ bs) (inl here) c =
    rw (==-true o 0 here) (Chain-front m a p b bs c v (a + o + 4) (omega arith))
Chain-set_free m a p o v (b ∷ bs) (inr (past, start)) c =
    let far : 12 ≤ b.size = c.3 in
    let moved : a + b.size + (o - b.size) + 4 ≡ a + o + 4 = omega arith in
    rw (==-false o 0 (omega arith)) (
      Chain-rest m a p b bs c (a + o + 4) (flag v) (set_free (o - b.size) v bs) (omega arith) (
        rw (← moved)
          (Chain-set_free m (a + b.size) (load32 m (a + 8)) (o - b.size) v bs start c.4)))

-- The address of the last header, `prev` if there is none.
abbrev pub last_start : ℕ → ℕ → List Block → ℕ
last_start a prev [] = prev
last_start a prev (b ∷ bs) = last_start (a + b.size) a bs

pub last_start-ge : (a prev : ℕ) (b : Block) (bs : List Block) → a ≤ last_start a prev (b ∷ bs)
last_start-ge a prev b [] = omega arith
last_start-ge a prev b (b2 ∷ bs) = omega (arith, last_start-ge (a + b.size) a b2 bs)

-- Linking a header that stands behind the last block extends the chain by its block.
pub Chain-append :
    (m : Memory) (a p e n : ℕ) (b : Block) (bs : List Block)
    → Chain m a p (b ∷ bs)
    → e ≡ a + total (b ∷ bs)
    → e < 2 ^ 32
    → 12 ≤ n
    → Chain m e e (used_block n ∷ [])
    → Chain (store32 m (last_start a 0 (b ∷ bs) + 8) e) a p ((b ∷ bs) ++ (used_block n ∷ []))
Chain-append m a p e n b [] c at small big new =
    let far : 12 ≤ b.size = c.3 in
    let end : a + b.size ≡ e = omega arith in
    rw end (
      c.0,
      load32-store32_apart m (a + 8) e a (omega arith) ∙ c.1,
      load32-store32_apart m (a + 8) e (a + 4) (omega arith) ∙ c.2,
      c.3,
      (
        load32-store32 m (a + 8) e ∙ mod-eq_of_lt small,
        load32-store32_apart m (a + 8) e e (omega arith) ∙ new.1,
        load32-store32_apart m (a + 8) e (e + 4) (omega arith) ∙ new.2,
        big,
        load32-store32_apart m (a + 8) e (e + 8) (omega arith) ∙ new.4,
      ),
    )
Chain-append m a p e n b (b2 ∷ bs) c at small big new =
    let far : 12 ≤ b.size = c.3 in
    Chain-rest m a p b (b2 ∷ bs) c (last_start a 0 (b ∷ b2 ∷ bs) + 8) e
      ((b2 ∷ bs) ++ (used_block n ∷ [])) (omega (arith, last_start-ge (a + b.size) a b2 bs))
      (Chain-append m (a + b.size) (load32 m (a + 8)) e n b2 bs c.4 (omega arith) small big new)
