-- ===== src/Heap/Frame.antt =====
-- What `malloc` and `free` leave alone: the bytes behind the headers of the blocks in use.
use lumen_os.Prelude.{
  ℕ, ◌+◌, ◌-◌, ◌^◌, ◌≤◌, ◌<◌, ◌≡◌, refl, sym, ap, ◌∙◌, ◌⊎◌, inl, inr, false, none, some, List, [],
  ◌∷◌, arith, ltb, ◌==◌, ==-false, Bool-cases, Option-cases, length,
}
use mathlib.Core.Path.{subst}
use mathlib.Core.Option.{some-injective}
use lumen_os.Memory.{Memory}
use lumen_os.Memory.Words.{load32, store32_outside}
use lumen_os.Port.{Device}
use lumen_os.Serial.{com1}
use lumen_os.Serial.Laws.{GetsReady}
use lumen_os.Heap.Arena.{Block, total, first_fit, block_at, alloc, alloc-full}
use lumen_os.Heap.Blocks.{with_header, with_header_outside}
use lumen_os.Heap.Chain.{Chain, last_start}
use lumen_os.Heap.Refine.{
  IsHeap, needed, Allocated, malloc_refines, malloc-needed, malloc-found, malloc-missing, no_wrap,
}
use lumen_os.Heap.Safety.{
  Positive, Chain-Positive, block_at-inside, block_at-past, first_fit-Fitting,
}
use lumen_os.Heap.Layout.{block_at-lt}
use lumen_os.Heap.{heap_size, header_size, Allocator, append_block, malloc, free}

block_at-size :
    (m : Memory) (a p o : ℕ) (b : Block) (bs : List Block)
    → Chain m a p bs
    → block_at o bs ≡ some b
    → 12 ≤ b.size
block_at-size m a p o b [] c e = cc
block_at-size m a p o b (d ∷ bs) c e =
    ground (arith, c.3, block_at-size m (a + d.size) (load32 m (a + 8)) (o - d.size) b bs c.4)

-- The last header is the header of a block.
last_start-block_at :
    (a prev : ℕ) (b : Block) (bs : List Block)
    → Positive (b ∷ bs)
    → (q : ℕ) × (c : Block) × (last_start a prev (b ∷ bs) ≡ a + q) × (block_at q (b ∷ bs) ≡ some c)
last_start-block_at a prev b [] pos = (0, b, omega arith, refl)
last_start-block_at a prev b (b2 ∷ bs) pos =
    let (q, c, e, at) = last_start-block_at (a + b.size) a b2 bs pos.1 in
    (b.size + q, c, omega (arith, e), block_at-past q b (b2 ∷ bs) pos.0 ∙ at)

-- The address lies behind the header of a block in use.
pub record IsPayload (heap : ℕ) (bs : List Block) (x : ℕ) : Type 0 where
  pub offset : ℕ
  pub block : Block
  pub at : block_at offset bs ≡ some block
  pub in_use : block.free ≡ false
  pub low : heap + offset + 12 ≤ x
  pub high : x < heap + offset + block.size

-- No header meets the bytes behind the header of a block.
payload_apart :
    (heap : ℕ) (s : Allocator) (bs : List Block)
    → IsHeap heap s bs
    → (x q : ℕ) (c : Block) → IsPayload heap bs x
    → block_at q bs ≡ some c
    → (x < heap + q) ⊎ (heap + q + 12 ≤ x)
payload_apart heap s bs v x q c i e = elim (Bool-cases (ltb q i.offset)) [
  | inl before ↦ inr (
      omega (
        arith,
        i.low,
        block_at-lt q i.offset c i.block bs e i.at (ground (arith, before)),
        block_at-size s.memory heap s.free_list q c bs v.chain e,
      ))
  | inr not_before ↦ elim (Bool-cases (q == i.offset)) [
    | inl same ↦ inr (ground (arith, same, i.low))
    | inr other ↦ inl (
        omega (
          arith,
          i.high,
          block_at-lt i.offset q i.block c bs i.at e (ground (arith, not_before, other)),
        ))
  ]
]

-- `free` of another block.
pub free-frame :
    (heap : ℕ) (s : Allocator) (bs : List Block)
    → IsHeap heap s bs
    → (x q : ℕ) (c : Block) → IsPayload heap bs x
    → block_at q bs ≡ some c
    → (free (heap + q + header_size) s).memory x ≡ s.memory x
unfolding free
free-frame heap s bs v x q c i e = rw (==-false (heap + q + header_size) 0 (omega arith)) (
    store32_outside s.memory (heap + q + header_size - header_size + 4) 1 x
      (ground (arith, payload_apart heap s bs v x q c i e)))

append_block-frame :
    (heap n : ℕ) (s : Allocator) (bs : List Block)
    → IsHeap heap s bs
    → (x : ℕ) → IsPayload heap bs x
    → (append_block heap n (last_start heap 0 bs) s).memory x ≡ s.memory x
unfolding append_block
append_block-frame heap n s [] v x i = absurd (ground (arith, i.at))
append_block-frame heap n s (b ∷ bs) v x i =
    let (q, c, e, at) =
      last_start-block_at heap 0 b bs (Chain-Positive s.memory heap s.free_list (b ∷ bs) v.chain) in
    let below : x < heap + s.heap_used =
      omega (arith, i.high, v.used, block_at-inside i.offset i.block (b ∷ bs) i.at) in
    rw (==-false (last_start heap 0 (b ∷ bs)) 0 (omega (arith, e, v.address))) (
      store32_outside (with_header s.memory (heap + s.heap_used) n) (last_start heap 0 (b ∷ bs) + 8)
        (heap + s.heap_used) x (ground (arith, e, payload_apart heap s (b ∷ bs) v x q c i at))
      ∙ with_header_outside s.memory (heap + s.heap_used) n x below)

module _ (heap fuel : ℕ) (dev : Device) (request : ℕ) (s : Allocator) (bs : List Block) (k : ℕ)
    (v : IsHeap heap s bs) (few : length bs < fuel) (moderate : request ≤ 2 ^ 32 - 2 ^ 17)
    (prompt : GetsReady dev com1 k) (enough : k ≤ fuel) (ptr : ℕ) (s' : Allocator)
    (returned : malloc heap fuel dev request s ≡ some (ptr, s')) where
  same_state : (r : ℕ × Allocator) → malloc heap fuel dev request s ≡ some r → s' ≡ r.1
  same_state r e = ap (λ (t : ℕ × Allocator). t.1) (some-injective (ptr, s') r (sym returned ∙ e))

  pub malloc-frame : (x : ℕ) → IsPayload heap bs x → s'.memory x ≡ s.memory x
  malloc-frame x i = elim (Option-cases (first_fit (needed request) bs)) [
    | inr (o, e) ↦
        let (c, at, _, _) =
          first_fit-Fitting (needed request) o bs
            (Chain-Positive s.memory heap s.free_list bs v.chain) e in
        ap (λ (t : Allocator). t.memory x)
          (same_state _ (
            malloc-needed heap fuel dev request s bs k v few moderate prompt enough
            ∙ malloc-found heap fuel dev request s bs k v few moderate prompt enough o e))
        ∙ store32_outside s.memory (heap + o + 4) 0 x
            (ground (arith, payload_apart heap s bs v x o c i at))
    | inl e ↦ elim (Bool-cases (ltb heap_size (total bs + needed request))) [
      | inl full ↦ refused (alloc-full heap_size (needed request) bs e full)
      | inr free_room ↦
          ap (λ (t : Allocator). t.memory x)
            (same_state
              (
                heap + s.heap_used + header_size,
                append_block heap (needed request) (last_start heap 0 bs) s,
              )
              (malloc-needed heap fuel dev request s bs k v few moderate prompt enough
                ∙ malloc-missing heap fuel dev request s bs k v few moderate prompt enough e
                ∙ rw (no_wrap heap fuel dev request s bs k v few moderate prompt enough, free_room)
                    refl))
          ∙ append_block-frame heap (needed request) s bs v x i
    ]
  ]
    where
      refused : alloc heap_size (needed request) bs ≡ none → s'.memory x ≡ s.memory x
      refused a =
          let (s1, e1, _, kept, _) =
            subst (λ r. Allocated heap s bs r (malloc heap fuel dev request s)) a
              (malloc_refines heap fuel dev request s bs k v few moderate prompt enough) in
          ap (λ (t : Allocator). t.memory x) (same_state (0, s1) e1) ∙ ap (λ (m : Memory). m x) kept
