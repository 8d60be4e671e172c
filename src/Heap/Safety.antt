-- ===== src/Heap/Safety.antt =====
-- No block is handed out twice: `malloc` returns a block that was not in use, and leaves the
-- blocks in use where they are.
use lumen_os.Prelude.{
  ℕ, ◌+◌, ◌-◌, ◌^◌, ◌≤◌, ◌<◌, ◌≡◌, refl, ◌∙◌, ◌≢◌, inl, inr, Bool, true, false, none, some, List,
  [], ◌∷◌, ◌++◌, arith, ltb, ==-false, ltb-false, Bool-cases, Option-cases, length,
}
use mathlib.Core.Path.{subst}
use lumen_os.Memory.Words.{load32}
use lumen_os.Serial.{com1}
use lumen_os.Serial.Laws.{GetsReady}
use lumen_os.Port.{Device}
use lumen_os.Memory.{Memory}
use lumen_os.Heap.Arena.{
  Block, used_block, total, first_fit, fits, set_free, block_at, alloc, alloc-found, alloc-full,
  alloc-grow,
}
use lumen_os.Heap.Blocks.{shift-some, first_fit-IsStart}
use lumen_os.Heap.Chain.{Chain, IsStart}
use lumen_os.Heap.Refine.{IsHeap, needed, Allocated, malloc_refines}
use lumen_os.Heap.{heap_size, header_size, Allocator, malloc}

abbrev pub Positive : List Block → Type 0
Positive [] = Unit {0}
Positive (b ∷ bs) = (0 < b.size) × Positive bs

pub Chain-Positive : (m : Memory) (a p : ℕ) (bs : List Block) → Chain m a p bs → Positive bs
Chain-Positive m a p [] c = tt
Chain-Positive m a p (b ∷ bs) c =
    (omega (arith, c.3), Chain-Positive m (a + b.size) (load32 m (a + 8)) bs c.4)

-- What is known of the block that the search finds.
abbrev pub Fitting : ℕ → ℕ → List Block → Type 0
Fitting n o bs = (b : Block) × (block_at o bs ≡ some b) × (b.free ≡ true) × (n ≤ b.size)

pub block_at-past :
    (k : ℕ) (b : Block) (bs : List Block)
    → 0 < b.size
    → block_at (b.size + k) (b ∷ bs) ≡ block_at k bs
block_at-past k b bs pos =
    let back : b.size + k - b.size ≡ k = omega arith in
    rw (==-false (b.size + k) 0 (omega arith), ltb-false (b.size + k) b.size (omega arith), back)

pub first_fit-Fitting :
    (n o : ℕ) (bs : List Block) → Positive bs → first_fit n bs ≡ some o → Fitting n o bs
first_fit-Fitting n o [] pos e = cc
first_fit-Fitting n o (b ∷ bs) pos e = elim (Bool-cases (fits n b)) [
  | inl good ↦ (b, ground arith, ground arith, ground arith)
  | inr bad ↦
      let (k, e', o_eq) = shift-some b.size o (first_fit n bs) (rw bad at e) in
      let (c, at, fr, big) = first_fit-Fitting n k bs pos.1 e' in
      (c, rw (o_eq, block_at-past k b bs pos.0) at, fr, big)
]

pub block_at-set_free_self :
    (o : ℕ) (v : Bool) (b : Block) (bs : List Block)
    → block_at o bs ≡ some b
    → block_at o (set_free o v bs) ≡ some (record b { free = v })
block_at-set_free_self o v b [] e = cc
block_at-set_free_self o v b (c ∷ bs) e = ground (arith, block_at-set_free_self (o - c.size) v b bs)

pub block_at-set_free_ne :
    (o q : ℕ) (v : Bool) (bs : List Block)
    → IsStart o bs
    → q ≢ o
    → block_at q (set_free o v bs) ≡ block_at q bs
block_at-set_free_ne o q v [] start ne = refl
block_at-set_free_ne o q v (b ∷ bs) (inl here) ne = ground arith
block_at-set_free_ne o q v (b ∷ bs) (inr (past, start)) ne =
    ground (arith, block_at-set_free_ne (o - b.size) (q - b.size) v bs start)

block_at-append :
    (o : ℕ) (b : Block) (bs cs : List Block)
    → block_at o bs ≡ some b
    → block_at o (bs ++ cs) ≡ some b
block_at-append o b [] cs e = cc
block_at-append o b (c ∷ bs) cs e = ground (arith, block_at-append (o - c.size) b bs cs)

block_at-total :
    (x : Block) (bs : List Block)
    → Positive bs
    → (block_at (total bs) bs ≡ none) × (block_at (total bs) (bs ++ (x ∷ [])) ≡ some x)
block_at-total x [] pos = (refl, refl)
block_at-total x (b ∷ bs) pos = (
  block_at-past (total bs) b bs pos.0 ∙ (block_at-total x bs pos.1).0,
  block_at-past (total bs) b (bs ++ (x ∷ [])) pos.0 ∙ (block_at-total x bs pos.1).1,
)

-- The block at `o` was not in use and is now, with at least `n` bytes; each other block in use is
-- where it was.
pub record IsFresh (n o : ℕ) (bs bs' : List Block) : Type 0 where
  pub was : (b : Block) → block_at o bs ≡ some b → b.free ≡ true
  pub now : (b : Block) × (block_at o bs' ≡ some b) × (b.free ≡ false) × (n ≤ b.size)
  pub others :
      (q : ℕ) (b : Block) → block_at q bs ≡ some b → b.free ≡ false → block_at q bs' ≡ some b

found-IsFresh :
    (n o : ℕ) (bs : List Block)
    → Positive bs
    → first_fit n bs ≡ some o
    → IsFresh n o bs (set_free o false bs)
found-IsFresh n o bs pos e =
    let (b, at, fr, big) = first_fit-Fitting n o bs pos e in
    record {
      was = λ c at'. ground arith;
      now = (record b { free = false }, block_at-set_free_self o false b bs at, refl, big);
      others = λ q c at' in_use.
          block_at-set_free_ne o q false bs (first_fit-IsStart n o bs e) (λ same. ground arith)
          ∙ at';
    }

grow-IsFresh :
    (n : ℕ) (bs : List Block) → Positive bs → IsFresh n (total bs) bs (bs ++ (used_block n ∷ []))
grow-IsFresh n bs pos = record {
  was = λ c at'. cc ((block_at-total (used_block n) bs pos).0);
  now = (used_block n, (block_at-total (used_block n) bs pos).1, refl, omega arith);
  others = λ q c at' in_use. block_at-append q c bs (used_block n ∷ []) at';
}

pub block_at-inside :
    (o : ℕ) (b : Block) (bs : List Block) → block_at o bs ≡ some b → o + b.size ≤ total bs
block_at-inside o b [] e = cc
block_at-inside o b (c ∷ bs) e = ground (arith, block_at-inside (o - c.size) b bs)

module _ (heap fuel : ℕ) (dev : Device) (request : ℕ) (s : Allocator) (bs : List Block) (k : ℕ)
    (v : IsHeap heap s bs) (few : length bs < fuel) (moderate : request ≤ 2 ^ 32 - 2 ^ 17)
    (prompt : GetsReady dev com1 k) (enough : k ≤ fuel) (ptr : ℕ) (s' : Allocator)
    (returned : malloc heap fuel dev request s ≡ some (ptr, s')) where
  -- `ptr` is behind the header of a fresh block of the heap that `s'` stands for.
  abbrev pub Fresh : Type 0
  Fresh =
      (o : ℕ) × (bs' : List Block) × (ptr ≡ heap + o + header_size)
      × IsHeap heap s' bs'
      × IsFresh (needed request) o bs bs'
      × (o + needed request ≤ heap_size)

  handed_out :
      (o : ℕ) (bs' : List Block)
      → alloc heap_size (needed request) bs ≡ some (o, bs')
      → IsFresh (needed request) o bs bs'
      → Fresh
  handed_out o bs' a fresh =
      let (s1, e1, v1, _) =
        subst (λ x. Allocated heap s bs x (malloc heap fuel dev request s)) a
          (malloc_refines heap fuel dev request s bs k v few moderate prompt enough) in
      let same : s1 ≡ s' = cc in
      let (b, at, _, big) = fresh.now in
      (
        o,
        bs',
        cc,
        subst (λ x. IsHeap heap x bs') same v1,
        fresh,
        omega (arith, block_at-inside o b bs' at, v1.small),
      )

  -- A pointer other than `NULL` that `malloc` returns lies behind the header of a block inside
  -- the heap that was not in use, has at least the bytes of the request and its header, and is in
  -- use now; every block that was in use before is still in use at its place.
  pub malloc_fresh : ptr ≢ 0 → Fresh
  malloc_fresh ne = elim (Option-cases (first_fit (needed request) bs)) [
    | inr (o, e) ↦
        handed_out o (set_free o false bs) (alloc-found heap_size (needed request) bs o e) (
          found-IsFresh (needed request) o bs (Chain-Positive s.memory heap s.free_list bs v.chain)
            e)
    | inl e ↦ elim (Bool-cases (ltb heap_size (total bs + needed request))) [
      | inl full ↦ absurd (ne (refused (alloc-full heap_size (needed request) bs e full)))
      | inr free_room ↦
          handed_out (total bs) (bs ++ (used_block (needed request) ∷ []))
            (alloc-grow heap_size (needed request) bs e free_room)
            (grow-IsFresh (needed request) bs (Chain-Positive s.memory heap s.free_list bs v.chain))
    ]
  ]
    where
      refused : alloc heap_size (needed request) bs ≡ none → ptr ≡ 0
      refused a =
          let (s1, e1, _, _, _) =
            subst (λ x. Allocated heap s bs x (malloc heap fuel dev request s)) a
              (malloc_refines heap fuel dev request s bs k v few moderate prompt enough) in
          cc
