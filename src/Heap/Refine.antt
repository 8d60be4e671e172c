-- ===== src/Heap/Refine.antt =====
-- `malloc` and `free` in memory do what the arena does on the list of blocks.
use lumen_os.Prelude.{
  ℕ, zero, suc, ◌+◌, ◌-◌, ◌*◌, ◌/◌, ◌^◌, ◌≤◌, ◌<◌, ◌≡◌, refl, sym, ap, ◌∙◌, inl, inr, Bool, true,
  false, Option, none, some, List, [], ◌∷◌, ◌++◌, arith, ltb, ◌==◌, if◌then◌else◌, u32, ==-true,
  ==-false, Bool-cases, Option-cases, length, codes,
}
use lumen_os.Memory.{Memory}
use mathlib.Core.Path.{subst}
use lumen_os.Memory.Words.{load32, store32}
use lumen_os.Port.{Device, written}
use lumen_os.Serial.{com1, serial_write}
use lumen_os.Serial.Laws.{on_line, GetsReady, serial_write-Sends}
use lumen_os.Heap.Arena.{
  Block, used_block, total, first_fit, set_free, alloc, alloc-found, alloc-full, alloc-grow,
}
use lumen_os.Heap.Blocks.{
  first_fit-IsStart, total-set_free, total-append, with_header, Chain-with_header, Chain-below,
}
use lumen_os.Heap.Chain.{
  flag, Chain, IsStart, Chain-set_free, last_start, last_start-ge, Chain-append,
}
use lumen_os.Heap.{
  heap_size, header_size, align4, Allocator, Search, found, missing, find_fit, append_block,
  malloc_sized, malloc, free, oom_text,
}

-- Where the search for `n` bytes ends, from the block at `a` with `prev` before it.
abbrev pub outcome : ℕ → ℕ → ℕ → List Block → Search
outcome n a prev bs = elim (first_fit n bs) [
  | some o ↦ found (a + o)
  | none ↦ missing (last_start a prev bs)
]

pub find_fit_lem :
    (fuel : ℕ) (m : Memory) (n a p prev : ℕ) (bs : List Block)
    → 0 < a
    → Chain m a p bs
    → length bs < fuel
    → find_fit fuel m n p prev ≡ some (outcome n a prev bs)
unfolding find_fit
find_fit_lem zero m n a p prev bs pos c h = absurd (omega arith)
find_fit_lem (suc f) m n a p prev [] pos c h = rw (==-true p 0 c, find_fit)
find_fit_lem (suc f) m n a p prev (b ∷ bs) pos c h =
    let rest : find_fit f m n (load32 m (a + 8)) a ≡ some (outcome n (a + b.size) a bs) =
      find_fit_lem f m n (a + b.size) (load32 m (a + 8)) a bs (omega arith) c.4 (omega arith) in
    ground (arith, c.0, c.1, c.2, rest)

-- The allocator's variables and the heap in memory stand for the list of blocks.
pub record IsHeap (heap : ℕ) (s : Allocator) (bs : List Block) : Type 0 where
  pub chain : Chain s.memory heap s.free_list bs
  pub used : s.heap_used ≡ total bs
  pub small : total bs ≤ heap_size
  pub address : 0 < heap
  pub room : heap + heap_size < 2 ^ 32

-- The bytes that a request takes: rounded up to a multiple of 4, and a header.
abbrev pub needed : ℕ → ℕ
needed r = (r + 3) / 4 * 4 + header_size

pub align4_lem : (r : ℕ) → r ≤ 2 ^ 32 - 4 → align4 r ≡ (r + 3) / 4 * 4
unfolding align4
align4_lem r h = omega arith

needed_lem : (r : ℕ) → r ≤ 2 ^ 32 - 2 ^ 17 → u32 (align4 r + header_size) ≡ needed r
needed_lem r h = omega (arith, align4_lem r)

-- What `malloc` has to give where the arena gives `a`.
abbrev pub Allocated :
    ℕ → Allocator → List Block → Option (ℕ × List Block) → Option (ℕ × Allocator) → Type 0
Allocated heap s bs (some (o, bs')) r =
    (s' : Allocator) × (r ≡ some (heap + o + header_size, s'))
    × IsHeap heap s' bs'
    × (s'.bus ≡ s.bus)
Allocated heap s bs none r =
    (s' : Allocator) × (r ≡ some (0, s'))
    × IsHeap heap s' bs
    × (s'.memory ≡ s.memory)
    × (written com1 s'.bus ≡ written com1 s.bus ++ on_line (codes oom_text))

last_start-pos :
    (a : ℕ) (b : Block) (bs : List Block) → 0 < a → (last_start a 0 (b ∷ bs) == 0) ≡ false
last_start-pos a b bs h = ==-false _ 0 (omega (arith, last_start-ge a 0 b bs))

-- A new block behind the last one.
append_block-IsHeap :
    (heap n : ℕ) (s : Allocator) (bs : List Block)
    → IsHeap heap s bs
    → 12 ≤ n
    → total bs + n ≤ heap_size
    → IsHeap heap (append_block heap n (last_start heap 0 bs) s) (bs ++ (used_block n ∷ []))
unfolding append_block
append_block-IsHeap heap n s [] v big h = record {
  chain =
      subst
        (λ (q : ℕ).
          Chain (with_header s.memory (heap + s.heap_used) n) q (heap + s.heap_used)
            (used_block n ∷ []))
        (omega arith) (Chain-with_header s.memory (heap + s.heap_used) n big (omega arith));
  used = omega arith;
  small = omega arith;
  address = v.address;
  room = v.room;
}
append_block-IsHeap heap n s (b ∷ bs) v big h = rw (last_start-pos heap b bs v.address) (record {
  chain =
      Chain-append (with_header s.memory (heap + s.heap_used) n) heap s.free_list
        (heap + s.heap_used) n b bs
        (Chain-below s.memory (heap + s.heap_used) n heap s.free_list (b ∷ bs) (omega arith)
          v.chain)
        (omega arith) (omega arith) big
        (Chain-with_header s.memory (heap + s.heap_used) n big (omega arith));
  used = omega (arith, total-append bs (used_block n ∷ []));
  small = omega (arith, total-append (b ∷ bs) (used_block n ∷ []));
  address = v.address;
  room = v.room;
})

take-IsHeap :
    (heap o : ℕ) (v : Bool) (s : Allocator) (bs : List Block)
    → IsStart o bs
    → IsHeap heap s bs
    → IsHeap heap (record s { memory = store32 s.memory (heap + o + 4) (flag v) }) (set_free o v bs)
take-IsHeap heap o v s bs start h = record {
  chain = Chain-set_free s.memory heap s.free_list o v bs start h.chain;
  used = h.used ∙ sym (total-set_free o v bs);
  small = rw (total-set_free o v bs) h.small;
  address = h.address;
  room = h.room;
}

bus-append_block : (heap n prev : ℕ) (s : Allocator) → (append_block heap n prev s).bus ≡ s.bus
unfolding append_block
bus-append_block heap n prev s = ground arith

module _ (heap fuel : ℕ) (dev : Device) (request : ℕ) (s : Allocator) (bs : List Block) (k : ℕ)
    (v : IsHeap heap s bs) (few : length bs < fuel) (moderate : request ≤ 2 ^ 32 - 2 ^ 17)
    (prompt : GetsReady dev com1 k) (enough : k ≤ fuel) where
  pub malloc-needed : malloc heap fuel dev request s ≡ malloc_sized heap fuel dev (needed request) s
  unfolding malloc
  malloc-needed = ap (λ n. malloc_sized heap fuel dev n s) (needed_lem request moderate)

  searched :
      find_fit fuel s.memory (needed request) s.free_list 0
      ≡ some (outcome (needed request) heap 0 bs)
  searched = find_fit_lem fuel s.memory (needed request) heap s.free_list 0 bs v.address v.chain few

  pub malloc-found :
      (o : ℕ)
      → first_fit (needed request) bs ≡ some o
      → malloc_sized heap fuel dev (needed request) s
        ≡ some (heap + o + header_size, record s { memory = store32 s.memory (heap + o + 4) 0 })
  unfolding malloc_sized
  malloc-found o e = rw (malloc_sized, searched, e)

  pub malloc-missing :
      first_fit (needed request) bs ≡ none
      → malloc_sized heap fuel dev (needed request) s ≡ (
          if ltb heap_size (u32 (s.heap_used + needed request))
          then elim (serial_write fuel dev (codes oom_text) com1 s.bus) [
            | none ↦ none
            | some bus' ↦ some (0, record s { bus = bus' })
          ]
          else some (
            heap + s.heap_used + header_size,
            append_block heap (needed request) (last_start heap 0 bs) s,
          ))
  unfolding malloc_sized
  malloc-missing e = rw (malloc_sized, searched, e)

  pub no_wrap : u32 (s.heap_used + needed request) ≡ total bs + needed request
  no_wrap = omega (arith, v.used, v.small)

  allocates_found :
      (o : ℕ)
      → first_fit (needed request) bs ≡ some o
      → Allocated heap s bs (alloc heap_size (needed request) bs) (malloc heap fuel dev request s)
  allocates_found o e = rw (alloc-found heap_size (needed request) bs o e) (
    record s { memory = store32 s.memory (heap + o + 4) 0 },
    malloc-needed ∙ malloc-found o e,
    take-IsHeap heap o false s bs (first_fit-IsStart (needed request) o bs e) v,
    refl,
  )

  allocates_full :
      first_fit (needed request) bs ≡ none
      → ltb heap_size (total bs + needed request) ≡ true
      → Allocated heap s bs (alloc heap_size (needed request) bs) (malloc heap fuel dev request s)
  allocates_full e full =
      let (bus', e', w) =
        serial_write-Sends fuel dev com1 k prompt enough (codes oom_text) s.bus (omega arith) in
      rw (alloc-full heap_size (needed request) bs e full) (
        record s { bus = bus' },
        malloc-needed ∙ malloc-missing e ∙ rw (no_wrap, full, e'),
        record {
          chain = v.chain;
          used = v.used;
          small = v.small;
          address = v.address;
          room = v.room;
        },
        refl,
        w,
      )

  allocates_grow :
      first_fit (needed request) bs ≡ none
      → ltb heap_size (total bs + needed request) ≡ false
      → Allocated heap s bs (alloc heap_size (needed request) bs) (malloc heap fuel dev request s)
  allocates_grow e free_room = rw (alloc-grow heap_size (needed request) bs e free_room) (
    append_block heap (needed request) (last_start heap 0 bs) s,
    malloc-needed ∙ malloc-missing e ∙ rw (no_wrap, free_room, v.used),
    append_block-IsHeap heap (needed request) s bs v (omega arith) (ground arith),
    bus-append_block heap (needed request) (last_start heap 0 bs) s,
  )

  -- If the search has fuel for every block, the request leaves room for the header in 32 bits,
  -- and the serial line gets ready in time, then `malloc` returns what first fit on the list of
  -- blocks gives: the address behind the header of the first free block that is large enough,
  -- which is now in use, or of a new block behind the last one, or `NULL` with the message on the
  -- serial line and memory unchanged; and the heap stands for the new list of blocks.
  pub malloc_refines :
      Allocated heap s bs (alloc heap_size (needed request) bs) (malloc heap fuel dev request s)
  malloc_refines = elim (Option-cases (first_fit (needed request) bs)) [
    | inr (o, e) ↦ allocates_found o e
    | inl e ↦ elim (Bool-cases (ltb heap_size (total bs + needed request))) [
      | inl full ↦ allocates_full e full
      | inr free_room ↦ allocates_grow e free_room
    ]
  ]

-- `free` of the pointer to a block marks that block free and nothing else; `free(NULL)` does
-- nothing.
pub free_refines :
    (heap o : ℕ) (s : Allocator) (bs : List Block)
    → IsHeap heap s bs
    → IsStart o bs
    → IsHeap heap (free (heap + o + header_size) s) (set_free o true bs) × (free 0 s ≡ s)
unfolding free
free_refines heap o s bs v start =
    let ptr : heap + o + header_size - header_size + 4 ≡ heap + o + 4 = omega arith in
    (
      rw (==-false (heap + o + header_size) 0 (omega arith), ptr)
          (take-IsHeap heap o true s bs start v),
      refl,
    )
