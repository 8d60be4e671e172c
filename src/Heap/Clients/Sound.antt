-- ===== src/Heap/Clients/Sound.antt =====
-- Each step of a program keeps the heap sound.
use lumen_os.Prelude.{
  ℕ, ◌+◌, ◌-◌, ◌^◌, ◌≤◌, ◌<◌, ◌≡◌, sym, ap, ◌∙◌, ◌≢◌, ◌⊎◌, inl, inr, true, some, List, [], ◌∷◌,
  arith, ltb, ◌==◌, ==_iff, Bool-cases, Option-cases, length,
}
use mathlib.Core.Path.{subst}
use mathlib.Core.Option.{some-injective}
use lumen_os.Memory.{Memory, store8, store8_self, store8_ne}
use lumen_os.Port.{Device}
use lumen_os.Serial.{com1}
use lumen_os.Serial.Laws.{GetsReady}
use lumen_os.Heap.Arena.{Block, total, block_at, set_free, alloc}
use lumen_os.Heap.Chain.{Chain}
use lumen_os.Heap.Refine.{IsHeap, needed, Allocated, malloc_refines, free_refines}
use lumen_os.Heap.Safety.{IsFresh, malloc_fresh, block_at-set_free_ne}
use lumen_os.Heap.Layout.{block_at-IsStart, block_at-lt, Chain-store8}
use lumen_os.Heap.Frame.{IsPayload, malloc-frame, free-frame}
use lumen_os.Heap.{heap_size, header_size, Allocator, malloc, free}
use lumen_os.Heap.Clients.{
  Handle, no_values, with_value, Program, Picks, Step, obtained, refused, released, stored, IsOwned,
  AllOwned, Elsewhere, IsSound, Picks-Distinct, Picks-AllOwned,
}

-- The bytes of a handle lie behind its block's header.
owned-IsPayload :
    (heap : ℕ) (m : Memory) (bs : List Block) (h : Handle) (o : IsOwned heap m bs h) (i : ℕ)
    → i < h.bytes
    → IsPayload heap bs (h.ptr + i)
owned-IsPayload heap m bs h o i lt = record {
  offset = o.offset;
  block = o.block;
  at = o.at;
  in_use = o.in_use;
  low = omega (arith, o.ptr_is);
  high = omega (arith, o.ptr_is, o.large);
}

-- A handle whose block stays in the list and whose bytes stay in memory.
IsOwned-kept :
    (heap : ℕ) (m m' : Memory) (bs bs' : List Block) (h : Handle) (o : IsOwned heap m bs h)
    → block_at o.offset bs' ≡ some o.block
    → ((i : ℕ) → i < h.bytes → m' (h.ptr + i) ≡ m (h.ptr + i))
    → IsOwned heap m' bs' h
IsOwned-kept heap m m' bs bs' h o at same = record {
  offset = o.offset;
  block = o.block;
  ptr_is = o.ptr_is;
  at = at;
  in_use = o.in_use;
  large = o.large;
  holds = λ i v lt e. same i lt ∙ o.holds i v lt e;
}

AllOwned-kept :
    (heap p : ℕ) (m m' : Memory) (bs bs' : List Block)
    → ((h : Handle) → h.ptr ≢ p → IsOwned heap m bs h → IsOwned heap m' bs' h)
    → (hs : List Handle) → Elsewhere p hs
    → AllOwned heap m bs hs
    → AllOwned heap m' bs' hs
AllOwned-kept heap p m m' bs bs' f [] e o = tt
AllOwned-kept heap p m m' bs bs' f (h ∷ hs) e o =
    (f h e.0 o.0, AllOwned-kept heap p m m' bs bs' f hs e.1 o.1)

-- A block that was not in use belongs to no handle.
AllOwned-Elsewhere :
    (heap p o n : ℕ) (m : Memory) (bs bs' : List Block)
    → p ≡ heap + o + header_size
    → IsFresh n o bs bs'
    → (hs : List Handle) → AllOwned heap m bs hs
    → Elsewhere p hs
AllOwned-Elsewhere heap p o n m bs bs' e fresh [] a = tt
AllOwned-Elsewhere heap p o n m bs bs' e fresh (h ∷ hs) a = (
  λ same.
      let there : a.0.offset ≡ o = omega (arith, same, e, a.0.ptr_is) in
      let was : a.0.block.free ≡ true =
        fresh.was a.0.block (ap (λ q. block_at q bs) (sym there) ∙ a.0.at) in
      cc (a.0.in_use),
  AllOwned-Elsewhere heap p o n m bs bs' e fresh hs a.1,
)

length-total : (m : Memory) (a p : ℕ) (bs : List Block) → Chain m a p bs → length bs ≤ total bs
length-total m a p [] c = omega arith
length-total m a p (b ∷ bs) c = omega (arith, c.3, length-total m (a + b.size) _ bs c.4)

module _ (heap fuel k : ℕ) (dev : Device) (large : heap_size < fuel) (prompt : GetsReady dev com1 k)
    (enough : k ≤ fuel) where
  pub few : (s : Allocator) (bs : List Block) → IsHeap heap s bs → length bs < fuel
  few s bs v = omega (arith, length-total s.memory heap s.free_list bs v.chain, v.small, large)

  obtained-IsSound :
      (request ptr : ℕ) (s s' : Allocator) (live : List Handle)
      → request ≤ 2 ^ 32 - 2 ^ 17
      → malloc heap fuel dev request s ≡ some (ptr, s')
      → ptr ≢ 0
      → IsSound heap (record { allocator = s; live = live })
      → IsSound heap (record {
        allocator = s';
        live = record { ptr = ptr; bytes = request; values = no_values } ∷ live;
      })
  obtained-IsSound request ptr s s' live moderate e ne v =
      let bs = v.blocks in
      let at : IsHeap heap s bs = v.heap_is in
      let (o, bs', ptr_is, v', fresh, _) =
        malloc_fresh heap fuel dev request s bs k at (few s bs at) moderate prompt enough ptr s' e
          ne in
      let (b, found, used, big) = fresh.now in
      let other : Elsewhere ptr live =
        AllOwned-Elsewhere heap ptr o (needed request) s.memory bs bs' ptr_is fresh live v.owned in
      record {
        blocks = bs';
        heap_is = v';
        owned = (
          record {
            offset = o;
            block = b;
            ptr_is = ptr_is;
            at = found;
            in_use = used;
            large = omega (arith, big);
            holds = λ i w lt none_yet. absurd (cc none_yet);
          },
          AllOwned-kept heap ptr s.memory s'.memory bs bs'
              (λ h apart own.
                IsOwned-kept heap s.memory s'.memory bs bs' h own
                  (fresh.others own.offset own.block own.at own.in_use)
                  (λ i lt.
                    malloc-frame heap fuel dev request s bs k at (few s bs at) moderate prompt
                      enough ptr s' e (h.ptr + i) (owned-IsPayload heap s.memory bs h own i lt)))
              live other v.owned,
        );
        distinct = (other, v.distinct);
      }

  refused-IsSound :
      (request : ℕ) (s s' : Allocator) (live : List Handle)
      → request ≤ 2 ^ 32 - 2 ^ 17
      → malloc heap fuel dev request s ≡ some (0, s')
      → IsSound heap (record { allocator = s; live = live })
      → IsSound heap (record { allocator = s'; live = live })
  refused-IsSound request s s' live moderate e v =
      let bs = v.blocks in
      let at : IsHeap heap s bs = v.heap_is in
      let r = malloc heap fuel dev request s in
      let allocated : Allocated heap s bs (alloc heap_size (needed request) bs) r =
        malloc_refines heap fuel dev request s bs k at (few s bs at) moderate prompt enough in
      elim (Option-cases (alloc heap_size (needed request) bs)) [
        | inl full ↦
            let (s1, e1, v1, kept, _) = subst (λ a. Allocated heap s bs a r) full allocated in
            let same : s' ≡ s1 =
              ap (λ (t : ℕ × Allocator). t.1) (some-injective (0, s') (0, s1) (sym e ∙ e1)) in
            record {
              blocks = bs;
              heap_is = subst (λ t. IsHeap heap t bs) (sym same) v1;
              owned =
                  subst (λ m. AllOwned heap m bs live)
                    (sym (ap (λ (t : Allocator). t.memory) same ∙ kept)) v.owned;
              distinct = v.distinct;
            }
        | inr ((o, bs'), room) ↦
            let (s1, e1, _, _) = subst (λ a. Allocated heap s bs a r) room allocated in
            let same : 0 ≡ heap + o + header_size =
              ap (λ (t : ℕ × Allocator). t.0)
                (some-injective (0, s') (heap + o + header_size, s1) (sym e ∙ e1)) in
            absurd (omega (arith, same))
      ]

released-IsSound :
    (heap : ℕ) (h : Handle) (s : Allocator) {live rest : List Handle}
    → Picks h live rest
    → IsSound heap (record { allocator = s; live = live })
    → IsSound heap (record { allocator = free h.ptr s; live = rest })
released-IsSound heap h s {live} {rest} pick v =
    let bs = v.blocks in
    let at : IsHeap heap s bs = v.heap_is in
    let (own, others) = Picks-AllOwned heap s.memory bs pick v.owned in
    let (apart, distinct') = Picks-Distinct pick v.distinct in
    let begin = block_at-IsStart own.offset own.block bs own.at in
    let freed : free h.ptr s ≡ free (heap + own.offset + header_size) s =
      ap (λ p. free p s) own.ptr_is in
    record {
      blocks = set_free own.offset true bs;
      heap_is = rw freed ((free_refines heap own.offset s bs at begin).0);
      owned =
          AllOwned-kept heap h.ptr s.memory (free h.ptr s).memory bs (set_free own.offset true bs)
            (λ g ne mine.
              IsOwned-kept heap s.memory (free h.ptr s).memory bs (set_free own.offset true bs) g
                mine
                (block_at-set_free_ne own.offset mine.offset true bs begin
                    (λ same. ne (omega (arith, same, own.ptr_is, mine.ptr_is)))
                  ∙ mine.at)
                (λ i lt.
                  ap (λ (t : Allocator). t.memory (g.ptr + i)) freed
                  ∙ free-frame heap s bs at (g.ptr + i) own.offset own.block
                      (owned-IsPayload heap s.memory bs g mine i lt) own.at))
            rest apart others;
      distinct = distinct';
    }

-- The bytes of two handles with different pointers do not meet.
pub IsOwned-apart :
    (heap : ℕ) (m : Memory) (bs : List Block) (g h : Handle)
    → IsOwned heap m bs g
    → IsOwned heap m bs h
    → g.ptr ≢ h.ptr
    → (g.ptr + g.bytes ≤ h.ptr) ⊎ (h.ptr + h.bytes ≤ g.ptr)
IsOwned-apart heap m bs g h a b ne = elim (Bool-cases (ltb a.offset b.offset)) [
  | inl before ↦ inl (
      omega (
        arith,
        block_at-lt a.offset b.offset a.block b.block bs a.at b.at (ground (arith, before)),
        a.large,
        a.ptr_is,
        b.ptr_is,
      ))
  | inr not_before ↦ inr (
      omega (
        arith,
        block_at-lt b.offset a.offset b.block a.block bs b.at a.at
            (ground (arith, not_before, ne, a.ptr_is, b.ptr_is)),
        b.large,
        a.ptr_is,
        b.ptr_is,
      ))
]

stored-IsSound :
    (heap : ℕ) (h : Handle) (i v : ℕ) (s : Allocator) {live rest : List Handle}
    → Picks h live rest
    → i < h.bytes
    → IsSound heap (record { allocator = s; live = live })
    → IsSound heap (record {
      allocator = record s { memory = store8 s.memory (h.ptr + i) v };
      live = with_value i v h ∷ rest;
    })
stored-IsSound heap h i v s {live} {rest} pick lt t =
    let bs = t.blocks in
    let m' = store8 s.memory (h.ptr + i) v in
    let at : IsHeap heap s bs = t.heap_is in
    let (own, others) = Picks-AllOwned heap s.memory bs pick t.owned in
    let (apart, distinct') = Picks-Distinct pick t.distinct in
    record {
      blocks = bs;
      heap_is = record {
        chain =
            Chain-store8 s.memory heap s.free_list own.offset (h.ptr + i) v own.block bs own.at
              (omega (arith, own.ptr_is)) (omega (arith, own.ptr_is, own.large)) at.chain;
        used = at.used;
        small = at.small;
        address = at.address;
        room = at.room;
      };
      owned = (
        record {
          offset = own.offset;
          block = own.block;
          ptr_is = own.ptr_is;
          at = own.at;
          in_use = own.in_use;
          large = own.large;
          holds = λ j w in_it e. kept j w in_it e own;
        },
        AllOwned-kept heap h.ptr s.memory m' bs bs
            (λ g ne mine. IsOwned-kept heap s.memory m' bs bs g mine mine.at (λ j in_it.
              store8_ne s.memory (h.ptr + i) v (g.ptr + j)
                (omega (arith, IsOwned-apart heap s.memory bs g h mine own ne))))
            rest apart others,
      );
      distinct = (apart, distinct');
    }
  where
    kept :
        (j w : ℕ)
        → j < h.bytes
        → (with_value i v h).values j ≡ some w
        → IsOwned heap s.memory t.blocks h
        → store8 s.memory (h.ptr + i) v (h.ptr + j) ≡ w
    kept j w in_it e own = elim (Bool-cases (j == i)) [
      | inl same ↦
          let at_i : j ≡ i = (==_iff j i).0 same in
          ap (λ x. store8 s.memory (h.ptr + i) v (h.ptr + x)) at_i
          ∙ store8_self s.memory (h.ptr + i) v
          ∙ some-injective v w (rw same at e)
      | inr other ↦
          store8_ne s.memory (h.ptr + i) v (h.ptr + j) (ground (arith, other))
          ∙ own.holds j w in_it (rw other at e)
    ]

pub Step-IsSound :
    (heap fuel k : ℕ) (dev : Device)
    → heap_size < fuel
    → GetsReady dev com1 k
    → k ≤ fuel
    → {p q : Program} → Step heap fuel dev p q
    → IsSound heap p
    → IsSound heap q
Step-IsSound heap fuel k dev large prompt enough (obtained request ptr s s' live moderate e ne) v =
    obtained-IsSound heap fuel k dev large prompt enough request ptr s s' live moderate e ne v
Step-IsSound heap fuel k dev large prompt enough (refused request s s' live moderate e) v =
    refused-IsSound heap fuel k dev large prompt enough request s s' live moderate e v
Step-IsSound heap fuel k dev large prompt enough (released h s pick) v =
    released-IsSound heap h s pick v
Step-IsSound heap fuel k dev large prompt enough (stored h i x s pick lt) v =
    stored-IsSound heap h i x s pick lt v
