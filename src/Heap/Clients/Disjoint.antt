-- ===== src/Heap/Clients/Disjoint.antt =====
-- What a program may rely on, whatever it does with the heap.
use lumen_os.Prelude.{
  ◌≡◌, ◌-◌, Option, none, some, ℕ, ◌+◌, ◌^◌, ◌≤◌, ◌<◌, refl, sym, ◌⊎◌, List, [], ◌∷◌, arith,
}
use lumen_os.Memory.{Memory}
use lumen_os.Port.{History, Device}
use lumen_os.Serial.{com1}
use lumen_os.Serial.Laws.{GetsReady}
use lumen_os.Heap.Refine.{needed, Allocated, malloc_refines}
use lumen_os.Heap.{header_size, Allocator, malloc, heap_size}
use lumen_os.Heap.Arena.{alloc, Block, total}
use lumen_os.Heap.Safety.{block_at-inside}
use lumen_os.Heap.Clients.{
  IsHeap, Handle, Program, at_boot, Reach, start, later, Holds, IsOwned, AllOwned, Elsewhere,
  Distinct, IsSound,
}
use lumen_os.Heap.Clients.Sound.{few, Step-IsSound, IsOwned-apart}

-- The bytes of the handle meet those of no handle of the list.
abbrev pub Beside : Handle → List Handle → Type 0
Beside h [] = Unit {0}
Beside h (g ∷ gs) = ((h.ptr + h.bytes ≤ g.ptr) ⊎ (g.ptr + g.bytes ≤ h.ptr)) × Beside h gs

-- Each handle's bytes lie in the heap, apart from those of the others, and hold what the program
-- stored there last.
abbrev pub Private : ℕ → Memory → List Handle → Type 0
Private heap m [] = Unit {0}
Private heap m (h ∷ hs) =
    (heap ≤ h.ptr)
    × (h.ptr + h.bytes ≤ heap + heap_size)
    × Holds m h
    × Beside h hs
    × Private heap m hs

AllOwned-Beside :
    (heap : ℕ) (m : Memory) (bs : List Block) (h : Handle)
    → IsOwned heap m bs h
    → (hs : List Handle) → AllOwned heap m bs hs
    → Elsewhere h.ptr hs
    → Beside h hs
AllOwned-Beside heap m bs h own [] o e = tt
AllOwned-Beside heap m bs h own (g ∷ gs) o e = (
  IsOwned-apart heap m bs h g own o.0 (λ same. e.0 (sym same)),
  AllOwned-Beside heap m bs h own gs o.1 e.1,
)

AllOwned-Private :
    (heap : ℕ) (m : Memory) (bs : List Block)
    → total bs ≤ heap_size
    → (hs : List Handle) → AllOwned heap m bs hs
    → Distinct hs
    → Private heap m hs
AllOwned-Private heap m bs small [] o d = tt
AllOwned-Private heap m bs small (h ∷ hs) o d = (
  omega (arith, o.0.ptr_is),
  omega (arith, small, o.0.ptr_is, o.0.large, block_at-inside o.0.offset o.0.block bs o.0.at),
  o.0.holds,
  AllOwned-Beside heap m bs h o.0 hs o.1 d.0,
  AllOwned-Private heap m bs small hs o.1 d.1,
)

module _ (heap fuel k : ℕ) (dev : Device) (address : 0 < heap) (room : heap + heap_size < 2 ^ 32)
    (large : heap_size < fuel) (prompt : GetsReady dev com1 k) (enough : k ≤ fuel) (m : Memory)
    (bus : History) where
  pub Reach-IsSound : {p : Program} → Reach heap fuel dev (at_boot m bus) p → IsSound heap p
  Reach-IsSound start = record {
    blocks = [];
    heap_is = record {
      chain = refl;
      used = refl;
      small = omega arith;
      address = address;
      room = room;
    };
    owned = tt;
    distinct = tt;
  }
  Reach-IsSound (later r st) = Step-IsSound heap fuel k dev large prompt enough st (Reach-IsSound r)

  malloc-ends :
      (request : ℕ) (s : Allocator) (bs : List Block)
      → IsHeap heap s bs
      → request ≤ 2 ^ 32 - 2 ^ 17
      → (ptr : ℕ) × (s' : Allocator) × (malloc heap fuel dev request s ≡ some (ptr, s'))
  malloc-ends request s bs v moderate = gives (alloc heap_size (needed request) bs) (
      malloc_refines heap fuel dev request s bs k v (few heap fuel k dev large prompt enough s bs v)
        moderate prompt enough)
    where
      gives :
          (a : Option (ℕ × List Block))
          → Allocated heap s bs a (malloc heap fuel dev request s)
          → (ptr : ℕ) × (s' : Allocator) × (malloc heap fuel dev request s ≡ some (ptr, s'))
      gives none (s', e, _, _, _) = (0, s', e)
      gives (some (o, bs')) (s', e, _, _) = (heap + o + header_size, s', e)

  -- If the array of the heap lies above address 0 and below 2^32, the fuel exceeds its size, and
  -- the serial line gets ready in time, then after any sequence of calls of `malloc`, with
  -- requests of at most 2^32 - 2^17, of calls of `free` with blocks that the
  -- program has not given back, and of stores into such blocks, each of these blocks lies in the
  -- array, meets none of the others, and holds at each offset what the program stored there last;
  -- and the next such call of `malloc` ends.
  pub Reach-Private :
      (p : Program) (request : ℕ)
      → Reach heap fuel dev (at_boot m bus) p
      → request ≤ 2 ^ 32 - 2 ^ 17
      → Private heap p.allocator.memory p.live
        × (ptr : ℕ) × (s' : Allocator) × (malloc heap fuel dev request p.allocator ≡ some (ptr, s'))
  Reach-Private p request r moderate =
      let v = Reach-IsSound r in
      let ended = malloc-ends request p.allocator v.blocks v.heap_is moderate in
      (
        AllOwned-Private heap p.allocator.memory v.blocks v.heap_is.small p.live v.owned v.distinct,
        ended.0,
        ended.1,
        ended.2,
      )
