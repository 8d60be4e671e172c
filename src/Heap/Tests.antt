-- ===== src/Heap/Tests.antt =====
-- The allocator at concrete heaps.
use lumen_os.Prelude.{
  ◌-◌, ◌^◌, ◌<◌, ℕ, ◌+◌, ◌≤◌, ◌≡◌, refl, inl, true, false, some, List, [], ◌∷◌, arith,
}
use lumen_os.Memory.{Memory, store8}
use lumen_os.Memory.Words.{load32, store32}
use lumen_os.Port.{Device}
use lumen_os.Serial.{com1}
use lumen_os.Serial.Laws.{GetsReady}
use lumen_os.Heap.{heap_size, align4, Allocator, malloc, append_block, free}
use lumen_os.Heap.Arena.{Block, alloc, set_free}
use lumen_os.Heap.Refine.{IsHeap, needed, Allocated, malloc_refines, free_refines}
use lumen_os.Heap.Safety.{IsFresh, malloc_fresh}
use lumen_os.Heap.Overflow.{malloc_huge}
use lumen_os.Heap.Clients.{
  Handle, no_values, with_value, Program, front, obtained, stored, start, later,
}
use lumen_os.Heap.Clients.Disjoint.{Private, Reach-Private}

-- A serial line that is always ready.
abbrev ready_line : Device
ready_line h port = 0x20

ready_line-GetsReady : GetsReady ready_line com1 1
ready_line-GetsReady h = record { round = 0; in_time = omega arith; ready = omega arith }

abbrev base : ℕ
base = 0x10_0000

abbrev untouched : Allocator
untouched = record { memory = λ a. 0; heap_used = 0; free_list = 0; bus = [] }

untouched-IsHeap : IsHeap base untouched []
untouched-IsHeap = record {
  chain = refl;
  used = refl;
  small = omega arith;
  address = omega arith;
  room = omega arith;
}

-- One block of 20 bytes, which has been given back.
abbrev one_header : Memory
one_header = store32 (store32 (λ a. 0) base 20) (base + 4) 1

abbrev one_free : Allocator
one_free = record { memory = one_header; heap_used = 20; free_list = base; bus = [] }

abbrev one_block : List Block
one_block = record { size = 20; free = true } ∷ []

one_free-IsHeap : IsHeap base one_free one_block
unfolding load32 store32 store8
one_free-IsHeap = record {
  chain = (refl, refl, refl, omega arith, refl);
  used = refl;
  small = omega arith;
  address = omega arith;
  room = omega arith;
}

malloc_refines_example :
    Allocated base one_free one_block
      (alloc heap_size (needed 6) one_block)
      (malloc base 2 ready_line 6 one_free)
malloc_refines_example =
    malloc_refines base 2 ready_line 6 one_free one_block 1 one_free-IsHeap (omega arith)
      (omega arith) ready_line-GetsReady (omega arith)

malloc-reuse :
    alloc heap_size (needed 6) one_block ≡ some (0, record { size = 20; free = false } ∷ [])
unfolding alloc
malloc-reuse = refl

malloc-first :
    malloc base 1 ready_line 6 untouched ≡ some (base + 12, append_block base 20 0 untouched)
unfolding malloc align4
malloc-first = refl

malloc_fresh_example :
    (o : ℕ) × (bs : List Block) × (base + 12 ≡ base + o + 12)
    × IsHeap base (append_block base 20 0 untouched) bs
    × IsFresh (needed 6) o [] bs
    × (o + needed 6 ≤ heap_size)
malloc_fresh_example =
    malloc_fresh base 1 ready_line 6 untouched [] 1 untouched-IsHeap (omega arith) (omega arith)
      ready_line-GetsReady (omega arith) (base + 12) (append_block base 20 0 untouched) malloc-first
      (omega arith)

free_refines_example :
    IsHeap base (free (base + 0 + 12) one_free) (set_free 0 true one_block)
    × (free 0 one_free ≡ one_free)
free_refines_example = free_refines base 0 one_free one_block one_free-IsHeap (inl refl)

malloc-boot :
    malloc base 65537 ready_line 6 untouched ≡ some (base + 12, append_block base 20 0 untouched)
unfolding malloc align4
malloc-boot = refl

abbrev got : Handle
got = record { ptr = base + 12; bytes = 6; values = no_values }

-- The program has got 6 bytes and has stored `A` in the third.
abbrev one_stored : Program
one_stored = record {
  allocator = record (append_block base 20 0 untouched) {
    memory = store8 (append_block base 20 0 untouched).memory (base + 14) b'A';
  };
  live = with_value 2 b'A' got ∷ [];
}

Reach-Private_example :
    Private base one_stored.allocator.memory (with_value 2 b'A' got ∷ [])
    × (ptr : ℕ) × (s' : Allocator) × (malloc base 65537 ready_line 5 one_stored.allocator
        ≡ some (ptr, s'))
Reach-Private_example =
    Reach-Private base 65537 1 ready_line (omega arith) (omega arith) (omega arith)
      ready_line-GetsReady (omega arith) (λ a. 0) [] one_stored 5
      (later
        (later start (
          obtained 6 (base + 12) untouched (append_block base 20 0 untouched) [] (omega arith)
            malloc-boot (omega arith)))
        (stored got 2 b'A' (append_block base 20 0 untouched) (front []) (omega arith)))
      (omega arith)

malloc_huge_example :
    (s' : Allocator) × (malloc base 2 ready_line (2 ^ 32 - 16) one_free ≡ some (base + 32, s'))
    × (s'.heap_used + 2 ^ 32 ≡ 2 ^ 32 + 16)
    × (s'.heap_used < 20)
malloc_huge_example =
    malloc_huge base 2 ready_line (2 ^ 32 - 16) one_free one_block one_free-IsHeap (omega arith)
      (omega arith) (omega arith)
