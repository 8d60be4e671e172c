-- ===== src/Heap/Overflow.antt =====
-- Requests near the end of `size_t`.
use lumen_os.Prelude.{
  codes, refl, Option, if◌then◌else◌, ℕ, ◌+◌, ◌-◌, ◌^◌, ◌≤◌, ◌<◌, ◌≡◌, ap, ◌∙◌, false, none, some,
  List, [], ◌∷◌, arith, ltb, u32, ltb-false, length,
}
use lumen_os.Heap.Arena.{Block, total, first_fit}
use lumen_os.Heap.Chain.{last_start}
use lumen_os.Heap.Refine.{IsHeap, needed, find_fit_lem, align4_lem}
use lumen_os.Heap.{
  oom_text, append_block, heap_size, header_size, malloc_sized, align4, Allocator, malloc,
}
use lumen_os.Port.{Device}
use lumen_os.Serial.{serial_write, com1}

size_wraps :
    (r : ℕ)
    → 2 ^ 32 - 3 ≤ r
    → r < 2 ^ 32
    → u32 (align4 r + header_size) ≡ u32 (align4 0 + header_size)
unfolding align4
size_wraps r lo hi = omega arith

-- A request for one of the last three values of `size_t` is rounded up to 0, so `malloc` does for
-- it exactly what it does for a request of 0 bytes: it hands out a block with no room behind its
-- header, where one is free.
pub malloc_wraps :
    (heap fuel : ℕ) (dev : Device) (request : ℕ) (s : Allocator)
    → 2 ^ 32 - 3 ≤ request
    → request < 2 ^ 32
    → malloc heap fuel dev request s ≡ malloc heap fuel dev 0 s
unfolding malloc
malloc_wraps heap fuel dev request s lo hi =
    ap (λ n. malloc_sized heap fuel dev n s) (size_wraps request lo hi)

first_fit-huge : (n : ℕ) (bs : List Block) → total bs < n → first_fit n bs ≡ none
first_fit-huge n [] lt = refl
first_fit-huge n (b ∷ bs) lt = ground (arith, first_fit-huge n bs)

heap_used-append_block :
    (heap n prev : ℕ) (s : Allocator)
    → (append_block heap n prev s).heap_used ≡ u32 (s.heap_used + n)
unfolding append_block
heap_used-append_block heap n prev s = ground arith

-- On a heap that stands for a list of blocks, with fuel above their number, if the request,
-- rounded up and with its header, still has 32 bits, but its sum with the bytes in use has not,
-- `malloc` gives a pointer behind the blocks all the same, and fewer bytes are in use afterwards
-- than before.
pub malloc_huge :
    (heap fuel : ℕ) (dev : Device) (request : ℕ) (s : Allocator) (bs : List Block)
    → IsHeap heap s bs
    → length bs < fuel
    → request ≤ 2 ^ 32 - 16
    → 2 ^ 32 ≤ s.heap_used + needed request
    → (s' : Allocator) × (malloc heap fuel dev request s
        ≡ some (heap + s.heap_used + header_size, s'))
      × (s'.heap_used + 2 ^ 32 ≡ s.heap_used + needed request)
      × (s'.heap_used < s.heap_used)
unfolding malloc malloc_sized
malloc_huge heap fuel dev request s bs v few narrow wraps =
    let n : u32 (align4 request + header_size) ≡ needed request =
      omega (arith, align4_lem request (omega arith)) in
    let none_fits : first_fit (needed request) bs ≡ none =
      first_fit-huge (needed request) bs (omega (arith, v.small, v.used)) in
    let searched : malloc_sized heap fuel dev (needed request) s ≡ (
        if ltb heap_size (u32 (s.heap_used + needed request))
        then elim (serial_write fuel dev (codes oom_text) com1 s.bus)
            as (λ x. Option (ℕ × Allocator)) [
              | none ↦ none
              | some bus' ↦ some (0, record s { bus = bus' })
            ]
        else some (
          heap + s.heap_used + header_size,
          append_block heap (needed request) (last_start heap 0 bs) s,
        )) =
      rw (
        malloc_sized,
        find_fit_lem fuel s.memory (needed request) heap s.free_list 0 bs v.address v.chain few,
        none_fits,
      ) in
    let used = heap_used-append_block heap (needed request) (last_start heap 0 bs) s in
    let room : ltb heap_size (u32 (s.heap_used + needed request)) ≡ false =
      ltb-false heap_size _ (omega (arith, v.used, v.small)) in
    (
      append_block heap (needed request) (last_start heap 0 bs) s,
      ap (λ x. malloc_sized heap fuel dev x s) n ∙ searched ∙ rw room refl,
      omega (arith, used, v.used, v.small),
      omega (arith, used, v.used, v.small),
    )
