-- ===== src/Heap.antt =====
-- src/stdlib/stdlib.c: `malloc` and `free` over a static array of 64 KiB.
pub mod Arena
pub mod Chain
pub mod Blocks
pub mod Refine
pub mod Safety
pub mod Layout
pub mod Frame
pub mod Clients
pub mod Overflow
mod Tests
use Prim.Native.String.{String}
use lumen_os.Prelude.{
  ℕ, zero, suc, ◌+◌, ◌-◌, ◌*◌, ◌/◌, ◌^◌, ◌==◌, leb, ltb, ◌&&◌, not, Option, none, some,
  if◌then◌else◌, u32, codes,
}
use lumen_os.Memory.{Memory}
use lumen_os.Memory.Words.{load32, store32}
use lumen_os.Port.{History, Device}
use lumen_os.Serial.{serial_write, com1}

abbrev pub heap_size : ℕ
heap_size = 64 * 1024

-- `sizeof(BlockHeader)` on i386: `size` at offset 0, `free` at 4 and `next` at 8.
abbrev pub header_size : ℕ
header_size = 12

-- `ALIGN4`, in `size_t` of 32 bits: both the subtraction and the sum wrap.
unfoldable pub align4 : ℕ → ℕ
align4 x = u32 (u32 (x + 2 ^ 32 - 1) / 4 * 4 + 4)

-- The allocator's variables, the memory that holds the heap, and the bus.
pub record Allocator : Type 0 where
  pub memory : Memory
  pub heap_used : ℕ
  pub free_list : ℕ
  pub bus : History

-- How the loop of `malloc` ends: at a block that fits, or behind the last block.
pub data Search : Type 0 where
  found : ℕ → Search
  missing : ℕ → Search

pub find_fit : ℕ → Memory → ℕ → ℕ → ℕ → Option Search
find_fit zero m size curr prev = none
find_fit (suc f) m size curr prev =
    let rest = find_fit f m size (load32 m (curr + 8)) curr in
    if curr == 0
    then some (missing prev)
    else if not (load32 m (curr + 4) == 0) && leb size (load32 m curr)
    then some (found curr)
    else rest

abbrev pub oom_text : String
oom_text = "Out of memory error! Free up some blocks!\n"

-- The new header, and the link to it from the block before or from the head of the list.
pub append_block : ℕ → ℕ → ℕ → Allocator → Allocator
append_block heap size prev s =
    let curr = heap + s.heap_used in
    let m1 = store32 s.memory curr size in
    let m2 = store32 m1 (curr + 4) 0 in
    let m3 = store32 m2 (curr + 8) 0 in
    let used = u32 (s.heap_used + size) in
    if prev == 0
    then record s { memory = m3; heap_used = used; free_list = curr }
    else record s { memory = store32 m3 (prev + 8) curr; heap_used = used }

-- `malloc` behind its first line, which computes `size`. `heap` is the address of the array.
pub malloc_sized : ℕ → ℕ → Device → ℕ → Allocator → Option (ℕ × Allocator)
unfolding find_fit append_block
malloc_sized heap fuel dev size s = elim (find_fit fuel s.memory size s.free_list 0) [
  | none ↦ none
  | some (found curr) ↦
      some (curr + header_size, record s { memory = store32 s.memory (curr + 4) 0 })
  | some (missing prev) ↦
      if ltb heap_size (u32 (s.heap_used + size))
      then elim (serial_write fuel dev (codes oom_text) com1 s.bus) [
        | none ↦ none
        | some bus' ↦ some (0, record s { bus = bus' })
      ]
      else some (heap + s.heap_used + header_size, append_block heap size prev s)
]

-- The result is the pointer, `NULL` being 0.
pub malloc : ℕ → ℕ → Device → ℕ → Allocator → Option (ℕ × Allocator)
unfolding malloc_sized
malloc heap fuel dev request s = malloc_sized heap fuel dev (u32 (align4 request + header_size)) s

pub free : ℕ → Allocator → Allocator
free ptr s =
    if ptr == 0 then s else record s { memory = store32 s.memory (ptr - header_size + 4) 1 }
