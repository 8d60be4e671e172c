-- ===== src/Heap/Clients.antt =====
-- A program on the heap: the calls of `malloc` and `free` in src/stdlib/stdlib.c in any order, and
-- the bytes that the program stores in the blocks that it got and has not given back.
pub mod Sound
pub mod Disjoint
use lumen_os.Prelude.{
  ℕ, zero, suc, ◌+◌, ◌-◌, ◌*◌, ◌/◌, ◌%◌, ◌^◌, ◌≤◌, ◌<◌, ◌≡◌, refl, sym, ap, ◌∙◌, fun_ext, ◌≢◌, ◌↔◌,
  ◌⊎◌, inl, inr, Bool, true, false, ◌&&◌, ◌||◌, not, Option, none, some, List, [], ◌∷◌, ◌++◌,
  append-nil, append_assoc, arith, ltb, leb, ◌==◌, if◌then◌else◌, u8, u16, u32, ==-true, ==-false,
  ltb-true, ltb-false, ==_iff, Bool-cases, Option-cases, u8-byte, length, get_elem?, length-append,
  codes,
}
use native.Mathlib.Nat.{le_trans, add-zero, mod-eq_of_lt, add_assoc, add_comm, mod-lt}
use lumen_os.Memory.{Memory, store8, store8_self, store8_ne}
use lumen_os.Port.{History, Device}
use lumen_os.Serial.{com1}
use lumen_os.Serial.Laws.{GetsReady}
use lumen_os.Heap.Arena.{Block, total, block_at, set_free}
use lumen_os.Heap.Chain.{Chain}
use lumen_os.Heap.Refine.{IsHeap, needed, Allocated, malloc_refines, free_refines}
use lumen_os.Heap.Safety.{IsFresh, malloc_fresh, block_at-inside, block_at-set_free_ne}
use lumen_os.Heap.Layout.{block_at-IsStart, block_at-lt, Chain-store8}
use lumen_os.Heap.Frame.{IsPayload, malloc-frame, free-frame}
use lumen_os.Heap.{heap_size, header_size, Allocator, malloc, free}

-- A block that the program got: the pointer, the bytes it asked for, and what it last stored at
-- each offset.
pub record Handle : Type 0 where
  pub ptr : ℕ
  pub bytes : ℕ
  pub values : ℕ → Option ℕ

abbrev pub no_values : ℕ → Option ℕ
no_values i = none

abbrev pub with_value : ℕ → ℕ → Handle → Handle
with_value i v h = record h { values = λ j. if j == i then some v else h.values j }

pub record Program : Type 0 where
  pub allocator : Allocator
  pub live : List Handle

-- The heap before the first call.
abbrev pub at_boot : Memory → History → Program
at_boot m bus = record {
  allocator = record { memory = m; heap_used = 0; free_list = 0; bus = bus };
  live = [];
}

-- `rest` is the list without one occurrence of `h`.
pub data Picks (h : Handle) : List Handle → List Handle → Type 0 where
  front : (hs : List Handle) → Picks h (h ∷ hs) hs
  behind : {hs rest : List Handle} (g : Handle) → Picks h hs rest → Picks h (g ∷ hs) (g ∷ rest)

pub data Step (heap fuel : ℕ) (dev : Device) : Program → Program → Type 0 where
  obtained :
      (request ptr : ℕ) (s s' : Allocator) (live : List Handle)
      → request ≤ 2 ^ 32 - 2 ^ 17
      → malloc heap fuel dev request s ≡ some (ptr, s')
      → ptr ≢ 0
      → Step heap fuel dev
          (record { allocator = s; live = live })
          (record {
            allocator = s';
            live = record { ptr = ptr; bytes = request; values = no_values } ∷ live;
          })
  refused :
      (request : ℕ) (s s' : Allocator) (live : List Handle)
      → request ≤ 2 ^ 32 - 2 ^ 17
      → malloc heap fuel dev request s ≡ some (0, s')
      → Step heap fuel dev
          (record { allocator = s; live = live })
          (record { allocator = s'; live = live })
  released :
      (h : Handle) (s : Allocator) {live rest : List Handle}
      → Picks h live rest
      → Step heap fuel dev
          (record { allocator = s; live = live })
          (record { allocator = free h.ptr s; live = rest })
  stored :
      (h : Handle) (i v : ℕ) (s : Allocator) {live rest : List Handle}
      → Picks h live rest
      → i < h.bytes
      → Step heap fuel dev
          (record { allocator = s; live = live })
          (record {
            allocator = record s { memory = store8 s.memory (h.ptr + i) v };
            live = with_value i v h ∷ rest;
          })

pub data Reach (heap fuel : ℕ) (dev : Device) (p0 : Program) : Program → Type 0 where
  start : Reach heap fuel dev p0 p0
  later :
      {p q : Program} → Reach heap fuel dev p0 p → Step heap fuel dev p q → Reach heap fuel dev p0 q

-- Memory holds what the program stored in the block.
abbrev pub Holds : Memory → Handle → Type 0
Holds m h = (i v : ℕ) → i < h.bytes → h.values i ≡ some v → m (h.ptr + i) ≡ v

-- The handle's block is one of the list and in use, and holds what was stored in it.
pub record IsOwned (heap : ℕ) (m : Memory) (bs : List Block) (h : Handle) : Type 0 where
  pub offset : ℕ
  pub block : Block
  pub ptr_is : h.ptr ≡ heap + offset + header_size
  pub at : block_at offset bs ≡ some block
  pub in_use : block.free ≡ false
  pub large : h.bytes + header_size ≤ block.size
  pub holds : Holds m h

abbrev pub AllOwned : ℕ → Memory → List Block → List Handle → Type 0
AllOwned heap m bs [] = Unit {0}
AllOwned heap m bs (h ∷ hs) = IsOwned heap m bs h × AllOwned heap m bs hs

-- No handle of the list has the pointer.
abbrev pub Elsewhere : ℕ → List Handle → Type 0
Elsewhere p [] = Unit {0}
Elsewhere p (h ∷ hs) = (h.ptr ≢ p) × Elsewhere p hs

abbrev pub Distinct : List Handle → Type 0
Distinct [] = Unit {0}
Distinct (h ∷ hs) = Elsewhere h.ptr hs × Distinct hs

-- The allocator's heap is well formed, and the live handles own different blocks of it.
pub record IsSound (heap : ℕ) (p : Program) : Type 0 where
  pub blocks : List Block
  pub heap_is : IsHeap heap p.allocator blocks
  pub owned : AllOwned heap p.allocator.memory blocks p.live
  pub distinct : Distinct p.live

Picks-Elsewhere :
    (p : ℕ) {h : Handle} {hs rest : List Handle}
    → Picks h hs rest
    → Elsewhere p hs
    → (h.ptr ≢ p) × Elsewhere p rest
Picks-Elsewhere p (front hs) e = e
Picks-Elsewhere p (behind g k) e = let (ne, others) = Picks-Elsewhere p k e.1 in (ne, (e.0, others))

pub Picks-Distinct :
    {h : Handle} {hs rest : List Handle}
    → Picks h hs rest
    → Distinct hs
    → Elsewhere h.ptr rest × Distinct rest
Picks-Distinct (front hs) d = d
Picks-Distinct (behind g k) d =
    let (ne, others) = Picks-Elsewhere g.ptr k d.0 in
    let (apart, rest) = Picks-Distinct k d.1 in (((λ e. ne (sym e)), apart), (others, rest))

pub Picks-AllOwned :
    (heap : ℕ) (m : Memory) (bs : List Block) {h : Handle} {hs rest : List Handle}
    → Picks h hs rest
    → AllOwned heap m bs hs
    → IsOwned heap m bs h × AllOwned heap m bs rest
Picks-AllOwned heap m bs (front hs) o = o
Picks-AllOwned heap m bs (behind g k) o =
    let (mine, others) = Picks-AllOwned heap m bs k o.1 in (mine, (o.0, others))
