-- ===== src/Gdt/Typed.antt =====
-- The descriptors and the pointer record fit their fields.
use lumen_os.Prelude.{ℕ, ◌/◌, ◌^◌, ◌<◌, Bool, true, false, arith, ◌==◌, if◌then◌else◌}
use Prim.Native.Nat.{bit_and, bit_or}
use lumen_os.Gdt.{GdtEntry, Gdt, gdt_set_gate, gdt_install}

pub record IsEntry (e : GdtEntry) : Type 0 where
  pub limit_in : e.limit_low < 2 ^ 16
  pub base_low_in : e.base_low < 2 ^ 16
  pub base_middle_in : e.base_middle < 256
  pub access_in : e.access < 256
  pub granularity_in : e.granularity < 256
  pub base_high_in : e.base_high < 256

abbrev pub IsTyped : Gdt → Type 0
IsTyped gdt = (n : ℕ) → IsEntry (gdt n)

if-IsEntry : (b : Bool) (x y : GdtEntry) → IsEntry x → IsEntry y → IsEntry (if b then x else y)
if-IsEntry true x y p q = p
if-IsEntry false x y p q = q

set_gate-IsTyped :
    (num base limit access granularity : ℕ) (gdt : Gdt)
    → access < 256
    → bit_or (bit_and (limit / 2 ^ 16) 0x0F) (bit_and granularity 0xF0) < 256
    → IsTyped gdt
    → IsTyped (gdt_set_gate num base limit access granularity gdt)
unfolding gdt_set_gate
set_gate-IsTyped num base limit access granularity gdt a g v n =
    if-IsEntry (n == num) _ (gdt n)
      (record {
        limit_in = omega arith;
        base_low_in = omega arith;
        base_middle_in = omega arith;
        access_in = a;
        granularity_in = g;
        base_high_in = omega arith;
      })
      (v n)

pub gdt_install-IsTyped :
    (address : ℕ) (gdt : Gdt)
    → address < 2 ^ 32
    → IsTyped gdt
    → let (p, gdt') = gdt_install address gdt in
      IsTyped gdt' × (p.limit < 2 ^ 16) × (p.base < 2 ^ 32)
unfolding gdt_install
gdt_install-IsTyped address gdt small v = (
  set_gate-IsTyped 2 0 0xFFFF_FFFF 0x92 0xCF _ (omega arith) (omega arith) (
      set_gate-IsTyped 1 0 0xFFFF_FFFF 0x9A 0xCF _ (omega arith) (omega arith)
        (set_gate-IsTyped 0 0 0 0 0 gdt (omega arith) (omega arith) v)),
  omega arith,
  omega arith,
)
