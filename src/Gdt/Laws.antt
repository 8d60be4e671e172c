-- ===== src/Gdt/Laws.antt =====
-- The processor's reading of a descriptor.
use Prim.Native.Nat.{bit_and, bit_or}
use lumen_os.Prelude.{
  ℕ, ◌+◌, ◌-◌, ◌*◌, ◌/◌, ◌%◌, ◌^◌, ◌≤◌, ◌<◌, ◌≡◌, refl, ◌≢◌, true, Option, none, some, u32, arith,
  ltb, ◌==◌, if◌then◌else◌, ==-true, ==_iff,
}
use lumen_os.Prelude.Bits.{bit_and_mask, bit_or_field, holds_below, holds_below-at}
use lumen_os.Gdt.{GdtEntry, Gdt, gdt_set_gate, gdt_install}

abbrev pub base_of : GdtEntry → ℕ
base_of e = e.base_low + 2 ^ 16 * e.base_middle + 2 ^ 24 * e.base_high

-- The 20 bits of the limit.
abbrev pub limit_of : GdtEntry → ℕ
limit_of e = e.limit_low + 2 ^ 16 * (e.granularity % 16)

-- The last byte of the segment: with the granularity bit the limit counts pages of 4 KiB.
abbrev pub last_byte : GdtEntry → ℕ
last_byte e = if ltb e.granularity 0x80 then limit_of e else limit_of e * 2 ^ 12 + (2 ^ 12 - 1)

mask_table : holds_below (λ g. bit_and g 0xF0 == g / 16 * 16) 256 ≡ true
unfolding holds_below
mask_table = refl

high_nibble : (g : ℕ) → g < 256 → bit_and g 0xF0 ≡ g / 16 * 16
high_nibble g h =
    (==_iff _ _).0 (holds_below-at (λ g. bit_and g 0xF0 == g / 16 * 16) 256 g h mask_table)

granularity_lem :
    (limit g : ℕ)
    → g < 256
    → bit_or (bit_and (limit / 2 ^ 16) 0x0F) (bit_and g 0xF0) ≡ g / 16 * 16 + limit / 2 ^ 16 % 16
granularity_lem limit g h =
    rw (bit_and_mask 4 (limit / 2 ^ 16), high_nibble g h)
      (bit_or_field 4 (limit / 2 ^ 16 % 16) (g / 16) (omega arith))

-- `gdt_set_gate` splits its arguments so that the processor reads them back: the whole base, the
-- low 20 bits of the limit, the access byte and the high four bits of the granularity; no other
-- entry changes.
pub gdt_set_gate_lem :
    (num base limit access g : ℕ) (gdt : Gdt)
    → base < 2 ^ 32
    → g < 256
    → let e = gdt_set_gate num base limit access g gdt num in
      (base_of e ≡ base)
      × (limit_of e ≡ limit % 2 ^ 20)
      × (e.access ≡ access)
      × (e.granularity / 16 ≡ g / 16)
      × ((n : ℕ) → n ≢ num → gdt_set_gate num base limit access g gdt n ≡ gdt n)
unfolding gdt_set_gate
gdt_set_gate_lem num base limit access g gdt hb hg = rw (==-true num num refl) (
  omega
      (arith, bit_and_mask 16 base, bit_and_mask 8 (base / 2 ^ 16), bit_and_mask 8 (base / 2 ^ 24)),
  omega (arith, bit_and_mask 16 limit, granularity_lem limit g hg),
  refl,
  omega (arith, granularity_lem limit g hg),
  λ n ne. ground arith,
)

-- The high four bits beside the limit: granularity, operand size, long mode, and one that is free.
abbrev pub flags_of : GdtEntry → ℕ
flags_of e = e.granularity / 16

-- The linear address of an offset in the segment: `none` if the segment is not present or ends
-- before the offset.
abbrev pub translate : GdtEntry → ℕ → Option ℕ
translate e x =
    if ltb e.access 0x80
    then none
    else if ltb (last_byte e) x
    then none
    else some (u32 (base_of e + x))

abbrev pub null_descriptor : GdtEntry
null_descriptor = record {
  limit_low = 0;
  base_low = 0;
  base_middle = 0;
  access = 0;
  granularity = 0;
  base_high = 0;
}

-- After `gdt_install`, whatever the table held, all bits of entry 0 are 0. Entries 1 and 2 are
-- the code and the data segment of the kernel, for 32-bit operands with limits in pages, and
-- through both each 32-bit offset is the linear address of the same number. Entries from 3 on are
-- as they were, and the pointer that is loaded has the address of the table and the last byte of
-- its three entries.
pub gdt_install_lem :
    (address x n : ℕ) (gdt : Gdt)
    → x < 2 ^ 32
    → 3 ≤ n
    → let (p, t) = gdt_install address gdt in
      (t 0 ≡ null_descriptor)
      × (translate (t 1) x ≡ some x)
      × ((t 1).access ≡ 0x9A)
      × (flags_of (t 1) ≡ 0xC)
      × (translate (t 2) x ≡ some x)
      × ((t 2).access ≡ 0x92)
      × (flags_of (t 2) ≡ 0xC)
      × (t n ≡ gdt n)
      × (p.base ≡ address)
      × (p.limit + 1 ≡ 3 * 8)
unfolding gdt_install gdt_set_gate
gdt_install_lem address x n gdt small beyond =
    (refl, ground arith, refl, refl, ground arith, refl, refl, ground arith, refl, refl)
