-- ===== src/Gdt.antt =====
-- src/stage0/gdt/gdt.c: the segment descriptors. The table is a function of the index;
-- `gdt_flush`, which loads it, is assembly.
pub mod Laws
pub mod Typed
mod Tests
use Prim.Native.Nat.{bit_and, bit_or}
use lumen_os.Prelude.{
  ℕ, zero, suc, ◌+◌, ◌-◌, ◌*◌, ◌/◌, ◌%◌, ◌^◌, ◌≤◌, ◌<◌, ◌≡◌, refl, sym, ap, ◌∙◌, fun_ext, ◌≢◌, ◌↔◌,
  ◌⊎◌, inl, inr, Bool, true, false, ◌&&◌, ◌||◌, not, Option, none, some, List, [], ◌∷◌, ◌++◌,
  append-nil, append_assoc, arith, ltb, leb, ◌==◌, if◌then◌else◌, u8, u16, u32, ==-true, ==-false,
  ltb-true, ltb-false, ==_iff, Bool-cases, Option-cases, u8-byte, length, get_elem?, length-append,
  codes,
}
use native.Mathlib.Nat.{le_trans, add-zero, mod-eq_of_lt, add_assoc, add_comm, mod-lt}

-- `struct gdt_entry`
pub record GdtEntry : Type 0 where
  pub limit_low : ℕ
  pub base_low : ℕ
  pub base_middle : ℕ
  pub access : ℕ
  pub granularity : ℕ
  pub base_high : ℕ

-- `struct gdt_ptr`
pub record GdtPtr : Type 0 where
  pub limit : ℕ
  pub base : ℕ

abbrev pub Gdt : Type 0
Gdt = ℕ → GdtEntry

abbrev pub gdt_entries : ℕ
gdt_entries = 3

pub gdt_set_gate : ℕ → ℕ → ℕ → ℕ → ℕ → Gdt → Gdt
gdt_set_gate num base limit access granularity gdt n =
    if n == num
    then record {
      limit_low = u16 (bit_and limit 0xFFFF);
      base_low = u16 (bit_and base 0xFFFF);
      base_middle = u8 (bit_and (base / 2 ^ 16) 0xFF);
      access = access;
      granularity = bit_or (bit_and (limit / 2 ^ 16) 0x0F) (bit_and granularity 0xF0);
      base_high = u8 (bit_and (base / 2 ^ 24) 0xFF);
    }
    else gdt n

-- `address` is that of the table. The result is the pointer record and the table.
pub gdt_install : ℕ → Gdt → GdtPtr × Gdt
unfolding gdt_set_gate
gdt_install address gdt = (
  record { limit = 8 * gdt_entries - 1; base = address },
  gdt_set_gate 2 0 0xFFFF_FFFF 0x92 0xCF
      (gdt_set_gate 1 0 0xFFFF_FFFF 0x9A 0xCF (gdt_set_gate 0 0 0 0 0 gdt)),
)
