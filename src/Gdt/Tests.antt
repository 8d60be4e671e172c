-- ===== src/Gdt/Tests.antt =====
-- One segment and the installed table.
use lumen_os.Prelude.{ℕ, ◌+◌, ◌/◌, ◌≡◌, ◌≢◌, some, arith}
use lumen_os.Gdt.{Gdt, gdt_set_gate, gdt_install}
use lumen_os.Gdt.Laws.{
  base_of, limit_of, flags_of, translate, null_descriptor, gdt_set_gate_lem, gdt_install_lem,
}

abbrev no_segments : Gdt
no_segments n = record {
  limit_low = 0;
  base_low = 0;
  base_middle = 0;
  access = 0;
  granularity = 0;
  base_high = 0;
}

gdt_set_gate_example :
    let t = gdt_set_gate 1 0x1234_5678 0xF_FFFF 0x9A 0xCF no_segments in
    (base_of (t 1) ≡ 0x1234_5678)
    × (limit_of (t 1) ≡ 0xF_FFFF)
    × ((t 1).access ≡ 0x9A)
    × ((t 1).granularity / 16 ≡ 0xC)
    × ((n : ℕ) → n ≢ 1 → t n ≡ no_segments n)
gdt_set_gate_example =
    gdt_set_gate_lem 1 0x1234_5678 0xF_FFFF 0x9A 0xCF no_segments (omega arith) (omega arith)

gdt_install_example :
    let (p, t) = gdt_install 0x5000 no_segments in
    (t 0 ≡ null_descriptor)
    × (translate (t 1) 0x10_0000 ≡ some 0x10_0000)
    × ((t 1).access ≡ 0x9A)
    × (flags_of (t 1) ≡ 0xC)
    × (translate (t 2) 0x10_0000 ≡ some 0x10_0000)
    × ((t 2).access ≡ 0x92)
    × (flags_of (t 2) ≡ 0xC)
    × (t 5 ≡ no_segments 5)
    × (p.base ≡ 0x5000)
    × (p.limit + 1 ≡ 24)
gdt_install_example = gdt_install_lem 0x5000 0x10_0000 5 no_segments (omega arith) (omega arith)
