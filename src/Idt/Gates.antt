-- ===== src/Idt/Gates.antt =====
-- The processor's reading of a gate, and the gates after the set-up.
use Prim.Native.Nat.{bit_and}
use lumen_os.Prelude.{
  ℕ, zero, suc, ◌+◌, ◌*◌, ◌/◌, ◌^◌, ◌≤◌, ◌<◌, ◌≡◌, refl, Bool, true, false, ◌&&◌, ◌||◌, arith, ltb,
  leb, ◌==◌, if◌then◌else◌, u16,
}
use lumen_os.Prelude.Bits.{bit_and_mask}
use lumen_os.Port.{History}
use lumen_os.Idt.{IdtEntry, Idt, idt_set_gate, clear_gates, idt_install, install_from, isr_install}

abbrev pub offset_of : IdtEntry → ℕ
offset_of e = e.base_lo + 2 ^ 16 * e.base_hi

-- The present bit, the highest of the flags.
abbrev pub present : IdtEntry → Bool
present e = leb 0x80 e.flags

-- A gate that leads to `base` in the kernel's code segment: present, privilege 0, a 32-bit
-- interrupt gate.
pub record LeadsTo (base : ℕ) (e : IdtEntry) : Type 0 where
  pub offset : offset_of e ≡ base
  pub selector : e.sel ≡ 0x08
  pub zero_byte : e.always0 ≡ 0
  pub type_flags : e.flags ≡ 0x8E

abbrev gate : ℕ → ℕ → ℕ → IdtEntry
gate base sel flags = record {
  base_lo = u16 (bit_and base 0xFFFF);
  sel = sel;
  always0 = 0;
  flags = flags;
  base_hi = u16 (bit_and (base / 2 ^ 16) 0xFFFF);
}

gate-LeadsTo : (base : ℕ) → base < 2 ^ 32 → LeadsTo base (gate base 0x08 0x8E)
gate-LeadsTo base h = record {
  offset = rw (bit_and_mask 16 base, bit_and_mask 16 (base / 2 ^ 16)) (omega arith);
  selector = refl;
  zero_byte = refl;
  type_flags = refl;
}

install_from_at :
    (left i : ℕ) (isr : ℕ → ℕ) (idt : Idt) (n : ℕ)
    → i + left ≤ 256
    → install_from left i isr idt n
      ≡ (if leb i n && ltb n (i + left) then gate (isr n) 0x08 0x8E else idt n)
unfolding install_from idt_set_gate
install_from_at zero i isr idt n h = ground arith
install_from_at (suc left) i isr idt n h =
    ground (arith, install_from_at left (i + 1) isr (idt_set_gate i (isr i) 0x08 0x8E idt) n)

clear_gates_at :
    (left i : ℕ) (idt : Idt) (n : ℕ)
    → i + left ≤ 256
    → clear_gates left i idt n ≡ (if leb i n && ltb n (i + left) then gate 0 0 0 else idt n)
unfolding clear_gates idt_set_gate
clear_gates_at zero i idt n h = ground arith
clear_gates_at (suc left) i idt n h =
    ground (arith, clear_gates_at left (i + 1) (idt_set_gate i 0 0 0 idt) n)

abbrev pub handled : ℕ → Bool
handled n = ltb n 48 || n == 128

-- The table after `idt_install` and then `isr_install`.
abbrev pub after_install : ℕ → (ℕ → ℕ) → Idt → History → Idt
after_install address isr idt h = isr_install isr (idt_install address idt h).1

after_install_at :
    (address : ℕ) (isr : ℕ → ℕ) (idt : Idt) (h : History) (n : ℕ)
    → n < 256
    → after_install address isr idt h n ≡ (if handled n then gate (isr n) 0x08 0x8E else gate 0 0 0)
unfolding isr_install idt_install idt_set_gate
after_install_at address isr idt h n lt =
    ground (arith, install_from_at 48 0 isr (clear_gates 256 0 idt) n, clear_gates_at 256 0 idt n)

-- After `idt_install` and `isr_install`, whatever the table held, the gates of the vectors 0 to
-- 47 and 128 lead to their stubs, and no other vector below 256 is present.
pub isr_install_lem :
    (address : ℕ) (isr : ℕ → ℕ) (idt : Idt) (h : History) (n : ℕ)
    → n < 256
    → isr n < 2 ^ 32
    → (handled n ≡ true → LeadsTo (isr n) (after_install address isr idt h n))
      × (handled n ≡ false → present (after_install address isr idt h n) ≡ false)
isr_install_lem address isr idt h n lt small = (
  λ yes_handled.
      rw (after_install_at address isr idt h n lt, yes_handled) (gate-LeadsTo (isr n) small),
  λ not_handled. rw (after_install_at address isr idt h n lt, not_handled),
)
