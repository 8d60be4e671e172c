-- ===== src/Idt/Typed.antt =====
-- The gates and the pointer record fit their fields.
use lumen_os.Prelude.{
  ℕ, zero, suc, ◌+◌, ◌^◌, ◌<◌, Bool, true, false, arith, ◌==◌, if◌then◌else◌, u8,
}
use lumen_os.Port.{History}
use lumen_os.Idt.{IdtEntry, Idt, idt_set_gate, clear_gates, idt_install, install_from, isr_install}

pub record IsEntry (e : IdtEntry) : Type 0 where
  pub base_lo_in : e.base_lo < 2 ^ 16
  pub sel_in : e.sel < 2 ^ 16
  pub always0_in : e.always0 < 256
  pub flags_in : e.flags < 256
  pub base_hi_in : e.base_hi < 2 ^ 16

abbrev pub IsTyped : Idt → Type 0
IsTyped idt = (n : ℕ) → IsEntry (idt n)

if-IsEntry : (b : Bool) (x y : IdtEntry) → IsEntry x → IsEntry y → IsEntry (if b then x else y)
if-IsEntry true x y p q = p
if-IsEntry false x y p q = q

set_gate-IsTyped :
    (num base sel flags : ℕ) (idt : Idt)
    → sel < 2 ^ 16
    → flags < 256
    → IsTyped idt
    → IsTyped (idt_set_gate num base sel flags idt)
unfolding idt_set_gate
set_gate-IsTyped num base sel flags idt s f v n =
    if-IsEntry (n == u8 num) _ (idt n)
      (record {
        base_lo_in = omega arith;
        sel_in = s;
        always0_in = omega arith;
        flags_in = f;
        base_hi_in = omega arith;
      })
      (v n)

clear_gates-IsTyped : (left i : ℕ) (idt : Idt) → IsTyped idt → IsTyped (clear_gates left i idt)
unfolding clear_gates
clear_gates-IsTyped zero i idt v = v
clear_gates-IsTyped (suc left) i idt v =
    clear_gates-IsTyped left (i + 1) (idt_set_gate i 0 0 0 idt)
      (set_gate-IsTyped i 0 0 0 idt (omega arith) (omega arith) v)

pub idt_install-IsTyped :
    (address : ℕ) (idt : Idt) (h : History)
    → address < 2 ^ 32
    → IsTyped idt
    → let (p, idt', _) = idt_install address idt h in
      IsTyped idt' × (p.limit < 2 ^ 16) × (p.base < 2 ^ 32)
unfolding idt_install
idt_install-IsTyped address idt h small v =
    (clear_gates-IsTyped _ 0 idt v, omega arith, omega arith)

install_from-IsTyped :
    (left i : ℕ) (isr : ℕ → ℕ) (idt : Idt) → IsTyped idt → IsTyped (install_from left i isr idt)
unfolding install_from
install_from-IsTyped zero i isr idt v = v
install_from-IsTyped (suc left) i isr idt v =
    install_from-IsTyped left (i + 1) isr (idt_set_gate i (isr i) 0x08 0x8E idt)
      (set_gate-IsTyped i (isr i) 0x08 0x8E idt (omega arith) (omega arith) v)

pub isr_install-IsTyped : (isr : ℕ → ℕ) (idt : Idt) → IsTyped idt → IsTyped (isr_install isr idt)
unfolding isr_install
isr_install-IsTyped isr idt v =
    set_gate-IsTyped 128 (isr 128) 0x08 0x8E _ (omega arith) (omega arith)
      (install_from-IsTyped 48 0 isr idt v)
