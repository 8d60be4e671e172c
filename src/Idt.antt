-- ===== src/Idt.antt =====
-- src/stage0/idt/idt.c: the interrupt gates, the dispatcher, and the set-up of the two interrupt
-- controllers. The table is a function of the index; the stubs `isr0` to `isr128` and `idt_load`
-- are assembly, so the address of each stub is a parameter.
pub mod Gates
pub mod Typed
pub mod Dispatch
pub mod Ends
mod Tests
use Prim.Native.Nat.{bit_and}
use lumen_os.Prelude.{
  ℕ, zero, suc, ◌+◌, ◌-◌, ◌*◌, ◌/◌, ◌%◌, ◌^◌, ◌≤◌, ◌<◌, ◌≡◌, refl, sym, ap, ◌∙◌, fun_ext, ◌≢◌, ◌↔◌,
  ◌⊎◌, inl, inr, Bool, true, false, ◌&&◌, ◌||◌, not, Option, none, some, List, [], ◌∷◌, ◌++◌,
  append-nil, append_assoc, arith, ltb, leb, ◌==◌, if◌then◌else◌, u8, u16, u32, ==-true, ==-false,
  ltb-true, ltb-false, ==_iff, Bool-cases, Option-cases, u8-byte, length, get_elem?, length-append,
  codes,
}
use native.Mathlib.Nat.{le_trans, add-zero, mod-eq_of_lt, add_assoc, add_comm, mod-lt}
use lumen_os.Port.{History, Device, outb}
use lumen_os.Keyboard.{Keyboard, keyboard_handler, with_bus}

-- `struct idt_entry`
pub record IdtEntry : Type 0 where
  pub base_lo : ℕ
  pub sel : ℕ
  pub always0 : ℕ
  pub flags : ℕ
  pub base_hi : ℕ

-- `struct idt_ptr`
pub record IdtPtr : Type 0 where
  pub limit : ℕ
  pub base : ℕ

abbrev pub Idt : Type 0
Idt = ℕ → IdtEntry

abbrev pub idt_entries : ℕ
idt_entries = 256

pub idt_set_gate : ℕ → ℕ → ℕ → ℕ → Idt → Idt
idt_set_gate num base sel flags idt n =
    if n == u8 num
    then record {
      base_lo = u16 (bit_and base 0xFFFF);
      sel = sel;
      always0 = 0;
      flags = flags;
      base_hi = u16 (bit_and (base / 2 ^ 16) 0xFFFF);
    }
    else idt n

-- The loop of `idt_install` from `i` on, with `left` rounds left.
pub clear_gates : ℕ → ℕ → Idt → Idt
unfolding idt_set_gate
clear_gates zero i idt = idt
clear_gates (suc left) i idt = clear_gates left (i + 1) (idt_set_gate i 0 0 0 idt)

abbrev pub pic1_command : ℕ
pic1_command = 0x20

abbrev pub pic1_data : ℕ
pic1_data = 0x21

abbrev pub pic2_command : ℕ
pic2_command = 0xA0

abbrev pub pic2_data : ℕ
pic2_data = 0xA1

pub isr_pic_remap : History → History
unfolding outb
isr_pic_remap h =
    let h1 = outb pic1_command 0x11 h in
    let h2 = outb pic2_command 0x11 h1 in
    let h3 = outb pic1_data 0x20 h2 in
    let h4 = outb pic2_data 0x28 h3 in
    let h5 = outb pic1_data 0x04 h4 in
    let h6 = outb pic2_data 0x02 h5 in
    let h7 = outb pic1_data 0x01 h6 in
    let h8 = outb pic2_data 0x01 h7 in
    let h9 = outb pic1_data 0xFF h8 in
    let h10 = outb pic2_data 0xFF h9 in outb pic1_data 0b1111_1101 h10

-- `address` is that of the table.
pub idt_install : ℕ → Idt → History → IdtPtr × Idt × History
idt_install address idt h = (
  record { limit = 8 * idt_entries - 1; base = address },
  clear_gates idt_entries 0 idt,
  isr_pic_remap h,
)

-- The calls of `isr_install` for the vectors from `i` on, in order.
pub install_from : ℕ → ℕ → (ℕ → ℕ) → Idt → Idt
unfolding idt_set_gate
install_from zero i isr idt = idt
install_from (suc left) i isr idt =
    install_from left (i + 1) isr (idt_set_gate i (isr i) 0x08 0x8E idt)

-- Vectors 0 to 47, then 128.
pub isr_install : (ℕ → ℕ) → Idt → Idt
isr_install isr idt = idt_set_gate 128 (isr 128) 0x08 0x8E (install_from 48 0 isr idt)

-- `int_no` is the field of the saved registers, the only one that is read.
pub isr_handler : ℕ → Device → ℕ → Keyboard → Option Keyboard
isr_handler fuel dev int_no k =
    if int_no == 128
    then some k
    else if leb 32 int_no && leb int_no 47
    then (elim (if int_no == 33 then keyboard_handler fuel dev k else some k) [
      | none ↦ none
      | some k1 ↦
          let h = k1.screen.bus in
          let h' = if leb 40 int_no then outb 0xA0 0x20 h else h in
          some (with_bus (outb 0x20 0x20 h') k1)
    ])
    else some k
