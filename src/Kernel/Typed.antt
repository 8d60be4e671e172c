-- ===== src/Kernel/Typed.antt =====
-- Every variable of the kernel fits its C type, and memory holds bytes: what `kmain` of
-- src/stage0/stage0.c keeps.
pub mod Start
pub mod Loop
use lumen_os.Prelude.{ℕ, ◌^◌, ◌<◌, Option, none, some, List}
use lumen_os.Memory.{Memory}
use lumen_os.Memory.Bytes.{IsBytes}
use lumen_os.Vga.{Screen}
use lumen_os.Vga.Typed as Vga
use lumen_os.Vga.Typed.{vga_pos-IsTyped, vga_clear-IsBytes}
use lumen_os.Gdt.Typed as Gdt
use lumen_os.Idt.Typed as Idt
use lumen_os.Keyboard.{Keyboard}
use lumen_os.Keyboard.Typed as Keyboard
use lumen_os.Stdio.Printf.Typed.{put_chars-IsTyped}
use lumen_os.Kernel.{
  Machine, Boot, panicked, running, screen_of, with_screen, with_memory, with_keyboard, panic,
}
use lumen_os.Kernel.Panic.{panic_text, panic_lem}

pub record IsTyped (m : Machine) : Type 0 where
  pub keyboard_is : Keyboard.IsTyped m.keyboard
  pub gdt_is : Gdt.IsTyped m.gdt
  pub gdt_limit_in : m.gdt_ptr.limit < 2 ^ 16
  pub gdt_base_in : m.gdt_ptr.base < 2 ^ 32
  pub idt_is : Idt.IsTyped m.idt
  pub idt_limit_in : m.idt_ptr.limit < 2 ^ 16
  pub idt_base_in : m.idt_ptr.base < 2 ^ 32

-- The machine at the end, if there is one.
abbrev pub Typed : Option Boot → Type 0
Typed none = Unit {0}
Typed (some (panicked m)) = IsTyped m
Typed (some (running m)) = IsTyped m

pub other_keyboard :
    (m : Machine) (k : Keyboard) → Keyboard.IsTyped k → IsTyped m → IsTyped (with_keyboard k m)
other_keyboard m k w v = record {
  keyboard_is = w;
  gdt_is = v.gdt_is;
  gdt_limit_in = v.gdt_limit_in;
  gdt_base_in = v.gdt_base_in;
  idt_is = v.idt_is;
  idt_limit_in = v.idt_limit_in;
  idt_base_in = v.idt_base_in;
}

pub other_screen :
    (m : Machine) (s : Screen) → Vga.IsTyped s → IsTyped m → IsTyped (with_screen s m)
other_screen m s w v =
    other_keyboard m (record m.keyboard { screen = s })
      (Keyboard.with_screen-IsTyped s m.keyboard w v.keyboard_is) v

pub other_memory :
    (m : Machine) (mem : Memory) → IsBytes mem → IsTyped m → IsTyped (with_memory mem m)
other_memory m mem b v =
    let w = v.keyboard_is.screen_is in
    other_screen m (record (screen_of m) { memory = mem })
      (record { bytes = b; row_in = w.row_in; col_in = w.col_in }) v

pub panic-Typed : (e : List ℕ) (m : Machine) → IsTyped m → Typed (panic e m)
panic-Typed e m v =
    rw (panic_lem e m)
      (other_screen m _ (put_chars-IsTyped (panic_text e) (screen_of m) v.keyboard_is.screen_is) v)
