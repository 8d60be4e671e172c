-- ===== src/Kernel.antt =====
-- `kmain` of src/stage0/stage0.c, the first C code of the kernel: it starts the devices, looks
-- for the image of the file system, and ends in a loop that echoes keys. What an interrupt does
-- between two statements is not part of it: `cli`, `sti` and the loads of the processor's
-- registers have no effect on the state below. A wait, a string search or a search of a directory
-- that runs out of fuel gives `none`.
pub mod Loop
pub mod Ends
pub mod Panic
pub mod Shown
pub mod Silent
pub mod Mount
pub mod Typed
mod Tests
use lumen_os.Prelude.{
  ℕ, zero, suc, ◌+◌, true, false, Option, none, some, List, [], ◌∷◌, ltb, ◌==◌, if◌then◌else◌,
  codes,
}
use lumen_os.Memory.{Memory}
use lumen_os.Port.{Device}
use lumen_os.Serial.{com1, serial_init, serial_write}
use lumen_os.Vga.{
  vga_white, vga_black, vga_color, Screen, vga_init, vga_clear, vga_cursor_setmode, vga_pos,
}
use lumen_os.Gdt.{Gdt, GdtPtr, gdt_install}
use lumen_os.Idt.{Idt, IdtPtr, idt_install, isr_install}
use lumen_os.Keyboard.{Keyboard, keyboard_init, keyboard_handler, keyboard_getc}
use lumen_os.Multiboot.{found, not_found, out_of_fuel, multiboot_find_module}
use lumen_os.Fat.{Backend, Places, fs_use_memdisk, fat32_mount, fat32_open_root}
use lumen_os.Fat.Directory.{fat32_find}
use lumen_os.Stdio.Args.{Arg, word, text}
use lumen_os.Stdio.Printf.{printf}

-- The state of the components. The screen, with the memory and the bus, is a part of the
-- keyboard's.
pub record Machine : Type 0 where
  pub keyboard : Keyboard
  pub gdt : Gdt
  pub gdt_ptr : GdtPtr
  pub idt : Idt
  pub idt_ptr : IdtPtr

-- The addresses that the linker chooses: the tables, the stubs, the buffers of the file system,
-- and the texts `""` and `"STAGE1  BIN"`.
pub record Layout : Type 0 where
  pub gdt_address : ℕ
  pub idt_address : ℕ
  pub isr : ℕ → ℕ
  pub places : Places
  pub empty_text : ℕ
  pub stage1_name : ℕ

-- `kmain` returns after a panic, or is in its last loop.
pub data Boot : Type 0 where
  panicked : Machine → Boot
  running : Machine → Boot

abbrev pub screen_of : Machine → Screen
screen_of m = m.keyboard.screen

abbrev pub with_keyboard : Keyboard → Machine → Machine
with_keyboard k m = record m { keyboard = k }

abbrev pub with_screen : Screen → Machine → Machine
with_screen s m = let k : Keyboard = m.keyboard in record m { keyboard = record k { screen = s } }

abbrev pub with_memory : Memory → Machine → Machine
with_memory mem m = let s : Screen = screen_of m in with_screen (record s { memory = mem }) m

pub panic_format : List ℕ
panic_format = codes "[STAGE0] %s\n[STAGE0] KERNEL PANIC!"

-- `panic(e)`, with the return behind it.
pub panic : List ℕ → Machine → Option Boot
unfolding panic_format
panic e m = elim (printf panic_format (text (some e) ∷ []) (screen_of m)) [
  | none ↦ none
  | some s ↦ some (panicked (with_screen s m))
]

-- From `vga_init` to `serial_init`.
pub start_devices : Device → Layout → Machine → Machine
start_devices dev at m =
    let s1 = vga_clear (vga_color vga_white vga_black) (vga_init (screen_of m)) in
    let s2 : Screen = vga_pos 0 0 (record s1 { bus = vga_cursor_setmode dev 1 s1.bus }) in
    let (gdt_ptr', gdt') = gdt_install at.gdt_address m.gdt in
    let (idt_ptr', idt', h) = idt_install at.idt_address m.idt s2.bus in
    let k : Keyboard = m.keyboard in
    record {
      keyboard = keyboard_init (record k { screen = record s2 { bus = serial_init com1 h } });
      gdt = gdt';
      gdt_ptr = gdt_ptr';
      idt = isr_install at.isr idt';
      idt_ptr = idt_ptr';
    }

-- From `fat32_mount` to the last panic. `fat32_open_root` always returns 0, so its panic is never
-- reached.
pub find_stage1 : ℕ → Layout → Backend → Machine → Option Boot
find_stage1 fuel at disk m =
    let (r, mem) = fat32_mount disk at.places 0 (screen_of m).memory in
    elim r [
      | none ↦ panic (codes "FAT mount failed") (with_memory mem m)
      | some fs ↦ elim (fat32_find fuel disk at.places fs (fat32_open_root fs) at.stage1_name mem) [
        | none ↦ none
        | some (none, mem') ↦ panic (codes "File not found") (with_memory mem' m)
        | some (some file, mem') ↦ some (running (with_memory mem' m))
      ]
    ]

-- From `multiboot_find_module` on.
pub find_image : ℕ → Layout → ℕ → Machine → Option Boot
unfolding find_stage1
find_image fuel at mb_info m =
    elim (multiboot_find_module fuel (screen_of m).memory mb_info at.empty_text) [
      | found f ↦
          elim (printf (codes "[STAGE0] Found fs image at %p, size %x bytes\n")
            (word f.addr ∷ word f.size ∷ []) (screen_of m)) [
              | none ↦ none
              | some s ↦ find_stage1 fuel at (fs_use_memdisk f.addr f.size) (with_screen s m)
            ]
      | not_found ↦ panic (codes "Fs image not found as a GRUB module") m
      | out_of_fuel ↦ none
    ]

-- All of `kmain` before its last loop.
pub boot : ℕ → Device → Layout → ℕ → ℕ → Machine → Option Boot
unfolding start_devices find_image panic
boot fuel dev at multiboot_magic mb_info m =
    let m1 = start_devices dev at m in
    let s1 : Screen = screen_of m1 in
    elim (serial_write fuel dev (codes "[STAGE0] Stage 0 Initialized\n") com1 s1.bus) [
      | none ↦ none
      | some h ↦
          let m2 = with_screen (record s1 { bus = h }) m1 in
          elim (multiboot_magic == 0x2BAD_B002) [
            | false ↦ panic (codes "Multiboot Magic Invalid!") m2
            | true ↦ find_image fuel at mb_info m2
          ]
    ]

-- A `char` passed as an `int`, by its bit pattern.
abbrev pub char_arg : ℕ → Arg
char_arg c = word (if ltb c 0x80 then c else c + 0xFFFF_FF00)

-- `if (c != '\0') printf("%c", c);`
pub echo : ℕ → Keyboard → Option Keyboard
echo c k = elim (c == 0) [
  | true ↦ some k
  | false ↦ elim (printf (codes "%c") (char_arg c ∷ []) k.screen) [
    | none ↦ none
    | some s ↦ some (record k { screen = s })
  ]
]

-- The first rounds of `while (1)`.
pub main_loop : ℕ → ℕ → Device → Keyboard → Option Keyboard
unfolding echo
main_loop zero fuel dev k = some k
main_loop (suc rounds) fuel dev k = elim (keyboard_handler fuel dev k) [
  | none ↦ none
  | some k1 ↦
      let (c, k2) = keyboard_getc k1 in
      elim (echo c k2) [ none ↦ none | some k3 ↦ main_loop rounds fuel dev k3 ]
]

-- `kmain` up to the end of a number of rounds of its last loop.
pub kmain : ℕ → ℕ → Device → Layout → ℕ → ℕ → Machine → Option Boot
unfolding boot main_loop
kmain rounds fuel dev at multiboot_magic mb_info m =
    elim (boot fuel dev at multiboot_magic mb_info m) [
      | none ↦ none
      | some (panicked m') ↦ some (panicked m')
      | some (running m') ↦ elim (main_loop rounds fuel dev m'.keyboard) [
        | none ↦ none
        | some k ↦ some (running (with_keyboard k m'))
      ]
    ]
