-- ===== src/Kernel/Typed/Start.antt =====
-- The part of `kmain` before its last loop keeps the types.
use lumen_os.Prelude.{
  ℕ, ◌^◌, ◌<◌, ◌≡◌, refl, Bool, true, false, Option, none, some, [], ◌∷◌, ◌==◌, codes,
}
use lumen_os.Memory.{Memory}
use lumen_os.Port.{History, Device}
use lumen_os.Serial.{com1, serial_write}
use lumen_os.Vga.{
  vga_color, vga_white, vga_black, Screen, vga_init, vga_clear, vga_cursor_setmode, vga_pos,
}
use lumen_os.Vga.Typed as Vga
use lumen_os.Vga.Typed.{vga_pos-IsTyped, vga_clear-IsBytes}
use lumen_os.Gdt.Typed as Gdt
use lumen_os.Idt.Typed as Idt
use lumen_os.Keyboard.Typed as Keyboard
use lumen_os.Multiboot.{Search, found, not_found, out_of_fuel, multiboot_find_module}
use lumen_os.Fat.{Backend, Fat32Fs, Fat32File, fs_use_memdisk, fat32_mount, fat32_open_root}
use lumen_os.Fat.Typed.{ReadsBytes, memdisk-ReadsBytes, fat32_mount-IsBytes}
use lumen_os.Fat.Directory.{fat32_find}
use lumen_os.Fat.Directory.Typed.{FoundBytes, fat32_find-FoundBytes}
use lumen_os.Stdio.Args.{word}
use lumen_os.Stdio.Printf.{printf}
use lumen_os.Stdio.Printf.Typed.{printf-IsTyped}
use lumen_os.Kernel.{
  Machine, Layout, running, screen_of, with_screen, with_memory, panic, start_devices, find_stage1,
  find_image, boot,
}
use lumen_os.Kernel.Typed.{IsTyped, Typed, other_screen, other_memory, panic-Typed}

-- The addresses that the linker chooses have 32 bits.
pub record IsPlaced (at : Layout) : Type 0 where
  pub gdt_in : at.gdt_address < 2 ^ 32
  pub idt_in : at.idt_address < 2 ^ 32

find_stage1-Typed :
    (fuel : ℕ) (at : Layout) (disk : Backend) (m : Machine)
    → ReadsBytes disk
    → IsTyped m
    → Typed (find_stage1 fuel at disk m)
unfolding find_stage1
find_stage1-Typed fuel at disk m r v =
    after_mount (fat32_mount disk at.places 0 (screen_of m).memory).0
  where
    mem : Memory
    mem = (fat32_mount disk at.places 0 (screen_of m).memory).1

    mounted : (x : ℕ) → mem x < 256
    mounted =
        fat32_mount-IsBytes disk at.places 0 (screen_of m).memory r v.keyboard_is.screen_is.bytes

    after_find :
        (q : Option (Option Fat32File × Memory))
        → FoundBytes q
        → Typed (elim q [
          | none ↦ none
          | some (none, mem') ↦ panic (codes "File not found") (with_memory mem' m)
          | some (some file, mem') ↦ some (running (with_memory mem' m))
        ])
    after_find none b = tt
    after_find (some (none, mem')) b =
        panic-Typed (codes "File not found") (with_memory mem' m) (other_memory m mem' b v)
    after_find (some (some file, mem')) b = other_memory m mem' b v

    after_mount :
        (q : Option Fat32Fs)
        → Typed (elim q [
          | none ↦ panic (codes "FAT mount failed") (with_memory mem m)
          | some fs ↦
              elim (fat32_find fuel disk at.places fs (fat32_open_root fs) at.stage1_name mem) [
                | none ↦ none
                | some (none, mem') ↦ panic (codes "File not found") (with_memory mem' m)
                | some (some file, mem') ↦ some (running (with_memory mem' m))
              ]
        ])
    after_mount none =
        panic-Typed (codes "FAT mount failed") (with_memory mem m) (other_memory m mem mounted v)
    after_mount (some fs) =
        after_find (fat32_find fuel disk at.places fs (fat32_open_root fs) at.stage1_name mem) (
          fat32_find-FoundBytes fuel disk at.places fs (fat32_open_root fs) at.stage1_name mem r
            mounted)

find_image-Typed :
    (fuel : ℕ) (at : Layout) (mb_info : ℕ) (m : Machine)
    → IsTyped m
    → Typed (find_image fuel at mb_info m)
unfolding find_image
find_image-Typed fuel at mb_info m v =
    after_search (multiboot_find_module fuel (screen_of m).memory mb_info at.empty_text)
  where
    after_print :
        (addr size : ℕ) (r : Option Screen)
        → printf
            (codes "[STAGE0] Found fs image at %p, size %x bytes\n")
            (word addr ∷ word size ∷ [])
            (screen_of m)
          ≡ r
        → Typed (elim r [
          | none ↦ none
          | some s ↦ find_stage1 fuel at (fs_use_memdisk addr size) (with_screen s m)
        ])
    after_print addr size none e = tt
    after_print addr size (some s) e =
        find_stage1-Typed fuel at (fs_use_memdisk addr size) (with_screen s m)
          (memdisk-ReadsBytes addr size)
          (other_screen m s
            (printf-IsTyped (codes "[STAGE0] Found fs image at %p, size %x bytes\n")
              (word addr ∷ word size ∷ []) (screen_of m) s refl v.keyboard_is.screen_is e)
            v)

    after_search :
        (r : Search)
        → Typed (elim r [
          | found f ↦
              elim (printf
                (codes "[STAGE0] Found fs image at %p, size %x bytes\n")
                (word f.addr ∷ word f.size ∷ [])
                (screen_of m)) [
                  | none ↦ none
                  | some s ↦ find_stage1 fuel at (fs_use_memdisk f.addr f.size) (with_screen s m)
                ]
          | not_found ↦ panic (codes "Fs image not found as a GRUB module") m
          | out_of_fuel ↦ none
        ])
    after_search (found f) = after_print f.addr f.size _ refl
    after_search not_found = panic-Typed (codes "Fs image not found as a GRUB module") m v
    after_search out_of_fuel = tt

start_devices-IsTyped :
    (dev : Device) (at : Layout) (m : Machine)
    → IsPlaced at
    → IsTyped m
    → IsTyped (start_devices dev at m)
unfolding start_devices vga_init
start_devices-IsTyped dev at m placed v =
    let cleared : Screen = vga_clear (vga_color vga_white vga_black) (vga_init (screen_of m)) in
    let s1 : Screen = record cleared { bus = vga_cursor_setmode dev 1 cleared.bus } in
    let s2 : Screen = vga_pos 0 0 s1 in
    let (g, gl, gb) = Gdt.gdt_install-IsTyped at.gdt_address m.gdt placed.gdt_in v.gdt_is in
    let (i, il, ib) = Idt.idt_install-IsTyped at.idt_address m.idt s2.bus placed.idt_in v.idt_is in
    let w : Vga.IsTyped s2 = vga_pos-IsTyped 0 0 s1 (
      vga_clear-IsBytes (vga_color vga_white vga_black) (vga_init (screen_of m))
        v.keyboard_is.screen_is.bytes) in
    record {
      keyboard_is = Keyboard.keyboard_init-IsTyped _ (
          Keyboard.with_screen-IsTyped _ m.keyboard
            (record { bytes = w.bytes; row_in = w.row_in; col_in = w.col_in }) v.keyboard_is);
      gdt_is = g;
      gdt_limit_in = gl;
      gdt_base_in = gb;
      idt_is = Idt.isr_install-IsTyped at.isr _ i;
      idt_limit_in = il;
      idt_base_in = ib;
    }

pub boot-Typed :
    (fuel : ℕ) (dev : Device) (at : Layout) (multiboot_magic mb_info : ℕ) (m : Machine)
    → IsPlaced at
    → IsTyped m
    → Typed (boot fuel dev at multiboot_magic mb_info m)
unfolding boot
boot-Typed fuel dev at magic mb_info m placed v =
    after_greeting (serial_write fuel dev (codes "[STAGE0] Stage 0 Initialized\n") com1 s1.bus)
  where
    m1 : Machine
    m1 = start_devices dev at m

    s1 : Screen
    s1 = screen_of m1

    greeted : History → Machine
    greeted h = with_screen (record s1 { bus = h }) m1

    ready : (h : History) → IsTyped (greeted h)
    ready h =
        let u = start_devices-IsTyped dev at m placed v in
        let w = u.keyboard_is.screen_is in
        other_screen m1 (record s1 { bus = h })
          (record { bytes = w.bytes; row_in = w.row_in; col_in = w.col_in }) u

    after_test :
        (h : History) (b : Bool)
        → Typed (elim b [
          | false ↦ panic (codes "Multiboot Magic Invalid!") (greeted h)
          | true ↦ find_image fuel at mb_info (greeted h)
        ])
    after_test h false = panic-Typed (codes "Multiboot Magic Invalid!") (greeted h) (ready h)
    after_test h true = find_image-Typed fuel at mb_info (greeted h) (ready h)

    after_greeting :
        (r : Option History)
        → Typed (elim r [
          | none ↦ none
          | some h ↦ elim (magic == 0x2BAD_B002) [
            | false ↦ panic (codes "Multiboot Magic Invalid!") (greeted h)
            | true ↦ find_image fuel at mb_info (greeted h)
          ]
        ])
    after_greeting none = tt
    after_greeting (some h) = after_test h (magic == 0x2BAD_B002)
