-- ===== src/Kernel/Tests.antt =====
-- A machine at power-on.
use lumen_os.Prelude.{
  ◌<◌, ◌==◌, ◌≤◌, if◌then◌else◌, ◌∷◌, ◌+◌, ◌*◌, ◌≡◌, refl, some, [], ◌++◌, arith, codes,
}
use lumen_os.Memory.Words.{load32, load32_cong}
use lumen_os.Multiboot.{
  info_flags, info_mods_addr, info_mods_count, found, mod_string, multiboot_find_module,
}
use lumen_os.Multiboot.Laws.{Module, TextAt, ModulesAt, occurs, multiboot_find_module_lem}
use lumen_os.Port.{History, Device, written}
use lumen_os.Serial.{com1}
use lumen_os.Serial.Laws.{GetsReady, on_line}
use lumen_os.Vga.{Screen}
use lumen_os.Vga.Place.{text_buffer}
use lumen_os.Keyboard.Ring.{IsBlank}
use lumen_os.Stdio.Printf.{put_chars}
use lumen_os.Kernel.{
  true, ℕ, List, Memory, with_memory, Machine, Layout, panicked, screen_of, with_screen,
  start_devices, boot, kmain, main_loop,
}
use lumen_os.Kernel.Panic.{panic_text, kmain-bad_magic}
use lumen_os.Kernel.Mount.{kmain-mount_fails}
use lumen_os.Vga.Cells.Frame.{is_outside}
use lumen_os.Kernel.Shown.{start_devices_frame, Shown, boot-Shown}
use lumen_os.Keyboard.Ends.{Ends}
use lumen_os.Kernel.Ends.{main_loop-Ends}
use lumen_os.Kernel.Silent.{kmain_unechoed, kmain_silent}

abbrev blank_screen : Screen
blank_screen = record { memory = λ a. 0; buffer = text_buffer; row = 0; col = 0; bus = [] }

abbrev power_on : Machine
power_on = record {
  keyboard = record {
    shift = 0;
    km1 = λ c. 0;
    ring = λ i. 0;
    head = 0;
    tail = 0;
    screen = blank_screen;
  };
  gdt = λ n. record {
    limit_low = 0;
    base_low = 0;
    base_middle = 0;
    access = 0;
    granularity = 0;
    base_high = 0;
  };
  gdt_ptr = record { limit = 0; base = 0 };
  idt = λ n. record { base_lo = 0; sel = 0; always0 = 0; flags = 0; base_hi = 0 };
  idt_ptr = record { limit = 0; base = 0 };
}

abbrev layout : Layout
layout = record {
  gdt_address = 0x10_8000;
  idt_address = 0x10_9000;
  isr = λ n. 0x10_0000 + 16 * n;
  places = record {
    bpb = 0x11_0000;
    bpb_left = λ i. 0;
    sector = 0x10_A000;
    find_buf = 0x11_1000;
    read_buf = 0x11_2000;
  };
  empty_text = 0x10_7000;
  stage1_name = 0x10_7010;
}

-- Always ready, and no key.
abbrev ready_line : Device
ready_line h port = 0x20

ready_line-GetsReady : GetsReady ready_line com1 1
ready_line-GetsReady h = record { round = 0; in_time = omega arith; ready = omega arith }

power_on-IsBlank : IsBlank power_on.keyboard
power_on-IsBlank = record {
  indices = record { head_in = omega arith; tail_in = omega arith };
  zeros = λ i. refl;
}

kmain_silent_example :
    kmain 100 10 ready_line layout 0x2BAD_B002 0x9000 power_on
    ≡ kmain_unechoed 100 10 ready_line layout 0x2BAD_B002 0x9000 power_on
kmain_silent_example =
    kmain_silent 100 10 ready_line layout 0x2BAD_B002 0x9000 power_on power_on-IsBlank

kmain-bad_magic_example :
    let m1 = start_devices ready_line layout power_on in
    let s1 : Screen = screen_of m1 in
    (h : History) × (written com1 h
      ≡ written com1 s1.bus ++ on_line (codes "[STAGE0] Stage 0 Initialized\n"))
    × (kmain 5 1 ready_line layout 0 0 power_on
        ≡ some (
            panicked (
              with_screen
                (put_chars (panic_text (codes "Multiboot Magic Invalid!")) (record s1 { bus = h }))
                m1)))
kmain-bad_magic_example =
    kmain-bad_magic 5 1 1 ready_line layout 0 0 power_on ready_line-GetsReady (omega arith)
      (omega arith)

boot-Shown_example : Shown power_on.keyboard (boot 10 ready_line layout 0x2BAD_B002 0x9000 power_on)
boot-Shown_example = boot-Shown 10 ready_line layout 0x2BAD_B002 0x9000 power_on

main_loop-Ends_example : Ends (main_loop 5 80 ready_line power_on.keyboard)
main_loop-Ends_example =
    main_loop-Ends 80 1 ready_line ready_line-GetsReady (omega arith) (omega arith) 5
      power_on.keyboard

-- Boot information at 0x9000 with one module of 32 megabytes, whose string is "fs".
abbrev boot_bytes : List (ℕ × ℕ)
boot_bytes =
    (0x9000, 8)
    ∷ (0x9014, 1)
    ∷ (0x9019, 0xA0)
    ∷ (0xA002, 0x20)
    ∷ (0xA006, 0x20)
    ∷ (0xA007, 0x02)
    ∷ (0xA009, 0xB0)
    ∷ (0xB000, b'f')
    ∷ (0xB001, b's')
    ∷ []

abbrev at_place : List (ℕ × ℕ) → Memory
at_place [] x = 0
at_place ((a, v) ∷ rest) x = if x == a then v else at_place rest x

abbrev loaded : Machine
loaded = with_memory (at_place boot_bytes) power_on

abbrev started : Memory
started = (screen_of (start_devices ready_line layout loaded)).memory

started_word : (a : ℕ) → a + 4 ≤ 0xB8000 → load32 started a ≡ load32 (at_place boot_bytes) a
started_word a low =
    load32_cong (at_place boot_bytes) started a (kept a (omega arith)) (kept (a + 1) (omega arith))
      (kept (a + 2) (omega arith)) (kept (a + 3) (omega arith))
  where
    kept : (x : ℕ) → x < 0xB8000 → started x ≡ at_place boot_bytes x
    kept x lt = start_devices_frame ready_line layout loaded x (ground arith)

abbrev fs_module : Module
fs_module = record { start = 0x20_0000; end = 0x220_0000; text = some (codes "fs") }

flags_is : info_flags started 0x9000 ≡ 8
unfolding load32
flags_is = started_word 0x9000 (omega arith)

list_is : info_mods_addr started 0x9000 ≡ 0xA000
unfolding load32
list_is = started_word 0x9018 (omega arith)

string_is : mod_string started 0xA000 ≡ 0xB000
unfolding load32
string_is = started_word 0xA008 (omega arith)

one_module : info_mods_count started 0x9000 ≡ 1
unfolding load32
one_module = started_word 0x9014 (omega arith)

started_byte : (x : ℕ) → is_outside x ≡ true → started x ≡ at_place boot_bytes x
started_byte x out = start_devices_frame ready_line layout loaded x out

fs_module-TextAt : TextAt started 0xB000 10 (some (codes "fs"))
fs_module-TextAt = (
  omega arith,
  (
    started_byte 0xB000 refl,
    omega arith,
    omega arith,
    (started_byte 0xB001 refl, omega arith, omega arith, started_byte 0xB002 refl),
  ),
  omega arith,
)

fs_module-ModulesAt : ModulesAt 10 started 0xA000 (fs_module ∷ [])
unfolding load32
fs_module-ModulesAt = (
  started_word 0xA000 (omega arith),
  started_word 0xA004 (omega arith),
  rw string_is fs_module-TextAt,
  tt,
)

found_module :
    multiboot_find_module 10 started 0x9000 0x10_7000
    ≡ found (record { addr = 0x20_0000; size = 0x200_0000 })
unfolding occurs
found_module =
    multiboot_find_module_lem 10 started 0x9000 0x10_7000 [] (fs_module ∷ []) (omega arith)
      (rw flags_is (omega arith)) one_module (started_byte 0x10_7000 refl)
      (rw list_is fs_module-ModulesAt)

kmain-mount_fails_example :
    (s : Screen) × (kmain 7 10 ready_line layout 0x2BAD_B002 0x9000 loaded
      ≡ some (
          panicked (
            with_screen
              (put_chars (panic_text (codes "FAT mount failed")) s)
              (start_devices ready_line layout loaded))))
unfolding load32
kmain-mount_fails_example =
    kmain-mount_fails 7 10 1 ready_line layout 0x9000 loaded
      (record { addr = 0x20_0000; size = 0x200_0000 }) ready_line-GetsReady (omega arith)
      found_module (omega arith) (omega arith) (omega arith) refl
