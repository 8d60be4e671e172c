-- ===== src/Kernel/Panic.antt =====
-- What `panic` puts on the screen, and when `kmain` gets there.
use lumen_os.Port.{History, Device, written}
use lumen_os.Serial.{com1}
use lumen_os.Prelude.{
  ==-false, ◌≢◌, ◌≤◌, ℕ, ◌+◌, ◌-◌, ◌/◌, ◌<◌, ◌≡◌, refl, ap, ◌∙◌, true, Option, none, some, List, [],
  ◌∷◌, ◌++◌, arith, u8, u32, ==-true, length, codes,
}
use lumen_os.Stdio.Args.{next_text, text, in_text}
use lumen_os.Stdio.Text.{spaces, format_text, text_from, text_step, is_proper, directive_text}
use lumen_os.Stdio.Printf.{put_chars, printf}
use lumen_os.Stdio.Printf.Laws.{printf_lem}
use lumen_os.Fat.{Places, Fat32Fs, fs_use_memdisk, from_bpb, at_mount, fat32_mount, fat_size32}
use native.Mathlib.Nat.{add_assoc}
use lumen_os.Memory.Words.{load32}
use lumen_os.Fat.Mount.{memdisk_read-refused, at_mount-left}
use lumen_os.Serial.Laws.{GetsReady, is_bytes-IsBytes, on_line, serial_write-Sends}
use lumen_os.Kernel.{
  Screen, com1, Device, start_devices, boot, kmain, Memory, Machine, Layout, panicked, screen_of,
  with_screen, with_memory, panic_format, panic, find_stage1,
}

-- The text of a panic.
abbrev pub panic_text : List ℕ → List ℕ
panic_text e = codes "[STAGE0] " ++ (e ++ codes "\n[STAGE0] KERNEL PANIC!")

panic_format_lem :
    (e : List ℕ) → format_text panic_format (text (some e) ∷ []) ≡ some (panic_text e)
unfolding panic_format text_from text_step directive_text next_text
panic_format_lem e =
    let no_room : 0 - length e ≡ 0 = omega arith in
    ap (λ n. some (codes "[STAGE0] " ++ ((spaces n ++ e) ++ codes "\n[STAGE0] KERNEL PANIC!")))
      no_room

panic_format-is_proper : is_proper in_text panic_format ≡ true
unfolding panic_format
panic_format-is_proper = refl

-- `panic` puts its text on the screen and ends `kmain`.
pub panic_lem :
    (e : List ℕ) (m : Machine)
    → panic e m ≡ some (panicked (with_screen (put_chars (panic_text e) (screen_of m)) m))
unfolding panic
panic_lem e m = rw (panic, printed)
  where
    printed :
        printf panic_format (text (some e) ∷ []) (screen_of m)
        ≡ some (put_chars (panic_text e) (screen_of m))
    printed = rw (
      printf_lem panic_format (text (some e) ∷ []) (screen_of m) panic_format-is_proper,
      panic_format_lem e,
    )

from_bpb-none : (bpb : ℕ) (mem : Memory) → fat_size32 mem bpb ≡ 0 → from_bpb 0 mem bpb ≡ none
unfolding from_bpb
from_bpb-none bpb mem z = rw (from_bpb, ==-true (fat_size32 mem bpb) 0 z)

at_mount-size :
    (at : Places) (mem : Memory)
    → fat_size32 at.bpb_left 0 ≡ 0
    → fat_size32 (at_mount at mem) at.bpb ≡ 0
unfolding load32
at_mount-size at mem zeros =
    let left : (i : ℕ) → i < 90 → at_mount at mem (at.bpb + i) ≡ u8 (at.bpb_left i) =
      at_mount-left at mem in
    let shift : (k : ℕ) → at_mount at mem (at.bpb + 36 + k) ≡ at_mount at mem (at.bpb + (36 + k)) =
      λ k. ap (at_mount at mem) (add_assoc at.bpb 36 k) in
    omega (
      arith,
      zeros,
      left 36 (omega arith),
      shift 1 ∙ left 37 (omega arith),
      shift 2 ∙ left 38 (omega arith),
      shift 3 ∙ left 39 (omega arith),
    )

fat32_mount-none :
    (addr size : ℕ) (at : Places) (mem : Memory)
    → size / 512 < u32 (0 + at.bpb)
    → fat_size32 at.bpb_left 0 ≡ 0
    → fat32_mount (fs_use_memdisk addr size) at 0 mem ≡ (none, at_mount at mem)
unfolding fat32_mount
fat32_mount-none addr size at mem short zeros =
    rw (fat32_mount, memdisk_read-refused addr size 0 1 at.bpb (at_mount at mem) short)
      (ap (λ (r : Option Fat32Fs). (r, at_mount at mem))
        (from_bpb-none at.bpb (at_mount at mem) (at_mount-size at mem zeros)))

-- If the address of the boot record's buffer exceeds the number of sectors of the module, and the
-- stack holds zeros there where the size of the table is, then `kmain` panics with
-- `FAT mount failed`, whatever the module and the memory hold.
pub find_stage1-panics :
    (fuel addr size : ℕ) (at : Layout) (m : Machine)
    → size / 512 < u32 (0 + at.places.bpb)
    → fat_size32 at.places.bpb_left 0 ≡ 0
    → find_stage1 fuel at (fs_use_memdisk addr size) m
      ≡ some (
          panicked (
            with_screen
              (put_chars
                (panic_text (codes "FAT mount failed"))
                (record (screen_of m) { memory = at_mount at.places (screen_of m).memory }))
              m))
unfolding find_stage1
find_stage1-panics fuel addr size at m short zeros =
    let mounted : fat32_mount (fs_use_memdisk addr size) at.places 0 (screen_of m).memory
        ≡ (none, at_mount at.places (screen_of m).memory) =
      fat32_mount-none addr size at.places (screen_of m).memory short zeros in
    rw (find_stage1, mounted)
      (ap (λ (r : Option Fat32Fs × Memory). panic (codes "FAT mount failed") (with_memory r.1 m))
          mounted
        ∙ panic_lem (codes "FAT mount failed")
            (with_memory (at_mount at.places (screen_of m).memory) m))

boot-bad_magic :
    (fuel k : ℕ) (dev : Device) (at : Layout) (multiboot_magic mb_info : ℕ) (m : Machine)
    → GetsReady dev com1 k
    → k ≤ fuel
    → multiboot_magic ≢ 0x2BAD_B002
    → let m1 = start_devices dev at m in
      let s1 : Screen = screen_of m1 in
      (h : History) × (written com1 h
        ≡ written com1 s1.bus ++ on_line (codes "[STAGE0] Stage 0 Initialized\n"))
      × (boot fuel dev at multiboot_magic mb_info m
          ≡ some (
              panicked (
                with_screen
                  (put_chars
                    (panic_text (codes "Multiboot Magic Invalid!"))
                    (record s1 { bus = h }))
                  m1)))
unfolding boot
boot-bad_magic fuel k dev at magic mb_info m ready enough other =
    let s1 : Screen = screen_of (start_devices dev at m) in
    let (h, e, w) =
      serial_write-Sends fuel dev com1 k ready enough (codes "[STAGE0] Stage 0 Initialized\n")
        s1.bus (is_bytes-IsBytes (codes "[STAGE0] Stage 0 Initialized\n") refl) in
    (
      h,
      w,
      rw (boot, e, ==-false magic 0x2BAD_B002 other)
          (panic_lem (codes "Multiboot Magic Invalid!")
            (with_screen (record s1 { bus = h }) (start_devices dev at m))),
    )

pub kmain-panicked :
    (rounds fuel : ℕ) (dev : Device) (at : Layout) (magic mb_info : ℕ) (m m' : Machine)
    → boot fuel dev at magic mb_info m ≡ some (panicked m')
    → kmain rounds fuel dev at magic mb_info m ≡ some (panicked m')
unfolding kmain
kmain-panicked rounds fuel dev at magic mb_info m m' e = rw (kmain, e)

-- With a serial line that gets ready in time, `kmain` with another number than that of a
-- multiboot loader sends its greeting over the line, puts `Multiboot Magic Invalid!` on the fresh
-- screen and ends, before it looks for a module.
pub kmain-bad_magic :
    (rounds fuel k : ℕ) (dev : Device) (at : Layout) (multiboot_magic mb_info : ℕ) (m : Machine)
    → GetsReady dev com1 k
    → k ≤ fuel
    → multiboot_magic ≢ 0x2BAD_B002
    → let m1 = start_devices dev at m in
      let s1 : Screen = screen_of m1 in
      (h : History) × (written com1 h
        ≡ written com1 s1.bus ++ on_line (codes "[STAGE0] Stage 0 Initialized\n"))
      × (kmain rounds fuel dev at multiboot_magic mb_info m
          ≡ some (
              panicked (
                with_screen
                  (put_chars
                    (panic_text (codes "Multiboot Magic Invalid!"))
                    (record s1 { bus = h }))
                  m1)))
kmain-bad_magic rounds fuel k dev at magic mb_info m ready enough other =
    let (h, w, e) = boot-bad_magic fuel k dev at magic mb_info m ready enough other in
    (h, w, kmain-panicked rounds fuel dev at magic mb_info m _ e)
