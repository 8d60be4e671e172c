-- ===== src/Kernel/Shown.antt =====
-- Where the cursor is when `kmain` stops.
use lumen_os.Prelude.{
  ℕ, ◌≡◌, refl, Bool, true, false, Option, none, some, List, [], ◌∷◌, arith, ◌==◌, codes,
}
use lumen_os.Memory.{Memory}
use lumen_os.Port.{History, Device}
use lumen_os.Serial.{com1, serial_write}
use lumen_os.Vga.{vga_color, vga_white, vga_black, Screen, vga_init, vga_clear, vga_pos}
use lumen_os.Vga.Cells.Frame.{is_outside, vga_clear_frame}
use lumen_os.Vga.Place.{IsOnScreen, ShowsCursor}
use lumen_os.Buffer.{tbuffer_init}
use lumen_os.Keyboard.Ring.{SameRing}
use lumen_os.Keyboard.{Keyboard, keyboard_init}
use lumen_os.Multiboot.{Search, found, not_found, out_of_fuel, multiboot_find_module}
use lumen_os.Fat.{Backend, Fat32Fs, Fat32File, fs_use_memdisk, fat32_mount, fat32_open_root}
use lumen_os.Fat.Directory.{fat32_find}
use lumen_os.Stdio.Args.{word}
use lumen_os.Stdio.Printf.{printf}
use lumen_os.Stdio.Printf.Place.{put_chars-IsOnScreen, put_chars-ShowsCursor, printf-IsOnScreen}
use lumen_os.Kernel.{
  Machine, Layout, Boot, panicked, running, screen_of, with_screen, with_memory, panic,
  start_devices, find_stage1, find_image, boot,
}
use lumen_os.Kernel.Panic.{panic_text, panic_lem}

-- The cursor is on the screen, and the buffer of the keyboard is as in `k0`.
abbrev pub IsReady : Keyboard → Machine → Type 0
IsReady k0 m = IsOnScreen (screen_of m) × SameRing k0 m.keyboard

-- After a panic the hardware shows the cursor, on the screen; the last loop starts from a ready
-- state.
abbrev pub Shown : Keyboard → Option Boot → Type 0
Shown k0 none = Unit {0}
Shown k0 (some (panicked m)) = IsOnScreen (screen_of m) × ShowsCursor (screen_of m)
Shown k0 (some (running m)) = IsReady k0 m

module _ (k0 : Keyboard) where
  panic-Shown : (e : List ℕ) (m : Machine) → IsReady k0 m → Shown k0 (panic e m)
  panic-Shown e m v = rw (panic_lem e m) (
    put_chars-IsOnScreen (panic_text e) (screen_of m) v.0,
    put_chars-ShowsCursor b'[' _ (screen_of m) v.0,
  )

  other_screen :
      (m : Machine) (s : Screen) → IsOnScreen s → IsReady k0 m → IsReady k0 (with_screen s m)
  other_screen m s w (v, r) =
      (w, record { head_is = r.head_is; tail_is = r.tail_is; ring_is = r.ring_is })

  other_memory : (m : Machine) (mem : Memory) → IsReady k0 m → IsReady k0 (with_memory mem m)
  other_memory m mem (v, r) = (
    record { row_in = v.row_in; col_in = v.col_in; buffer_is = v.buffer_is },
    record { head_is = r.head_is; tail_is = r.tail_is; ring_is = r.ring_is },
  )

  find_stage1-Shown :
      (fuel : ℕ) (at : Layout) (disk : Backend) (m : Machine)
      → IsReady k0 m
      → Shown k0 (find_stage1 fuel at disk m)
  unfolding find_stage1
  find_stage1-Shown fuel at disk m v =
      after_mount (fat32_mount disk at.places 0 (screen_of m).memory).0
        (fat32_mount disk at.places 0 (screen_of m).memory).1
    where
      after_find :
          (r : Option (Option Fat32File × Memory))
          → Shown k0 (elim r [
            | none ↦ none
            | some (none, mem') ↦ panic (codes "File not found") (with_memory mem' m)
            | some (some file, mem') ↦ some (running (with_memory mem' m))
          ])
      after_find none = tt
      after_find (some (none, mem')) =
          panic-Shown (codes "File not found") (with_memory mem' m) (other_memory m mem' v)
      after_find (some (some file, mem')) = other_memory m mem' v

      after_mount :
          (r : Option Fat32Fs) (mem : Memory)
          → Shown k0 (elim r [
            | none ↦ panic (codes "FAT mount failed") (with_memory mem m)
            | some fs ↦
                elim (fat32_find fuel disk at.places fs (fat32_open_root fs) at.stage1_name mem) [
                  | none ↦ none
                  | some (none, mem') ↦ panic (codes "File not found") (with_memory mem' m)
                  | some (some file, mem') ↦ some (running (with_memory mem' m))
                ]
          ])
      after_mount none mem =
          panic-Shown (codes "FAT mount failed") (with_memory mem m) (other_memory m mem v)
      after_mount (some fs) mem =
          after_find (fat32_find fuel disk at.places fs (fat32_open_root fs) at.stage1_name mem)

  find_image-Shown :
      (fuel : ℕ) (at : Layout) (mb_info : ℕ) (m : Machine)
      → IsReady k0 m
      → Shown k0 (find_image fuel at mb_info m)
  unfolding find_image
  find_image-Shown fuel at mb_info m v =
      after_search (multiboot_find_module fuel (screen_of m).memory mb_info at.empty_text)
    where
      after_print :
          (addr size : ℕ) (r : Option Screen)
          → printf
              (codes "[STAGE0] Found fs image at %p, size %x bytes\n")
              (word addr ∷ word size ∷ [])
              (screen_of m)
            ≡ r
          → Shown k0 (elim r [
            | none ↦ none
            | some s ↦ find_stage1 fuel at (fs_use_memdisk addr size) (with_screen s m)
          ])
      after_print addr size none e = tt
      after_print addr size (some s) e =
          find_stage1-Shown fuel at (fs_use_memdisk addr size) (with_screen s m) (
            other_screen m s
              (printf-IsOnScreen (codes "[STAGE0] Found fs image at %p, size %x bytes\n")
                (word addr ∷ word size ∷ []) (screen_of m) s refl v.0 e)
              v)

      after_search :
          (r : Search)
          → Shown k0 (elim r [
            | found f ↦
                elim (printf
                  (codes "[STAGE0] Found fs image at %p, size %x bytes\n")
                  (word f.addr ∷ word f.size ∷ [])
                  (screen_of m)) [
                    | none ↦ none
                    | some s ↦ find_stage1 fuel at (fs_use_memdisk f.addr f.size) (with_screen s m)
                  ]
            | not_found ↦ panic (codes "Fs image not found as a GRUB module") m
            | out_of_fuel ↦ none
          ])
      after_search (found f) = after_print f.addr f.size _ refl
      after_search not_found = panic-Shown (codes "Fs image not found as a GRUB module") m v
      after_search out_of_fuel = tt

pub start_devices-IsReady :
    (dev : Device) (at : Layout) (m : Machine) → IsReady m.keyboard (start_devices dev at m)
unfolding start_devices vga_init vga_clear vga_pos keyboard_init tbuffer_init
start_devices-IsReady dev at m = (
  record { row_in = omega arith; col_in = omega arith; buffer_is = refl },
  record { head_is = refl; tail_is = refl; ring_is = refl },
)

-- The devices are started without a change outside the screen.
pub start_devices_frame :
    (dev : Device) (at : Layout) (m : Machine) (x : ℕ)
    → is_outside x ≡ true
    → (screen_of (start_devices dev at m)).memory x ≡ (screen_of m).memory x
unfolding start_devices vga_init vga_pos keyboard_init tbuffer_init
start_devices_frame dev at m x out =
    vga_clear_frame (vga_color vga_white vga_black) (vga_init (screen_of m)) x refl out

-- Whatever the devices answer, the boot information says and the memory holds: if `kmain` panics
-- before its last loop, the cursor is on the screen and the hardware shows it there, and if it
-- reaches the loop, the cursor is on the screen and the keyboard's buffer is as it was.
pub boot-Shown :
    (fuel : ℕ) (dev : Device) (at : Layout) (multiboot_magic mb_info : ℕ) (m : Machine)
    → Shown m.keyboard (boot fuel dev at multiboot_magic mb_info m)
unfolding boot
boot-Shown fuel dev at magic mb_info m =
    after_greeting (serial_write fuel dev (codes "[STAGE0] Stage 0 Initialized\n") com1 s1.bus)
  where
    k0 : Keyboard
    k0 = m.keyboard

    m1 : Machine
    m1 = start_devices dev at m

    s1 : Screen
    s1 = screen_of m1

    greeted : History → Machine
    greeted h = with_screen (record s1 { bus = h }) m1

    ready : (h : History) → IsReady k0 (greeted h)
    ready h =
        let (v, r) = start_devices-IsReady dev at m in
        other_screen k0 m1 (record s1 { bus = h })
          (record { row_in = v.row_in; col_in = v.col_in; buffer_is = v.buffer_is }) (v, r)

    after_test :
        (h : History) (b : Bool)
        → Shown k0 (elim b [
          | false ↦ panic (codes "Multiboot Magic Invalid!") (greeted h)
          | true ↦ find_image fuel at mb_info (greeted h)
        ])
    after_test h false = panic-Shown k0 (codes "Multiboot Magic Invalid!") (greeted h) (ready h)
    after_test h true = find_image-Shown k0 fuel at mb_info (greeted h) (ready h)

    after_greeting :
        (r : Option History)
        → Shown k0 (elim r [
          | none ↦ none
          | some h ↦ elim (magic == 0x2BAD_B002) [
            | false ↦ panic (codes "Multiboot Magic Invalid!") (greeted h)
            | true ↦ find_image fuel at mb_info (greeted h)
          ]
        ])
    after_greeting none = tt
    after_greeting (some h) = after_test h (magic == 0x2BAD_B002)
