-- ===== src/Kernel/Mount.antt =====
-- `kmain` on a boot with a module.
use lumen_os.Prelude.{
  ℕ, ◌+◌, ◌/◌, ◌^◌, ◌≤◌, ◌<◌, ◌≡◌, refl, ap, ◌∙◌, inl, inr, some, List, [], ◌∷◌, ◌++◌, arith, u32,
  codes,
}
use mathlib.Core.Option.{map}
use lumen_os.Port.{Device}
use lumen_os.Serial.{com1}
use lumen_os.Serial.Laws.{GetsReady, is_bytes-IsBytes, serial_write-Sends}
use lumen_os.Vga.{Screen}
use lumen_os.Multiboot.{Found, found, multiboot_find_module}
use lumen_os.Fat.{fat_size32, at_mount}
use lumen_os.Stdio.Itoa.{itoa}
use lumen_os.Stdio.Itoa.Laws.{itoa_lem}
use lumen_os.Stdio.Args.{word}
use lumen_os.Stdio.Text.{hex_text, format_text}
use lumen_os.Stdio.Text.Laws.{ended, text_from-append, hex_directive}
use lumen_os.Stdio.Printf.{printf, put_chars}
use lumen_os.Stdio.Printf.Laws.{printf_lem}
use lumen_os.Kernel.{
  Machine, Layout, panicked, screen_of, with_screen, start_devices, find_image, boot, kmain,
}
use lumen_os.Kernel.Panic.{panic_text, find_stage1-panics, kmain-panicked}

found_text : List ℕ → List ℕ → List ℕ
found_text a b =
    codes "[STAGE0] Found fs image at "
    ++ (hex_text a ++ (codes ", size " ++ (hex_text b ++ codes " bytes\n")))

found_format_lem :
    (addr size : ℕ) (a b : List ℕ)
    → itoa addr 16 ≡ some a
    → itoa size 16 ≡ some b
    → format_text
        (codes "[STAGE0] Found fs image at %p, size %x bytes\n")
        (word addr ∷ word size ∷ [])
      ≡ some (found_text a b)
unfolding found_text
found_format_lem addr size a b ea eb =
    text_from-append (codes "[STAGE0] Found fs image at ") _ _ _ refl (
      hex_directive b'p' addr a _ _ _ (inr refl) ea (
        text_from-append (codes ", size ") _ _ _ refl (
          hex_directive b'x' size b _ _ _ (inl refl) eb
            (text_from-append (codes " bytes\n") [] [] [] refl ended))))

-- The report of a module is a text.
found_printed :
    (addr size : ℕ) (s : Screen)
    → addr < 2 ^ 32
    → size < 2 ^ 32
    → (t : List ℕ) × (printf
          (codes "[STAGE0] Found fs image at %p, size %x bytes\n")
          (word addr ∷ word size ∷ [])
          s
        ≡ some (put_chars t s))
found_printed addr size s la ls =
    let (a, ea, _) = itoa_lem addr 16 la (omega arith) (omega arith) in
    let (b, eb, _) = itoa_lem size 16 ls (omega arith) (omega arith) in
    (
      found_text a b,
      printf_lem (codes "[STAGE0] Found fs image at %p, size %x bytes\n")
            (word addr ∷ word size ∷ []) s refl
          ∙ ap (map (λ t. put_chars t s)) (found_format_lem addr size a b ea eb),
    )

find_image-panics :
    (fuel : ℕ) (at : Layout) (mb_info : ℕ) (m : Machine) (f : Found)
    → multiboot_find_module fuel (screen_of m).memory mb_info at.empty_text ≡ found f
    → f.addr < 2 ^ 32
    → f.size < 2 ^ 32
    → f.size / 512 < u32 (0 + at.places.bpb)
    → fat_size32 at.places.bpb_left 0 ≡ 0
    → (s : Screen) × (find_image fuel at mb_info m
        ≡ some (panicked (with_screen (put_chars (panic_text (codes "FAT mount failed")) s) m)))
unfolding find_image
find_image-panics fuel at mb_info m f e la ls short zeros =
    let (t, printed) = found_printed f.addr f.size (screen_of m) la ls in
    let s : Screen = put_chars t (screen_of m) in
    (
      record s { memory = at_mount at.places s.memory },
      rw (find_image, e, printed)
          (find_stage1-panics fuel f.addr f.size at (with_screen s m) short zeros),
    )

-- If the serial line gets ready in time, the loader's number is right, the search finds a module,
-- with an address and a size below 2^32, whose number of sectors is below the address of the boot
-- record's buffer modulo 2^32, and the calls before leave zeros in the part of the stack that
-- becomes this buffer, where the size of the table is, then `kmain` panics with
-- `FAT mount failed`, whatever the module holds.
pub kmain-mount_fails :
    (rounds fuel k : ℕ) (dev : Device) (at : Layout) (mb_info : ℕ) (m : Machine) (f : Found)
    → GetsReady dev com1 k
    → k ≤ fuel
    → multiboot_find_module fuel (screen_of (start_devices dev at m)).memory mb_info at.empty_text
      ≡ found f
    → f.addr < 2 ^ 32
    → f.size < 2 ^ 32
    → f.size / 512 < u32 (0 + at.places.bpb)
    → fat_size32 at.places.bpb_left 0 ≡ 0
    → (s : Screen) × (kmain rounds fuel dev at 0x2BAD_B002 mb_info m
        ≡ some (
            panicked (
              with_screen
                (put_chars (panic_text (codes "FAT mount failed")) s)
                (start_devices dev at m))))
unfolding boot
kmain-mount_fails rounds fuel k dev at mb_info m f ready enough e la ls short zeros =
    let m1 : Machine = start_devices dev at m in
    let s1 : Screen = screen_of m1 in
    let (h, sent, _) =
      serial_write-Sends fuel dev com1 k ready enough (codes "[STAGE0] Stage 0 Initialized\n")
        s1.bus (is_bytes-IsBytes (codes "[STAGE0] Stage 0 Initialized\n") refl) in
    let (s, panics) =
      find_image-panics fuel at mb_info (with_screen (record s1 { bus = h }) m1) f e la ls short
        zeros in
    (s, kmain-panicked rounds fuel dev at 0x2BAD_B002 mb_info m _ (rw (boot, sent) panics))
