-- ===== src/Fat/Mount.antt =====
-- What `fat32_mount` makes of the boot module.
use lumen_os.Prelude.{ℕ, ◌+◌, ◌/◌, ◌<◌, ◌≡◌, refl, sym, ap, ◌∙◌, true, arith, u8, u32, ltb-true}
use native.Mathlib.Nat.{add_assoc}
use lumen_os.Memory.{Memory, within}
use lumen_os.Memory.Words.{load16, load32, load32_cong}
use lumen_os.Fat.{Places, bpb_size, at_mount, from_bpb, fat32_mount, fs_use_memdisk}

-- The two memories agree on the `n` bytes from `p`.
abbrev pub Agree : Memory → Memory → ℕ → ℕ → Type 0
Agree m m' p n = (i : ℕ) → i < n → m' (p + i) ≡ m (p + i)

load16_cong :
    (m m' : Memory) (a : ℕ) → m' a ≡ m a → m' (a + 1) ≡ m (a + 1) → load16 m' a ≡ load16 m a
unfolding load16
load16_cong m m' a e0 e1 = omega arith

module _ (m m' : Memory) (p n : ℕ) (same : Agree m m' p n) where
  Agree-at : (a k : ℕ) → a + k < n → m' (p + a + k) ≡ m (p + a + k)
  Agree-at a k lt = rw (add_assoc p a k) (same (a + k) lt)

  Agree-load16 : (a : ℕ) → a + 1 < n → load16 m' (p + a) ≡ load16 m (p + a)
  Agree-load16 a lt = load16_cong m m' (p + a) (same a (omega arith)) (Agree-at a 1 lt)

  Agree-load32 : (a : ℕ) → a + 3 < n → load32 m' (p + a) ≡ load32 m (p + a)
  Agree-load32 a lt =
      load32_cong m m' (p + a) (same a (omega arith)) (Agree-at a 1 (omega arith))
        (Agree-at a 2 (omega arith)) (Agree-at a 3 lt)

from_bpb_cong :
    (part_lba bpb : ℕ) (m m' : Memory)
    → Agree m m' bpb 90
    → from_bpb part_lba m' bpb ≡ from_bpb part_lba m bpb
unfolding from_bpb
from_bpb_cong part_lba bpb m m' same = rw (
  Agree-load16 m m' bpb 90 same 11 (omega arith),
  same 13 (omega arith),
  Agree-load16 m m' bpb 90 same 14 (omega arith),
  same 16 (omega arith),
  Agree-load32 m m' bpb 90 same 36 (omega arith),
  Agree-load32 m m' bpb 90 same 44 (omega arith),
)

-- In place of `bpb` there is what the stack held, whatever the memory is.
pub at_mount-left :
    (at : Places) (m : Memory) (i : ℕ)
    → i < bpb_size
    → at_mount at m (at.bpb + i) ≡ u8 (at.bpb_left i)
unfolding at_mount
at_mount-left at m i lt =
    let inside : within at.bpb bpb_size (at.bpb + i) ≡ true = ground arith in
    rw inside (ap (λ j. u8 (at.bpb_left j)) (omega arith))

at_mount-Agree : (at : Places) (m m' : Memory) → Agree (at_mount at m) (at_mount at m') at.bpb 90
at_mount-Agree at m m' i lt = at_mount-left at m' i lt ∙ sym (at_mount-left at m i lt)

pub memdisk_read-refused :
    (addr size sector buf count : ℕ) (m : Memory)
    → size / 512 < u32 (sector + count)
    → ((fs_use_memdisk addr size).read sector buf count m).1 ≡ m
unfolding fs_use_memdisk
memdisk_read-refused addr size sector buf count m h =
    rw (ltb-true (size / 512) (u32 (sector + count)) h)

-- If the number of the first sector plus the address of the boot record's buffer, modulo 2^32,
-- exceeds the number of sectors of the module, `fat32_mount` reads nothing: it changes only that
-- buffer, to what the stack held there, and with the same bytes there its result is the same for
-- all modules and all memories.
pub fat32_mount_blind :
    (addr size addr' size' part_lba : ℕ) (at : Places) (m m' : Memory)
    → size / 512 < u32 (part_lba + at.bpb)
    → size' / 512 < u32 (part_lba + at.bpb)
    → let (r, after) = fat32_mount (fs_use_memdisk addr size) at part_lba m in
      let (r', after') = fat32_mount (fs_use_memdisk addr' size') at part_lba m' in
      (r' ≡ r) × (after ≡ at_mount at m) × (after' ≡ at_mount at m')
unfolding fat32_mount
fat32_mount_blind addr size addr' size' part_lba at m m' short short' =
    rw
      (
        memdisk_read-refused addr size part_lba 1 at.bpb (at_mount at m) short,
        memdisk_read-refused addr' size' part_lba 1 at.bpb (at_mount at m') short',
      )
      (
        from_bpb_cong part_lba at.bpb (at_mount at m) (at_mount at m') (at_mount-Agree at m m'),
        refl,
        refl,
      )
