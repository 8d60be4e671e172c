-- ===== src/Fat/Image.antt =====
-- The boot module as a disk.
use lumen_os.Prelude.{ℕ, ◌+◌, ◌*◌, ◌^◌, ◌≤◌, ◌<◌, ◌≡◌, refl, ◌⊎◌, false, arith, u32, ltb-false}
use lumen_os.Prelude.Int.{pos}
use lumen_os.Memory.{Memory, within}
use lumen_os.Strings.Copy.{moved, memcpy_lem}
use lumen_os.Fat.{Memdisk, memdisk_read, memdisk_write}

-- The range of sectors lies on the disk, and the disk in the address space.
pub record OnDisk (ctx : Memdisk) (sector count : ℕ) : Type 0 where
  pub range : sector + count ≤ ctx.num_sectors
  pub first : sector * ctx.sector_size + count * ctx.sector_size < 2 ^ 32
  pub sectors : ctx.num_sectors < 2 ^ 32

-- A block of memory does not meet the range of sectors.
abbrev pub Apart : Memdisk → ℕ → ℕ → ℕ → Type 0
Apart ctx sector count a =
    (a + count * ctx.sector_size ≤ ctx.base + sector * ctx.sector_size)
    ⊎ (ctx.base + sector * ctx.sector_size + count * ctx.sector_size ≤ a)

u32-small : (n : ℕ) → n < 2 ^ 32 → u32 n ≡ n
u32-small n h = omega arith

memdisk_write_lem :
    (ctx : Memdisk) (sector count a : ℕ) (m : Memory)
    → OnDisk ctx sector count
    → Apart ctx sector count a
    → memdisk_write ctx sector a count m
      ≡ (pos 0, moved m (ctx.base + sector * ctx.sector_size) a (count * ctx.sector_size))
unfolding memdisk_write
memdisk_write_lem ctx sector count a m on apart = rw (
  u32-small (sector + count) (omega arith),
  ltb-false ctx.num_sectors (sector + count) on.range,
  u32-small (sector * ctx.sector_size) (omega arith),
  u32-small (count * ctx.sector_size) (omega arith),
  memcpy_lem m (ctx.base + sector * ctx.sector_size) a (count * ctx.sector_size) (omega arith),
)

memdisk_read_lem :
    (ctx : Memdisk) (sector count b : ℕ) (m : Memory)
    → OnDisk ctx sector count
    → Apart ctx sector count b
    → memdisk_read ctx sector b count m
      ≡ (pos 0, moved m b (ctx.base + sector * ctx.sector_size) (count * ctx.sector_size))
unfolding memdisk_read
memdisk_read_lem ctx sector count b m on apart = rw (
  u32-small (sector + count) (omega arith),
  ltb-false ctx.num_sectors (sector + count) on.range,
  u32-small (sector * ctx.sector_size) (omega arith),
  u32-small (count * ctx.sector_size) (omega arith),
  memcpy_lem m b (ctx.base + sector * ctx.sector_size) (count * ctx.sector_size) (omega arith),
)

moved_back : (m : Memory) (d a b n i : ℕ) → i < n → moved (moved m d a n) b d n (b + i) ≡ m (a + i)
moved_back m d a b n i lt = ground arith

-- On sectors of the disk, with buffers that do not meet them, writing a buffer and reading the
-- sectors into another returns 0 twice and leaves in that buffer the bytes of the first; outside
-- the sectors and that buffer nothing changes.
pub memdisk_read-memdisk_write :
    (ctx : Memdisk) (sector count a b : ℕ) (m : Memory)
    → OnDisk ctx sector count
    → Apart ctx sector count a
    → Apart ctx sector count b
    → let n = count * ctx.sector_size in
      let (r1, m1) = memdisk_write ctx sector a count m in
      let (r2, m2) = memdisk_read ctx sector b count m1 in
      (r1 ≡ pos 0)
      × (r2 ≡ pos 0)
      × ((i : ℕ) → i < n → m2 (b + i) ≡ m (a + i))
      × ((x : ℕ)
          → within b n x ≡ false
          → within (ctx.base + sector * ctx.sector_size) n x ≡ false
          → m2 x ≡ m x)
memdisk_read-memdisk_write ctx sector count a b m on apart_a apart_b =
    rw
      (
        memdisk_write_lem ctx sector count a m on apart_a,
        memdisk_read_lem ctx sector count b
            (moved m (ctx.base + sector * ctx.sector_size) a (count * ctx.sector_size)) on apart_b,
      )
      (
        refl,
        refl,
        λ i lt.
            moved_back m (ctx.base + sector * ctx.sector_size) a b (count * ctx.sector_size) i lt,
        λ x out out'. ground arith,
      )
