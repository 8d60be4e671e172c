-- ===== src/Fat.antt =====
-- src/stage0/fat: the file system on the boot module. A back end is a pair of functions that the
-- code calls through pointers; `current_disk` is a parameter, and is not NULL. The macro
-- `disk_read` passes its arguments on in their order, as (sector, buffer, count); the functions
-- below call it as the source does, with the number of sectors in the place of the buffer and the
-- address of the buffer in the place of the count. The addresses of the variables that the
-- compiler places are a record; what is in them before they are written is part of the memory,
-- for the `bpb` of `fat32_mount` a field of the record, since the stack there has been used
-- before.
pub mod Image
pub mod Typed
pub mod Mount
pub mod Directory
pub mod File
mod Tests
use lumen_os.Prelude.{
  ℕ, zero, suc, ◌+◌, ◌-◌, ◌*◌, ◌/◌, ◌%◌, ◌^◌, ◌≤◌, ◌<◌, ◌≡◌, refl, sym, ap, ◌∙◌, fun_ext, ◌≢◌, ◌↔◌,
  ◌⊎◌, inl, inr, Bool, true, false, ◌&&◌, ◌||◌, not, Option, none, some, List, [], ◌∷◌, ◌++◌,
  append-nil, append_assoc, arith, ltb, leb, ◌==◌, if◌then◌else◌, u8, u16, u32, ==-true, ==-false,
  ltb-true, ltb-false, ==_iff, Bool-cases, Option-cases, u8-byte, length, get_elem?, length-append,
  codes,
}
use native.Mathlib.Nat.{le_trans, add-zero, mod-eq_of_lt, add_assoc, add_comm, mod-lt}
use Prim.Native.Nat.{bit_and}
use lumen_os.Prelude.Int.{ℤ, pos, negsuc}
use lumen_os.Memory.{Memory, within}
use lumen_os.Memory.Words.{load16, load32}
use lumen_os.Strings.Copy.{memcpy}

-- The size of the local buffers for a cluster in `fat32_find` and `fat32_read`.
abbrev pub buf_size : ℕ
buf_size = 4096

abbrev pub fat_eoc : ℕ
fat_eoc = 0xFFF_FFF8

-- `disk_backend_t`: the sector, the pointer to the buffer and the count are the arguments.
pub record Backend : Type 0 where
  pub read : ℕ → ℕ → ℕ → Memory → ℤ × Memory
  pub write : ℕ → ℕ → ℕ → Memory → ℤ × Memory

-- `memdisk_ctx_t`
pub record Memdisk : Type 0 where
  pub base : ℕ
  pub sector_size : ℕ
  pub num_sectors : ℕ

unfoldable pub memdisk_read : Memdisk → ℕ → ℕ → ℕ → Memory → ℤ × Memory
memdisk_read ctx sector buf count m =
    if ltb ctx.num_sectors (u32 (sector + count)) then (negsuc 0, m) else (
      pos 0,
      (memcpy m buf (ctx.base + u32 (sector * ctx.sector_size)) (u32 (count * ctx.sector_size))).1,
    )

unfoldable pub memdisk_write : Memdisk → ℕ → ℕ → ℕ → Memory → ℤ × Memory
memdisk_write ctx sector buf count m =
    if ltb ctx.num_sectors (u32 (sector + count)) then (negsuc 0, m) else (
      pos 0,
      (memcpy m (ctx.base + u32 (sector * ctx.sector_size)) buf (u32 (count * ctx.sector_size))).1,
    )

unfoldable pub memdisk_of : ℕ → ℕ → Memdisk
memdisk_of fsimg_addr fsimg_size = record {
  base = fsimg_addr;
  sector_size = 512;
  num_sectors = fsimg_size / 512;
}

-- The back end that `current_disk` points to afterwards.
unfoldable pub fs_use_memdisk : ℕ → ℕ → Backend
unfolding memdisk_of memdisk_read memdisk_write
fs_use_memdisk fsimg_addr fsimg_size = record {
  read = memdisk_read (memdisk_of fsimg_addr fsimg_size);
  write = memdisk_write (memdisk_of fsimg_addr fsimg_size);
}

-- `fat32_fs_t`
pub record Fat32Fs : Type 0 where
  pub part_lba : ℕ
  pub fat_lba : ℕ
  pub data_lba : ℕ
  pub fat_sectors : ℕ
  pub sectors_per_cluster : ℕ
  pub bytes_per_cluster : ℕ
  pub root_cluster : ℕ

-- `fat32_file_t`
pub record Fat32File : Type 0 where
  pub first_cluster : ℕ
  pub size : ℕ
  pub pos : ℕ
  pub is_dir : ℕ

-- Where the compiler puts `bpb` of `fat32_mount`, the static `sector`, and the two local buffers
-- `buf`; and the bytes that the calls before `fat32_mount` leave in the part of the stack that
-- becomes `bpb`, which nothing initialises.
pub record Places : Type 0 where
  pub bpb : ℕ
  pub bpb_left : ℕ → ℕ
  pub sector : ℕ
  pub find_buf : ℕ
  pub read_buf : ℕ

-- The fields of `struct fat32_bpb`, which is packed, at their offsets.
abbrev pub bytes_per_sector : Memory → ℕ → ℕ
bytes_per_sector m bpb = load16 m (bpb + 11)

abbrev pub bpb_sectors_per_cluster : Memory → ℕ → ℕ
bpb_sectors_per_cluster m bpb = m (bpb + 13)

abbrev pub reserved_sectors : Memory → ℕ → ℕ
reserved_sectors m bpb = load16 m (bpb + 14)

abbrev pub fat_count : Memory → ℕ → ℕ
fat_count m bpb = m (bpb + 16)

abbrev pub fat_size32 : Memory → ℕ → ℕ
fat_size32 m bpb = load32 m (bpb + 36)

abbrev pub bpb_root_cluster : Memory → ℕ → ℕ
bpb_root_cluster m bpb = load32 m (bpb + 44)

unfoldable pub cluster_to_lba : Fat32Fs → ℕ → ℕ
cluster_to_lba fs cluster = u32 (fs.data_lba + (cluster + 2 ^ 32 - 2) * fs.sectors_per_cluster)

-- The part of `fat32_mount` behind the read: the checks, and the fields from the boot record at
-- `bpb`.
unfoldable pub from_bpb : ℕ → Memory → ℕ → Option Fat32Fs
from_bpb part_lba m bpb =
    let fat_lba = u32 (part_lba + reserved_sectors m bpb) in
    if fat_size32 m bpb == 0
    then none
    else if not (bytes_per_sector m bpb == 512)
    then none
    else some (record {
      part_lba = part_lba;
      fat_lba = fat_lba;
      data_lba = u32 (fat_lba + fat_count m bpb * fat_size32 m bpb);
      fat_sectors = fat_size32 m bpb;
      sectors_per_cluster = bpb_sectors_per_cluster m bpb;
      bytes_per_cluster = bpb_sectors_per_cluster m bpb * 512;
      root_cluster = bpb_root_cluster m bpb;
    })

-- `sizeof(struct fat32_bpb)`
abbrev pub bpb_size : ℕ
bpb_size = 90

-- The memory when the body of `fat32_mount` starts, with what the stack holds in place of `bpb`.
unfoldable pub at_mount : Places → Memory → Memory
at_mount at m x = if within at.bpb bpb_size x then u8 (at.bpb_left (x - at.bpb)) else m x

-- `none` is the return of -1, else `*out` and the return of 0. What the read returns is ignored.
unfoldable pub fat32_mount : Backend → Places → ℕ → Memory → Option Fat32Fs × Memory
unfolding at_mount
fat32_mount disk at part_lba m =
    let m1 = (disk.read part_lba 1 at.bpb (at_mount at m)).1 in (from_bpb part_lba m1 at.bpb, m1)

-- The entry of a cluster in the allocation table.
unfoldable pub fat_next : Backend → Places → Fat32Fs → ℕ → Memory → ℕ × Memory
fat_next disk at fs cluster m =
    let off = u32 (cluster * 4) in
    let lba = u32 (fs.fat_lba + off / 512) in
    let ent = off % 512 in
    let m1 = (disk.read lba 1 at.sector m).1 in
    (bit_and (load32 m1 (at.sector + ent)) 0xFFF_FFFF, m1)

pub fat32_open_root : Fat32Fs → Fat32File
fat32_open_root fs = record { first_cluster = fs.root_cluster; size = 0; pos = 0; is_dir = 1 }
