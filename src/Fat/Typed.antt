-- ===== src/Fat/Typed.antt =====
-- What the file system reads into memory are bytes.
use lumen_os.Prelude.{ℕ, ◌+◌, arith, inl, inr, ltb, u32, Bool-cases}
use lumen_os.Memory.{Memory}
use lumen_os.Memory.Bytes.{IsBytes}
use lumen_os.Strings.Copy.Bytes.{memcpy-IsBytes}
use lumen_os.Fat.{
  Backend, Places, Fat32Fs, fs_use_memdisk, memdisk_of, memdisk_read, at_mount, fat32_mount,
  fat_next,
}

-- A read of the back end keeps memory one of bytes.
abbrev pub ReadsBytes : Backend → Type 0
ReadsBytes disk =
    (sector buf count : ℕ) (m : Memory) → IsBytes m → IsBytes (disk.read sector buf count m).1

pub memdisk-ReadsBytes : (addr size : ℕ) → ReadsBytes (fs_use_memdisk addr size)
unfolding fs_use_memdisk memdisk_read
memdisk-ReadsBytes addr size sector buf count m b =
    elim (Bool-cases (ltb (memdisk_of addr size).num_sectors (u32 (sector + count)))) [
      | inl beyond ↦ rw beyond b
      | inr inside ↦ rw inside (memcpy-IsBytes m buf _ _ b)
    ]

at_mount-IsBytes : (at : Places) (m : Memory) → IsBytes m → IsBytes (at_mount at m)
unfolding at_mount
at_mount-IsBytes at m b x = ground (arith, b x)

pub fat32_mount-IsBytes :
    (disk : Backend) (at : Places) (part_lba : ℕ) (m : Memory)
    → ReadsBytes disk
    → IsBytes m
    → IsBytes (fat32_mount disk at part_lba m).1
unfolding fat32_mount
fat32_mount-IsBytes disk at part_lba m r b =
    r part_lba 1 at.bpb (at_mount at m) (at_mount-IsBytes at m b)

pub fat_next-IsBytes :
    (disk : Backend) (at : Places) (fs : Fat32Fs) (cluster : ℕ) (m : Memory)
    → ReadsBytes disk
    → IsBytes m
    → IsBytes (fat_next disk at fs cluster m).1
unfolding fat_next
fat_next-IsBytes disk at fs cluster m r b = r _ 1 at.sector m b
