-- ===== src/Fat/Tests.antt =====
-- A small module and a file of two clusters.
use lumen_os.Prelude.{
  ℕ, ◌+◌, ◌-◌, ◌*◌, ◌%◌, ◌^◌, ◌≤◌, ◌<◌, ◌≡◌, refl, inl, false, ◌||◌, none, some, arith, ltb, ◌==◌,
  if◌then◌else◌,
}
use lumen_os.Prelude.Int.{pos}
use lumen_os.Memory.{Memory, within}
use lumen_os.Fat.{
  cluster_to_lba, Backend, Memdisk, Places, Fat32Fs, Fat32File, memdisk_read, memdisk_write,
  fs_use_memdisk, at_mount, fat32_mount,
}
use lumen_os.Fat.Image.{memdisk_read-memdisk_write}
use lumen_os.Fat.Mount.{fat32_mount_blind}
use lumen_os.Fat.Directory.{end_of_cluster, scan_entries, fat32_find}
use lumen_os.Fat.Directory.Scan.{Outcome, scan_entries_lem}
use lumen_os.Fat.Directory.Stuck.{OutOfRange, IsZero, fat32_find-stuck}
use lumen_os.Fat.File.{fat32_read}
use lumen_os.Fat.File.Ends.{fat32_read-ends}
use lumen_os.Fat.File.Rounds.{IsSized, with_stale}
use lumen_os.Fat.File.Stale.{IsRefused, fat32_read-stale}

abbrev small_disk : Memdisk
small_disk = record { base = 0x10_0000; sector_size = 512; num_sectors = 4 }

memdisk_read-memdisk_write_example :
    let (r1, m1) = memdisk_write small_disk 1 0x8000 2 (λ x. x) in
    let (r2, m2) = memdisk_read small_disk 1 0x9000 2 m1 in
    (r1 ≡ pos 0)
    × (r2 ≡ pos 0)
    × ((i : ℕ) → i < 1024 → m2 (0x9000 + i) ≡ 0x8000 + i)
    × ((x : ℕ) → within 0x9000 1024 x ≡ false → within (0x10_0000 + 512) 1024 x ≡ false → m2 x ≡ x)
memdisk_read-memdisk_write_example =
    memdisk_read-memdisk_write small_disk 1 2 0x8000 0x9000 (λ x. x)
      (record { range = omega arith; first = omega arith; sectors = omega arith })
      (inl (omega arith)) (inl (omega arith))

abbrev places : Places
places = record {
  bpb = 0x9000;
  bpb_left = λ i. 0;
  sector = 0x9200;
  find_buf = 0xA000;
  read_buf = 0xB000;
}

abbrev empty_memory : Memory
empty_memory x = 0

abbrev module_memory : Memory
module_memory x = if ltb x 0x10_0000 then 0 else 7

fat32_mount_blind_example :
    let (r, after) = fat32_mount (fs_use_memdisk 0x10_0000 65536) places 0 empty_memory in
    let (r', after') = fat32_mount (fs_use_memdisk 0x10_0000 2048) places 0 module_memory in
    (r' ≡ r) × (after ≡ at_mount places empty_memory) × (after' ≡ at_mount places module_memory)
fat32_mount_blind_example =
    fat32_mount_blind 0x10_0000 65536 0x10_0000 2048 0 places empty_memory module_memory
      (omega arith) (omega arith)

-- A deleted entry, an entry of a long name, and an end.
abbrev entries : Memory
entries x = if x == 0xA000 then 0xE5 else if x == 0xA020 || x == 0xA02B then 0x0F else 0

scan_entries_lem_example : Outcome entries 0x100 0xA000 16 (scan_entries 16 entries 0xA000 0x100)
scan_entries_lem_example = scan_entries_lem 16 entries 0xA000 0x100

-- A volume with clusters of one sector.
abbrev volume : Fat32Fs
volume = record {
  part_lba = 0;
  fat_lba = 1;
  data_lba = 2;
  fat_sectors = 1;
  sectors_per_cluster = 1;
  bytes_per_cluster = 512;
  root_cluster = 2;
}

abbrev root : Fat32File
root = record { first_cluster = 2; size = 0; pos = 0; is_dir = 1 }

-- Zeros in the buffer for the table, and long names elsewhere.
abbrev long_names : Memory
long_names x = if within 0x9200 512 x then 0 else 0x0F

long_names-IsZero : IsZero long_names 0x9200
long_names-IsZero i lt = ground arith

long_names_scan : scan_entries 16 long_names 0xA000 0x100 ≡ end_of_cluster
unfolding scan_entries
long_names_scan = refl

out_of_range : (cl : ℕ) → cl < 4 → OutOfRange 2048 places volume cl
unfolding cluster_to_lba
out_of_range cl lt = record { data_read = omega arith; table_read = omega arith }

fat32_find-stuck_example :
    fat32_find 1000 (fs_use_memdisk 0x10_0000 2048) places volume root 0x100 long_names ≡ none
fat32_find-stuck_example =
    fat32_find-stuck 0x10_0000 2048 places volume long_names long_names-IsZero 0x100 long_names_scan
      (out_of_range 0 (omega arith)) (omega arith) 1000 root (omega arith)
      (out_of_range 2 (omega arith))

volume-IsSized : IsSized volume
volume-IsSized = record { whole = refl; full = omega arith; fits = omega arith }

-- Zeros in the buffer for the table, and other bytes elsewhere.
abbrev leftovers : Memory
leftovers x = if within 0x9200 512 x then 0 else x % 256

leftovers-IsZero : IsZero leftovers 0x9200
leftovers-IsZero i lt = ground arith

is_refused : (cl : ℕ) → cl < 4 → IsRefused 2048 places volume cl
unfolding cluster_to_lba
is_refused cl lt = record { live = omega arith; data_read = omega arith; table_read = omega arith }

abbrev two_clusters : Fat32File
two_clusters = record { first_cluster = 2; size = 600; pos = 0; is_dir = 0 }

fat32_read-stale_example :
    (m' : Memory) × (fat32_read 401
        (fs_use_memdisk 0x10_0000 2048)
        places
        volume
        two_clusters
        500
        400
        0x8000
        leftovers
      ≡ some (100, m'))
    × ((x : ℕ) → m' x ≡ with_stale places volume 0x8000 100 500 leftovers x)
fat32_read-stale_example =
    fat32_read-stale 0x10_0000 2048 places volume volume-IsSized (is_refused 0 (omega arith)) 401
      two_clusters 500 400 0x8000 leftovers (omega arith) (omega arith) (omega arith)
      (is_refused 2 (omega arith)) leftovers-IsZero
      (record { off_buffer = inl (omega arith); off_table = inl (omega arith) })

-- The bytes of a disk whose cluster 2 goes on at cluster 3.
abbrev image : ℕ → ℕ
image x = if within 512 512 x then (if x == 520 then 3 else 0) else x % 256

abbrev image_disk : Backend
image_disk = record {
  read = λ lba count buf m.
      (pos 0, λ x. if within buf (512 * count) x then image (512 * lba + (x - buf)) else m x);
  write = λ lba count buf m. (pos 0, m);
}

fat32_read-ends_example :
    (n : ℕ) × (m' : Memory) × (fat32_read 401 image_disk places volume two_clusters 500 400 0x8000
        empty_memory
      ≡ some (n, m'))
    × (n ≤ 400)
    × (900 < 2 ^ 32 → n ≤ 100)
fat32_read-ends_example =
    fat32_read-ends 401 image_disk places volume two_clusters 500 400 0x8000 empty_memory
      (omega arith) (omega arith) (omega arith)
