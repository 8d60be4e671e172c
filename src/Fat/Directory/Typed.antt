-- ===== src/Fat/Directory/Typed.antt =====
-- What `fat32_find` of src/stage0/fat/fat32.c reads into memory are bytes.
use lumen_os.Prelude.{ℕ, zero, suc, ◌/◌, Bool, true, false, Option, none, some, ltb}
use lumen_os.Memory.{Memory}
use lumen_os.Memory.Bytes.{IsBytes}
use lumen_os.Fat.Typed.{ReadsBytes, fat_next-IsBytes}
use lumen_os.Fat.{Backend, Places, Fat32Fs, Fat32File, buf_size, fat_eoc, fat_next, cluster_to_lba}
use lumen_os.Fat.Directory.{
  dirent_size, Scanned, matched, end_of_directory, end_of_cluster, scan_entries, file_of, find_from,
  fat32_find,
}

-- The memory of a result.
abbrev pub FoundBytes : Option (Option Fat32File × Memory) → Type 0
FoundBytes none = Unit {0}
FoundBytes (some (f, m)) = IsBytes m

find_from-FoundBytes :
    (fuel : ℕ) (disk : Backend) (at : Places) (fs : Fat32Fs) (cl name83 : ℕ) (m : Memory)
    → ReadsBytes disk
    → IsBytes m
    → FoundBytes (find_from fuel disk at fs cl name83 m)
unfolding find_from
find_from-FoundBytes zero disk at fs cl name83 m r b = tt
find_from-FoundBytes (suc f) disk at fs cl name83 m r b = after_test (ltb cl fat_eoc) (
    find_from-FoundBytes f disk at fs next.0 name83 next.1 r
      (fat_next-IsBytes disk at fs cl m1 r read_bytes))
  where
    m1 : Memory
    m1 = (disk.read (cluster_to_lba fs cl) fs.sectors_per_cluster at.find_buf m).1

    read_bytes : IsBytes m1
    read_bytes = r (cluster_to_lba fs cl) fs.sectors_per_cluster at.find_buf m b

    next : ℕ × Memory
    next = fat_next disk at fs cl m1

    after_scan :
        (rest : FoundBytes (find_from f disk at fs next.0 name83 next.1)) (t : Scanned)
        → FoundBytes (elim t [
          | matched e ↦ some (some (file_of m1 e), m1)
          | end_of_directory ↦ some (none, m1)
          | end_of_cluster ↦ find_from f disk at fs next.0 name83 next.1
        ])
    after_scan rest (matched e) = read_bytes
    after_scan rest end_of_directory = read_bytes
    after_scan rest end_of_cluster = rest

    after_fit :
        (t : Bool)
        → FoundBytes (find_from f disk at fs next.0 name83 next.1)
        → FoundBytes (elim t [
          | true ↦ none
          | false ↦ elim (scan_entries (fs.bytes_per_cluster / dirent_size) m1 at.find_buf name83) [
            | matched e ↦ some (some (file_of m1 e), m1)
            | end_of_directory ↦ some (none, m1)
            | end_of_cluster ↦ find_from f disk at fs next.0 name83 next.1
          ]
        ])
    after_fit true rest = tt
    after_fit false rest =
        after_scan rest (scan_entries (fs.bytes_per_cluster / dirent_size) m1 at.find_buf name83)

    after_test :
        (t : Bool)
        → FoundBytes (find_from f disk at fs next.0 name83 next.1)
        → FoundBytes (elim t [
          | false ↦ some (none, m)
          | true ↦ elim (ltb buf_size fs.bytes_per_cluster) [
            | true ↦ none
            | false ↦
                elim (scan_entries (fs.bytes_per_cluster / dirent_size) m1 at.find_buf name83) [
                  | matched e ↦ some (some (file_of m1 e), m1)
                  | end_of_directory ↦ some (none, m1)
                  | end_of_cluster ↦ find_from f disk at fs next.0 name83 next.1
                ]
          ]
        ])
    after_test false rest = b
    after_test true rest = after_fit (ltb buf_size fs.bytes_per_cluster) rest

pub fat32_find-FoundBytes :
    (fuel : ℕ) (disk : Backend) (at : Places) (fs : Fat32Fs) (dir : Fat32File) (name83 : ℕ)
    (m : Memory)
    → ReadsBytes disk
    → IsBytes m
    → FoundBytes (fat32_find fuel disk at fs dir name83 m)
unfolding fat32_find
fat32_find-FoundBytes fuel disk at fs dir name83 m r b =
    find_from-FoundBytes fuel disk at fs dir.first_cluster name83 m r b
