-- ===== src/Fat/Directory/Stuck.antt =====
-- A search on a disk whose reads fail.
use lumen_os.Prelude.{
  ℕ, zero, suc, ◌+◌, ◌*◌, ◌/◌, ◌%◌, ◌≤◌, ◌<◌, ◌≡◌, refl, ap, ◌∙◌, none, arith, u32, ltb-true,
  ltb-false,
}
use native.Mathlib.Nat.{add_assoc}
use lumen_os.Memory.{Memory}
use lumen_os.Memory.Words.{load32}
use Prim.Native.Nat.{bit_and}
use lumen_os.Fat.{
  buf_size, fat_eoc, Places, Fat32Fs, Fat32File, cluster_to_lba, fat_next, fs_use_memdisk,
}
use lumen_os.Fat.Mount.{memdisk_read-refused}
use lumen_os.Fat.Directory.{dirent_size, end_of_cluster, scan_entries, find_from, fat32_find}

-- The reads of the search for the cluster `cl` find their arguments out of range: with the
-- address of the buffer as the count.
pub record OutOfRange (size : ℕ) (at : Places) (fs : Fat32Fs) (cl : ℕ) : Type 0 where
  pub data_read : size / 512 < u32 (cluster_to_lba fs cl + at.find_buf)
  pub table_read : size / 512 < u32 (u32 (fs.fat_lba + u32 (cl * 4) / 512) + at.sector)

-- The static buffer for the table holds zeros, as at boot.
abbrev pub IsZero : Memory → ℕ → Type 0
IsZero m p = (i : ℕ) → i < 512 → m (p + i) ≡ 0

module _ (addr size : ℕ) (at : Places) (fs : Fat32Fs) (m : Memory)
    (zeros : IsZero m at.sector) where
  entry_zero : (a : ℕ) → a + 3 < 512 → load32 m (at.sector + a) ≡ 0
  unfolding load32
  entry_zero a lt = omega (
    arith,
    zeros a (omega arith),
    ap m (add_assoc at.sector a 1) ∙ zeros (a + 1) (omega arith),
    ap m (add_assoc at.sector a 2) ∙ zeros (a + 2) (omega arith),
    ap m (add_assoc at.sector a 3) ∙ zeros (a + 3) (omega arith),
  )

  pub fat_next-zero :
      (cl : ℕ)
      → size / 512 < u32 (u32 (fs.fat_lba + u32 (cl * 4) / 512) + at.sector)
      → fat_next (fs_use_memdisk addr size) at fs cl m ≡ (0, m)
  unfolding fat_next
  fat_next-zero cl out =
      rw (memdisk_read-refused addr size (u32 (fs.fat_lba + u32 (cl * 4) / 512)) 1 at.sector m out)
        (ap (λ (w : ℕ). (bit_and w 0xFFF_FFFF, m)) (entry_zero (u32 (cl * 4) % 512) (omega arith)))

  module _ (name83 : ℕ)
      (nothing : scan_entries (fs.bytes_per_cluster / dirent_size) m at.find_buf name83
        ≡ end_of_cluster)
      (again : OutOfRange size at fs 0) (fits : fs.bytes_per_cluster ≤ buf_size) where
    find_from-stuck :
        (fuel cl : ℕ)
        → cl < fat_eoc
        → OutOfRange size at fs cl
        → find_from fuel (fs_use_memdisk addr size) at fs cl name83 m ≡ none
    unfolding find_from
    find_from-stuck zero cl lt out = refl
    find_from-stuck (suc f) cl lt out =
        let unread : ((fs_use_memdisk addr size).read (cluster_to_lba fs cl) fs.sectors_per_cluster
              at.find_buf m).1
            ≡ m =
          memdisk_read-refused addr size (cluster_to_lba fs cl) fs.sectors_per_cluster at.find_buf m
            out.data_read in
        rw
          (
            find_from,
            ltb-true cl fat_eoc lt,
            ltb-false buf_size fs.bytes_per_cluster fits,
            unread,
            nothing,
          )
          (rw (unread, fat_next-zero cl out.table_read) (find_from-stuck f 0 (omega arith) again))

    -- If a cluster fits into the local buffer, the reads for the directory's first cluster and
    -- for cluster 0 find their arguments out of range, the buffer for the table holds zeros, and
    -- the buffer for the entries holds neither the name nor the end of a directory, then
    -- `fat32_find` never ends: no fuel is enough.
    pub fat32_find-stuck :
        (fuel : ℕ) (dir : Fat32File)
        → dir.first_cluster < fat_eoc
        → OutOfRange size at fs dir.first_cluster
        → fat32_find fuel (fs_use_memdisk addr size) at fs dir name83 m ≡ none
    unfolding fat32_find
    fat32_find-stuck fuel dir lt out = find_from-stuck fuel dir.first_cluster lt out
