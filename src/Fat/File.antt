-- ===== src/Fat/File.antt =====
-- `fat32_read` of src/stage0/fat/fat32.c. A division by a cluster size of 0, which C leaves
-- undefined, is 0 here.
pub mod Ends
pub mod Rounds
pub mod Stale
use lumen_os.Prelude.{
  ℕ, zero, suc, ◌+◌, ◌-◌, ◌*◌, ◌/◌, ◌%◌, ◌^◌, ◌≤◌, ◌<◌, ◌≡◌, refl, sym, ap, ◌∙◌, fun_ext, ◌≢◌, ◌↔◌,
  ◌⊎◌, inl, inr, Bool, true, false, ◌&&◌, ◌||◌, not, Option, none, some, List, [], ◌∷◌, ◌++◌,
  append-nil, append_assoc, arith, ltb, leb, ◌==◌, if◌then◌else◌, u8, u16, u32, ==-true, ==-false,
  ltb-true, ltb-false, ==_iff, Bool-cases, Option-cases, u8-byte, length, get_elem?, length-append,
  codes,
}
use native.Mathlib.Nat.{le_trans, add-zero, mod-eq_of_lt, add_assoc, add_comm, mod-lt}
use lumen_os.Memory.{Memory}
use lumen_os.Strings.Copy.{memcpy}
use lumen_os.Fat.{buf_size, fat_eoc, Backend, Places, Fat32Fs, Fat32File, cluster_to_lba, fat_next}

-- `for (i = 0; i < skip; i++) cl = fat_next(fs, cl);`
pub skip_clusters : ℕ → Backend → Places → Fat32Fs → ℕ → Memory → ℕ × Memory
skip_clusters zero disk at fs cl m = (cl, m)
skip_clusters (suc skip) disk at fs cl m =
    let (cl', m') = fat_next disk at fs cl m in skip_clusters skip disk at fs cl' m'

-- The loop that copies, as long as a cluster fits into `buf`; a read of a larger one would leave
-- it, and gives `none` here: the offset in the cluster, the cluster, the destination and what
-- remains. The result is what remains at the end, and the memory; `none` too if the fuel runs
-- out.
pub copy_clusters : ℕ → Backend → Places → Fat32Fs → ℕ → ℕ → ℕ → ℕ → Memory → Option (ℕ × Memory)
copy_clusters zero disk at fs off cl dst remaining m = none
copy_clusters (suc f) disk at fs off cl dst remaining m =
    elim (not (remaining == 0) && ltb cl fat_eoc) [
      | false ↦ some (remaining, m)
      | true ↦ elim (ltb buf_size fs.bytes_per_cluster) [
        | true ↦ none
        | false ↦
            let m1 = (disk.read (cluster_to_lba fs cl) fs.sectors_per_cluster at.read_buf m).1 in
            let whole = u32 (fs.bytes_per_cluster + 2 ^ 32 - off) in
            let copy = if ltb remaining whole then remaining else whole in
            let m2 = (memcpy m1 dst (at.read_buf + off) copy).1 in
            let (cl', m3) = fat_next disk at fs cl m2 in
            copy_clusters f disk at fs 0 cl' (dst + copy) (remaining - copy) m3
      ]
    ]

-- The size after the first two lines; the sum wraps.
pub clipped : Fat32File → ℕ → ℕ → ℕ
clipped file offset size = if ltb file.size (u32 (offset + size)) then file.size - offset else size

-- The number that is returned, and the memory.
pub fat32_read :
    ℕ → Backend → Places → Fat32Fs → Fat32File → ℕ → ℕ → ℕ → Memory → Option (ℕ × Memory)
unfolding skip_clusters copy_clusters clipped
fat32_read fuel disk at fs file offset size out m =
    if leb file.size offset
    then some (0, m)
    else let size' = clipped file offset size in
      let (cl, m1) =
        skip_clusters (offset / fs.bytes_per_cluster) disk at fs file.first_cluster m in
      elim (copy_clusters fuel disk at fs (offset % fs.bytes_per_cluster) cl out size' m1) [
        | none ↦ none
        | some (remaining, m2) ↦ some (size' - remaining, m2)
      ]
