-- ===== src/Fat/File/Ends.antt =====
-- `fat32_read` ends on every disk, and the number that it returns is bounded.
use lumen_os.Prelude.{
  ◌%◌, ◌/◌, ℕ, zero, suc, ◌+◌, ◌-◌, ◌^◌, ◌≤◌, ◌<◌, ◌≡◌, inl, inr, ◌&&◌, not, some, false, ap, arith,
  ltb, ◌==◌, if◌then◌else◌, u32, Bool-cases,
}
use native.Mathlib.Nat.{mod-eq_of_lt}
use lumen_os.Memory.{Memory}
use lumen_os.Strings.Copy.{memcpy}
use lumen_os.Fat.{
  mod-lt, leb, buf_size, ltb-false, Fat32File, fat_eoc, Backend, Places, Fat32Fs, cluster_to_lba,
  fat_next,
}
use lumen_os.Fat.File.{skip_clusters, fat32_read, clipped, copy_clusters}

copy_clusters-ends :
    (fuel : ℕ) (disk : Backend) (at : Places) (fs : Fat32Fs) (off cl dst remaining : ℕ) (m : Memory)
    → off < fs.bytes_per_cluster
    → fs.bytes_per_cluster ≤ buf_size
    → remaining < fuel
    → (left : ℕ) × (m' : Memory) × (copy_clusters fuel disk at fs off cl dst remaining m
        ≡ some (left, m'))
      × (left ≤ remaining)
unfolding copy_clusters
copy_clusters-ends zero disk at fs off cl dst remaining m lt small enough = absurd (omega arith)
copy_clusters-ends (suc f) disk at fs off cl dst remaining m lt small enough =
    elim (Bool-cases (not (remaining == 0) && ltb cl fat_eoc)) [
      | inr stop ↦ (remaining, m, rw (stop, copy_clusters), omega arith)
      | inl go ↦
          let m1 : Memory =
            (disk.read (cluster_to_lba fs cl) fs.sectors_per_cluster at.read_buf m).1 in
          let whole : ℕ = u32 (fs.bytes_per_cluster + 2 ^ 32 - off) in
          let copy : ℕ = if ltb remaining whole then remaining else whole in
          let m2 : Memory = (memcpy m1 dst (at.read_buf + off) copy).1 in
          let next : ℕ × Memory = fat_next disk at fs cl m2 in
          let positive : 0 < copy = ground arith in
          let (left, m', e, le) =
            copy_clusters-ends f disk at fs 0 next.0 (dst + copy) (remaining - copy) next.1
              (omega arith) small (ground arith) in
          (
            left,
            m',
            rw (go, ltb-false buf_size fs.bytes_per_cluster small, copy_clusters) e,
            omega arith,
          )
    ]

pub clipped-le : (file : Fat32File) (offset size : ℕ) → clipped file offset size ≤ size
unfolding clipped
clipped-le file offset size = ground arith

pub clipped-inside :
    (file : Fat32File) (offset size : ℕ)
    → offset < file.size
    → offset + size < 2 ^ 32
    → offset + clipped file offset size ≤ file.size
unfolding clipped
clipped-inside file offset size lt small = ground arith

clipped-wraps :
    (file : Fat32File) (offset size : ℕ)
    → offset < file.size
    → size < 2 ^ 32
    → 2 ^ 32 ≤ offset + size
    → clipped file offset size ≡ size
unfolding clipped
clipped-wraps file offset size lt word wraps = ground arith

pub clipped-is :
    (file : Fat32File) (offset size : ℕ)
    → offset + size < 2 ^ 32
    → clipped file offset size
      ≡ (if ltb file.size (offset + size) then file.size - offset else size)
unfolding clipped
clipped-is file offset size small = rw (mod-eq_of_lt small)

-- The value of `fat32_read` behind the guard.
pub read_step :
    (disk : Backend) (at : Places) (fs : Fat32Fs) (fuel : ℕ) (file : Fat32File)
    (offset size out cl : ℕ) (m m1 m2 : Memory)
    → offset < file.size
    → skip_clusters (offset / fs.bytes_per_cluster) disk at fs file.first_cluster m ≡ (cl, m1)
    → copy_clusters fuel disk at fs
        (offset % fs.bytes_per_cluster)
        cl
        out
        (clipped file offset size)
        m1
      ≡ some (0, m2)
    → fat32_read fuel disk at fs file offset size out m ≡ some (clipped file offset size, m2)
unfolding fat32_read
read_step disk at fs fuel file offset size out cl m m1 m2 inside e1 e2 =
    let test : leb file.size offset ≡ false = ground arith in
    rw (fat32_read, test, e1, e2) (ap (λ k. some (k, m2)) (omega arith))

-- On every disk, whatever its reads return and leave, with clusters that are not empty and fit
-- into the local buffer of 8 sectors, and with fuel above the size asked for, `fat32_read` ends.
-- It returns at most that size, and if offset and size sum up to less than 2^32, at most what the
-- file has behind the offset.
pub fat32_read-ends :
    (fuel : ℕ) (disk : Backend) (at : Places) (fs : Fat32Fs) (file : Fat32File)
    (offset size out : ℕ) (m : Memory)
    → 0 < fs.bytes_per_cluster
    → fs.bytes_per_cluster ≤ buf_size
    → size < fuel
    → (n : ℕ) × (m' : Memory) × (fat32_read fuel disk at fs file offset size out m ≡ some (n, m'))
      × (n ≤ size)
      × (offset + size < 2 ^ 32 → n ≤ file.size - offset)
unfolding fat32_read
fat32_read-ends fuel disk at fs file offset size out m full small enough =
    elim (Bool-cases (leb file.size offset)) [
      | inl past ↦ (0, m, rw (fat32_read, past), omega arith, λ h. omega arith)
      | inr inside ↦
          let start : ℕ × Memory =
            skip_clusters (offset / fs.bytes_per_cluster) disk at fs file.first_cluster m in
          let size' : ℕ = clipped file offset size in
          let le : size' ≤ size = clipped-le file offset size in
          let (left, m', e, _) =
            copy_clusters-ends fuel disk at fs (offset % fs.bytes_per_cluster) start.0 out size'
              start.1 (mod-lt offset full) small (omega arith) in
          (
            size' - left,
            m',
            rw (fat32_read, inside, e),
            omega arith,
            λ h. omega (arith, clipped-inside file offset size (ground arith) h),
          )
    ]
