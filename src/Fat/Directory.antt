-- ===== src/Fat/Directory.antt =====
-- `fat32_find` of src/stage0/fat/fat32.c.
pub mod Scan
pub mod Stuck
pub mod Stale
pub mod Outcomes
pub mod Typed
use lumen_os.Prelude.{
  ℕ, zero, suc, ◌+◌, ◌-◌, ◌*◌, ◌/◌, ◌%◌, ◌^◌, ◌≤◌, ◌<◌, ◌≡◌, refl, sym, ap, ◌∙◌, fun_ext, ◌≢◌, ◌↔◌,
  ◌⊎◌, inl, inr, Bool, true, false, ◌&&◌, ◌||◌, not, Option, none, some, List, [], ◌∷◌, ◌++◌,
  append-nil, append_assoc, arith, ltb, leb, ◌==◌, if◌then◌else◌, u8, u16, u32, ==-true, ==-false,
  ltb-true, ltb-false, ==_iff, Bool-cases, Option-cases, u8-byte, length, get_elem?, length-append,
  codes,
}
use native.Mathlib.Nat.{le_trans, add-zero, mod-eq_of_lt, add_assoc, add_comm, mod-lt}
use Prim.Native.Nat.{bit_and, bit_or}
use lumen_os.Prelude.Int.{ℤ, pos, negsuc}
use lumen_os.Memory.{Memory}
use lumen_os.Memory.Words.{load16, load32}
use lumen_os.Strings.Compare.{memcmp}
use lumen_os.Fat.{buf_size, fat_eoc, Backend, Places, Fat32Fs, Fat32File, cluster_to_lba, fat_next}

-- `sizeof(struct fat_dirent)`
abbrev pub dirent_size : ℕ
dirent_size = 32

-- The fields of `struct fat_dirent` at their offsets, for the entry at `e`.
abbrev pub attr : Memory → ℕ → ℕ
attr m e = m (e + 11)

abbrev pub cluster_hi : Memory → ℕ → ℕ
cluster_hi m e = load16 m (e + 20)

abbrev pub cluster_lo : Memory → ℕ → ℕ
cluster_lo m e = load16 m (e + 26)

abbrev pub dirent_size_field : Memory → ℕ → ℕ
dirent_size_field m e = load32 m (e + 28)

-- A byte as the signed `char` that the names are made of, promoted to `int`.
abbrev pub signed_char : ℕ → ℤ
signed_char c = if ltb c 0x80 then pos c else negsuc (0xFF - c)

abbrev pub eq_int : ℤ → ℕ → Bool
eq_int (pos a) b = a == b
eq_int (negsuc a) b = false

-- How the loop over the entries ends: at an entry with the name, at the end of the directory, or
-- at the end of the cluster.
pub data Scanned : Type 0 where
  matched : ℕ → Scanned
  end_of_directory : Scanned
  end_of_cluster : Scanned

-- The loop at the entry at `e`, with `left` entries left.
unfoldable pub scan_entries : ℕ → Memory → ℕ → ℕ → Scanned
scan_entries zero m e name83 = end_of_cluster
scan_entries (suc left) m e name83 =
    let rest = scan_entries left m (e + dirent_size) name83 in
    if eq_int (signed_char (m e)) 0x00
    then end_of_directory
    else if eq_int (signed_char (m e)) 0xE5
    then rest
    else if attr m e == 0x0F
    then rest
    else if eq_int (memcmp m e name83 11) 0
    then matched e
    else rest

pub file_of : Memory → ℕ → Fat32File
file_of m e = record {
  first_cluster = u32 (bit_or (cluster_hi m e * 2 ^ 16) (cluster_lo m e));
  size = dirent_size_field m e;
  pos = 0;
  is_dir = if bit_and (attr m e) 0x10 == 0 then 0 else 1;
}

-- The loop over the clusters, from `cl`, as long as a cluster fits into `buf`; a read of a larger
-- one would leave it, and gives `none` here. Also `none` if the fuel runs out, `some none` for the
-- return of -1.
pub find_from : ℕ → Backend → Places → Fat32Fs → ℕ → ℕ → Memory → Option (Option Fat32File × Memory)
unfolding scan_entries
find_from zero disk at fs cl name83 m = none
find_from (suc f) disk at fs cl name83 m = elim (ltb cl fat_eoc) [
  | false ↦ some (none, m)
  | true ↦ elim (ltb buf_size fs.bytes_per_cluster) [
    | true ↦ none
    | false ↦
        let m1 = (disk.read (cluster_to_lba fs cl) fs.sectors_per_cluster at.find_buf m).1 in
        elim (scan_entries (fs.bytes_per_cluster / dirent_size) m1 at.find_buf name83) [
          | matched e ↦ some (some (file_of m1 e), m1)
          | end_of_directory ↦ some (none, m1)
          | end_of_cluster ↦
              let (cl', m2) = fat_next disk at fs cl m1 in find_from f disk at fs cl' name83 m2
        ]
  ]
]

pub fat32_find :
    ℕ → Backend → Places → Fat32Fs → Fat32File → ℕ → Memory → Option (Option Fat32File × Memory)
unfolding find_from
fat32_find fuel disk at fs dir name83 m = find_from fuel disk at fs dir.first_cluster name83 m
