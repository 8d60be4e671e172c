-- ===== src/Fat/File/Stale.antt =====
-- What `fat32_read` copies from the memory disk when its reads find their arguments out of range.
use lumen_os.Prelude.{
  ℕ, zero, suc, ◌+◌, ◌-◌, ◌*◌, ◌/◌, ◌%◌, ◌^◌, ◌≤◌, ◌<◌, ◌≡◌, refl, ap, ◌∙◌, Option, some, arith,
  ltb, if◌then◌else◌, u32, ==-false, ltb-true, ltb-false,
}
use native.Mathlib.Nat.{mod-lt, mod-add-mod}
use lumen_os.Memory.{Memory, within}
use lumen_os.Fat.{
  buf_size, fat_eoc, Backend, Places, Fat32Fs, Fat32File, cluster_to_lba, fs_use_memdisk,
}
use lumen_os.Fat.Mount.{memdisk_read-refused}
use lumen_os.Fat.Directory.Stuck.{IsZero, fat_next-zero}
use lumen_os.Fat.File.{skip_clusters, copy_clusters, clipped, fat32_read}
use lumen_os.Fat.File.Ends.{clipped-is, read_step}
use lumen_os.Fat.File.Rounds.{
  Clear, IsSized, clear_less, clear_rest, with_stale, one_copy, one_copy-IsZero, rounds, chunk,
  IsChunk, chunk-IsChunk,
}

-- The cluster is not an end of a chain, and the two reads of a round for it find their arguments
-- out of range: with the address of the buffer as the count.
pub record IsRefused (size : ℕ) (at : Places) (fs : Fat32Fs) (cl : ℕ) : Type 0 where
  pub live : cl < fat_eoc
  pub data_read : size / 512 < u32 (cluster_to_lba fs cl + at.read_buf)
  pub table_read : size / 512 < u32 (u32 (fs.fat_lba + u32 (cl * 4) / 512) + at.sector)

module _ (addr size : ℕ) (at : Places) (fs : Fat32Fs) (sized : IsSized fs)
    (again : IsRefused size at fs 0) where
  -- The loop ends with nothing left and the bytes of the buffer in the destination.
  abbrev Staled : ℕ → ℕ → ℕ → Memory → Option (ℕ × Memory) → Type 0
  Staled dst r off m q =
      (m' : Memory) × (q ≡ some (0, m')) × ((x : ℕ) → m' x ≡ with_stale at fs dst r off m x)

  copy_clusters-step :
      (f off cl dst r : ℕ) (m : Memory)
      → IsRefused size at fs cl
      → IsZero (one_copy at fs sized dst off (chunk fs sized off (suc r)) m) at.sector
      → copy_clusters (suc f) (fs_use_memdisk addr size) at fs off cl dst (suc r) m
        ≡ copy_clusters f
            (fs_use_memdisk addr size)
            at
            fs
            0
            0
            (dst + chunk fs sized off (suc r))
            (suc r - chunk fs sized off (suc r))
            (one_copy at fs sized dst off (chunk fs sized off (suc r)) m)
  unfolding copy_clusters chunk one_copy
  copy_clusters-step f off cl dst r m out zeros =
      let unread : ((fs_use_memdisk addr size).read (cluster_to_lba fs cl) fs.sectors_per_cluster
            at.read_buf m).1
          ≡ m =
        memdisk_read-refused addr size (cluster_to_lba fs cl) fs.sectors_per_cluster at.read_buf m
          out.data_read in
      let k : ℕ = chunk fs sized off (suc r) in
      rw
        (
          copy_clusters,
          ==-false (suc r) 0 (omega arith),
          ltb-true cl fat_eoc out.live,
          ltb-false buf_size fs.bytes_per_cluster sized.fits,
          unread,
        )
        (ap
          (λ (q : ℕ × Memory).
            copy_clusters f (fs_use_memdisk addr size) at fs 0 q.0 (dst + k) (suc r - k) q.1)
          (fat_next-zero addr size at fs (one_copy at fs sized dst off k m) zeros cl
            out.table_read))

  copy_clusters-Staled :
      (fuel off cl dst r : ℕ) (m : Memory)
      → off < fs.bytes_per_cluster
      → r < fuel
      → IsRefused size at fs cl
      → Clear at fs dst r
      → IsZero m at.sector
      → Staled dst r off m (copy_clusters fuel (fs_use_memdisk addr size) at fs off cl dst r m)
  unfolding copy_clusters
  copy_clusters-Staled zero off cl dst r m lt enough out clear zeros = absurd (omega arith)
  copy_clusters-Staled (suc f) off cl dst zero m lt enough out clear zeros =
      (m, refl, λ x. ground arith)
  copy_clusters-Staled (suc f) off cl dst (suc r) m lt enough out clear zeros =
      let k : ℕ = chunk fs sized off (suc r) in
      let c : IsChunk fs sized off (suc r) k =
        chunk-IsChunk fs sized off (suc r) lt (omega arith) in
      let m1 : Memory = one_copy at fs sized dst off k m in
      let zeros1 : IsZero m1 at.sector =
        one_copy-IsZero at fs sized dst off (suc r) m clear k c zeros in
      let (m', e, bytes) =
        copy_clusters-Staled f 0 0 (dst + k) (suc r - k) m1 sized.full (omega (arith, c.positive))
          again
          (record {
            off_buffer = clear_rest c.at_most clear.off_buffer;
            off_table = clear_rest c.at_most clear.off_table;
          })
          zeros1 in
      (
        m',
        copy_clusters-step f off cl dst r m out zeros1 ∙ e,
        λ x. bytes x ∙ rounds at fs sized dst off (suc r) m clear k c x,
      )

  -- The chain goes on at cluster 0.
  skip_clusters-stale :
      (q cl : ℕ) (m : Memory)
      → IsRefused size at fs cl
      → IsZero m at.sector
      → (cl' : ℕ) × (skip_clusters q (fs_use_memdisk addr size) at fs cl m ≡ (cl', m))
        × IsRefused size at fs cl'
  unfolding skip_clusters
  skip_clusters-stale zero cl m out zeros = (cl, refl, out)
  skip_clusters-stale (suc q) cl m out zeros =
      let (cl', e, out') = skip_clusters-stale q 0 m again zeros in
      (
        cl',
        ap (λ (p : ℕ × Memory). skip_clusters q (fs_use_memdisk addr size) at fs p.0 p.1)
              (fat_next-zero addr size at fs m zeros cl out.table_read)
            ∙ e,
        out',
      )

  -- If clusters have whole sectors, are not empty and fit into the local buffer, the reads for
  -- the file's first cluster, which is no end of a chain, and for cluster 0 find their arguments
  -- out of range, the static buffer for the table holds zeros, offset and count do not wrap, the
  -- fuel exceeds the count and the destination meets neither buffer, then `fat32_read` on the
  -- memory disk reads nothing and still returns the number of bytes that the file has there, at
  -- most the count: it fills the destination with what the local buffer held at the call, from
  -- the offset modulo the size of a cluster on and round and round, and changes nothing else.
  pub fat32_read-stale :
      (fuel : ℕ) (file : Fat32File) (offset count out : ℕ) (m : Memory)
      → count < fuel
      → offset < file.size
      → offset + count < 2 ^ 32
      → IsRefused size at fs file.first_cluster
      → IsZero m at.sector
      → Clear at fs out count
      → let n = if ltb file.size (offset + count) then file.size - offset else count in
        (m' : Memory) × (fat32_read fuel (fs_use_memdisk addr size) at fs file offset count out m
          ≡ some (n, m'))
        × ((x : ℕ) → m' x ≡ with_stale at fs out n offset m x)
  fat32_read-stale fuel file offset count out m enough inside small refused zeros clear =
      let disk : Backend = fs_use_memdisk addr size in
      let b : ℕ = fs.bytes_per_cluster in
      let n : ℕ = if ltb file.size (offset + count) then file.size - offset else count in
      let clip : clipped file offset count ≡ n = clipped-is file offset count small in
      let n_le : n ≤ count = ground arith in
      let (cl, skipped, refused') =
        skip_clusters-stale (offset / b) file.first_cluster m refused zeros in
      let (m', e, bytes) =
        copy_clusters-Staled fuel (offset % b) cl out n m (mod-lt offset sized.full) (omega arith)
          refused'
          (record {
            off_buffer = clear_less n_le clear.off_buffer;
            off_table = clear_less n_le clear.off_table;
          })
          zeros in
      (
        m',
        read_step disk at fs fuel file offset count out cl m m m' inside skipped
              (ap (λ j. copy_clusters fuel disk at fs (offset % b) cl out j m) clip ∙ e)
            ∙ ap (λ j. some (j, m')) clip,
        λ x.
            bytes x
            ∙ ap (λ j. if within out n x then m (at.read_buf + j) else m x)
                (mod-add-mod offset b (x - out)),
      )
