-- ===== src/Fat/File/Rounds.antt =====
-- A round of the loop of `fat32_read`: how many bytes it copies, and what several rounds leave if
-- none of them reads.
use lumen_os.Prelude.{
  ℕ, ◌+◌, ◌-◌, ◌*◌, ◌%◌, ◌^◌, ◌≤◌, ◌<◌, ◌≡◌, refl, sym, ap, ◌∙◌, ◌⊎◌, inl, inr, true, false, arith,
  ltb, if◌then◌else◌, u32, Bool-cases,
}
use native.Mathlib.Nat.{add_assoc, mod-lt, mod-eq_of_lt, add-mod_left}
use lumen_os.Memory.{Memory, within}
use lumen_os.Strings.Copy.{memcpy, memcpy_lem}
use lumen_os.Fat.{buf_size, Places, Fat32Fs}
use lumen_os.Fat.Directory.Stuck.{IsZero}

-- `n` bytes at `dst` meet neither the buffer for a cluster nor the one for the table.
pub record Clear (at : Places) (fs : Fat32Fs) (dst n : ℕ) : Type 0 where
  pub off_buffer : (dst + n ≤ at.read_buf) ⊎ (at.read_buf + fs.bytes_per_cluster ≤ dst)
  pub off_table : (dst + n ≤ at.sector) ⊎ (at.sector + 512 ≤ dst)

-- The clusters have whole sectors, are not empty and fit into the buffer.
pub record IsSized (fs : Fat32Fs) : Type 0 where
  pub whole : fs.bytes_per_cluster ≡ 512 * fs.sectors_per_cluster
  pub full : 0 < fs.bytes_per_cluster
  pub fits : fs.bytes_per_cluster ≤ buf_size

pub clear_less : {dst n k p q : ℕ} → k ≤ n → (dst + n ≤ p) ⊎ (q ≤ dst) → (dst + k ≤ p) ⊎ (q ≤ dst)
clear_less le (inl a) = inl (omega arith)
clear_less le (inr b) = inr b

pub clear_rest :
    {dst n k p q : ℕ} → k ≤ n → (dst + n ≤ p) ⊎ (q ≤ dst) → (dst + k + (n - k) ≤ p) ⊎ (q ≤ dst + k)
clear_rest le (inl a) = inl (omega arith)
clear_rest le (inr b) = inr (omega arith)

module _ (fs : Fat32Fs) (sized : IsSized fs) where
  -- The number of bytes that a round copies.
  unfoldable pub chunk : ℕ → ℕ → ℕ
  chunk off remaining =
      if ltb remaining (u32 (fs.bytes_per_cluster + 2 ^ 32 - off))
      then remaining
      else u32 (fs.bytes_per_cluster + 2 ^ 32 - off)

  pub record IsChunk (off remaining k : ℕ) : Type 0 where
    pub positive : 0 < k
    pub at_most : k ≤ remaining
    pub fits : off + k ≤ fs.bytes_per_cluster
    pub to_the_end : 0 < remaining - k → off + k ≡ fs.bytes_per_cluster

  pub chunk-IsChunk :
      (off remaining : ℕ)
      → off < fs.bytes_per_cluster
      → 0 < remaining
      → IsChunk off remaining (chunk off remaining)
  unfolding chunk
  chunk-IsChunk off remaining lt pos =
      let w : u32 (fs.bytes_per_cluster + 2 ^ 32 - off) ≡ fs.bytes_per_cluster - off =
        omega (arith, sized.fits) in
      rw w (record {
        positive = ground arith;
        at_most = ground arith;
        fits = ground arith;
        to_the_end = ground arith;
      })

-- The memory with `n` bytes at `dst` from the buffer, from `off` on and round and round.
abbrev pub with_stale : Places → Fat32Fs → ℕ → ℕ → ℕ → Memory → Memory
with_stale at fs dst n off m x =
    if within dst n x then m (at.read_buf + (off + (x - dst)) % fs.bytes_per_cluster) else m x

module _ (at : Places) (fs : Fat32Fs) (sized : IsSized fs) where
  -- One round: the bytes of the buffer up to the end of the cluster.
  unfoldable pub one_copy : ℕ → ℕ → ℕ → Memory → Memory
  one_copy dst off k m = (memcpy m dst (at.read_buf + off) k).1

  one_copy_at :
      (dst off k : ℕ) (m : Memory) (x : ℕ)
      → off + k ≤ fs.bytes_per_cluster
      → Clear at fs dst k
      → one_copy dst off k m x ≡ (if within dst k x then m (at.read_buf + off + (x - dst)) else m x)
  unfolding one_copy
  one_copy_at dst off k m x fits clear =
      ap (λ (r : ℕ × Memory). r.1 x)
        (memcpy_lem m dst (at.read_buf + off) k (apart clear.off_buffer))
    where
      apart :
          (dst + k ≤ at.read_buf) ⊎ (at.read_buf + fs.bytes_per_cluster ≤ dst)
          → (dst ≤ at.read_buf + off) ⊎ (at.read_buf + off + k ≤ dst)
      apart (inl before) = inl (omega arith)
      apart (inr behind) = inr (omega arith)

  module _ (dst off r : ℕ) (m : Memory) (clear : Clear at fs dst r) (k : ℕ)
      (c : IsChunk fs sized off r k) where
    first_Clear : Clear at fs dst k
    first_Clear = record {
      off_buffer = clear_less c.at_most clear.off_buffer;
      off_table = clear_less c.at_most clear.off_table;
    }

    kept :
        (p q i : ℕ)
        → i < q
        → (dst + k ≤ p) ⊎ (p + q ≤ dst)
        → one_copy dst off k m (p + i) ≡ m (p + i)
    kept p q i lt apart =
        let out : within dst k (p + i) ≡ false = ground arith in
        one_copy_at dst off k m (p + i) c.fits first_Clear ∙ rw out refl

    pub one_copy-IsZero : IsZero m at.sector → IsZero (one_copy dst off k m) at.sector
    one_copy-IsZero zeros i lt = kept at.sector 512 i lt first_Clear.off_table ∙ zeros i lt

    -- The round and the next ones together.
    pub rounds :
        (x : ℕ)
        → with_stale at fs (dst + k) (r - k) 0 (one_copy dst off k m) x
          ≡ with_stale at fs dst r off m x
    rounds x = elim (Bool-cases (within (dst + k) (r - k) x)) [
      | inl late ↦
          let inside : within dst r x ≡ true = ground (arith, c.at_most) in
          let position : off + (x - dst) ≡ fs.bytes_per_cluster + (0 + (x - (dst + k))) =
            next_position x late in
          let place : (0 + (x - (dst + k))) % fs.bytes_per_cluster < fs.bytes_per_cluster =
            mod-lt (0 + (x - (dst + k))) sized.full in
          rw (late, inside)
            (kept at.read_buf fs.bytes_per_cluster _ place first_Clear.off_buffer
              ∙ ap (λ j. m (at.read_buf + j))
                  (sym (
                    ap (λ j. j % fs.bytes_per_cluster) position
                    ∙ add-mod_left fs.bytes_per_cluster (0 + (x - (dst + k))))))
      | inr early ↦ rw early (one_copy_at dst off k m x c.fits first_Clear ∙ first_round x early)
    ]
      where
        next_position :
            (x : ℕ)
            → within (dst + k) (r - k) x ≡ true
            → off + (x - dst) ≡ fs.bytes_per_cluster + (0 + (x - (dst + k)))
        next_position x late = ground (arith, c.to_the_end)

        inside_first :
            (x : ℕ)
            → within dst k x ≡ true
            → (off + (x - dst)) % fs.bytes_per_cluster ≡ off + (x - dst)
        inside_first x first = mod-eq_of_lt (ground (arith, c.fits))

        first_round :
            (x : ℕ)
            → within (dst + k) (r - k) x ≡ false
            → (if within dst k x then m (at.read_buf + off + (x - dst)) else m x)
              ≡ with_stale at fs dst r off m x
        first_round x early =
            ground (arith, c.at_most, c.fits, inside_first x, add_assoc at.read_buf off (x - dst))
