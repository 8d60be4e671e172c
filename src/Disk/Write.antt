-- ===== src/Disk/Write.antt =====
-- What `disk_write` sends to the drive.
use lumen_os.Prelude.{
  ℕ, zero, suc, ◌+◌, ◌*◌, ◌^◌, ◌≤◌, ◌<◌, ◌≡◌, refl, sym, ap, ◌∙◌, ◌≢◌, Option, some, List, [], ◌∷◌,
  ◌++◌, append-nil, append_assoc, arith, u16, u32, ==-false, ltb-false,
}
use lumen_os.Prelude.Int.{pos}
use lumen_os.Prelude.Bits.{bit_or_field}
use Prim.Native.Nat.{bit_or}
use lumen_os.Memory.{Memory}
use lumen_os.Port.{History, Device, out16, outw}
use lumen_os.Disk.{write_words, write_sectors, disk_write, info, ata_cmd_write_sectors}
use lumen_os.Disk.Wait.{IsPrompt, words_out, start_sector-ends}

-- The `n` words from `p`, low byte first.
abbrev pub words_at : ℕ → ℕ → Memory → List ℕ
words_at zero p m = []
words_at (suc n) p m = (m p + 2 ^ 8 * m (p + 1)) ∷ words_at n (p + 2) m

words_at-add :
    (a b p : ℕ) (m : Memory) → words_at (a + b) p m ≡ words_at a p m ++ words_at b (p + 2 * a) m
words_at-add zero b p m =
    ap (λ n. words_at n p m) zero_left ∙ ap (λ q. words_at b q m) (omega arith)
  where
    zero_left : 0 + b ≡ b
    zero_left = omega arith
words_at-add (suc a) b p m =
    ap (λ n. words_at n p m) one_more
    ∙ ap (λ (l : List ℕ). (m p + 2 ^ 8 * m (p + 1)) ∷ l)
        (words_at-add a b (p + 2) m
          ∙ ap (λ q. words_at a (p + 2) m ++ words_at b q m) (omega arith))
  where
    one_more : suc a + b ≡ suc (a + b)
    one_more = omega arith

word_lem : (lo hi : ℕ) → lo < 256 → hi < 256 → u16 (bit_or lo (hi * 2 ^ 8)) ≡ lo + 2 ^ 8 * hi
word_lem lo hi hl hh = omega (arith, bit_or_field 8 lo hi hl)

module _ (m : Memory) (bytes : (x : ℕ) → m x < 256) where
  same_head :
      (i p left : ℕ)
      → u16 (u16 (bit_or (m (p + i * 2)) (m (p + i * 2 + 1) * 2 ^ 8)))
          ∷ words_at left (p + (i + 1) * 2) m
        ≡ words_at (suc left) (p + i * 2) m
  same_head i p left = λ j. head_word j ∷ words_at left (next j) m
    where
      head_word :
          u16 (u16 (bit_or (m (p + i * 2)) (m (p + i * 2 + 1) * 2 ^ 8)))
          ≡ m (p + i * 2) + 2 ^ 8 * m (p + i * 2 + 1)
      head_word = omega (
        arith,
        word_lem (m (p + i * 2)) (m (p + i * 2 + 1)) (bytes (p + i * 2)) (bytes (p + i * 2 + 1)),
      )

      next : p + (i + 1) * 2 ≡ p + i * 2 + 2
      next = omega arith

  write_words_lem :
      (left i p : ℕ) (h : History)
      → words_out (write_words left i p m h) ≡ words_out h ++ words_at left (p + i * 2) m
  unfolding write_words outw
  write_words_lem zero i p h = sym (append-nil _)
  write_words_lem (suc left) i p h =
      let w : ℕ = u16 (u16 (bit_or (m (p + i * 2)) (m (p + i * 2 + 1) * 2 ^ 8))) in
      write_words_lem left (i + 1) p (out16 0x1F0 w ∷ h)
      ∙ append_assoc (words_out h) (w ∷ []) (words_at left (p + (i + 1) * 2) m)
      ∙ ap (λ l. words_out h ++ l) (same_head i p left)

  -- A run of the loop over the sectors ends, and has sent the words.
  abbrev Sent : History → List ℕ → Option History → Type 0
  Sent h ws r = (h' : History) × (r ≡ some h') × (words_out h' ≡ words_out h ++ ws)

  module _ (fuel : ℕ) (dev : Device) (lba buffer k : ℕ) (prompt : IsPrompt dev k)
      (enough : k ≤ fuel) where
    write_sectors-Sent :
        (left sector : ℕ) (h : History)
        → (sector + left) * 512 ≤ 2 ^ 32
        → Sent h
            (words_at (256 * left) (buffer + 512 * sector) m)
            (write_sectors left sector fuel dev lba buffer m h)
    unfolding write_sectors
    write_sectors-Sent zero sector h fits = (h, refl, sym (append-nil _))
    write_sectors-Sent (suc left) sector h fits =
        let p : ℕ = buffer + u32 (sector * 512) in
        let (h1, e, w, _) =
          start_sector-ends fuel dev ata_cmd_write_sectors (u32 (lba + sector)) k h prompt enough in
        let (h2, e2, w2) =
          write_sectors-Sent left (sector + 1) (write_words 256 0 p m h1) (omega arith) in
        (
          h2,
          rw (write_sectors, e) e2,
          w2
              ∙ ap (λ l. l ++ words_at (256 * left) (buffer + 512 * (sector + 1)) m)
                  (write_words_lem 256 0 p h1 ∙ (λ j. w j ++ words_at 256 (here j) m))
              ∙ append_assoc (words_out h) _ _
              ∙ ap (λ l. words_out h ++ l) (joined left sector),
        )
      where
        here : buffer + u32 (sector * 512) + 0 * 2 ≡ buffer + sector * 512 + 0 * 2
        here = omega arith

        joined :
            (left sector : ℕ)
            → words_at 256 (buffer + sector * 512 + 0 * 2) m
                ++ words_at (256 * left) (buffer + 512 * (sector + 1)) m
              ≡ words_at (256 * suc left) (buffer + 512 * sector) m
        joined left sector = sym (
            ap (λ n. words_at n (buffer + 512 * sector) m) count
            ∙ words_at-add 256 (256 * left) (buffer + 512 * sector) m
            ∙ (λ j. words_at 256 (here j) m ++ words_at (256 * left) (there j) m))
          where
            count : 256 * suc left ≡ 256 + 256 * left
            count = omega arith

            here : buffer + 512 * sector ≡ buffer + sector * 512 + 0 * 2
            here = omega arith

            there : buffer + 512 * sector + 2 * 256 ≡ buffer + 512 * (sector + 1)
            there = omega arith

    -- If every byte of the memory is below 256, the buffer is not NULL and the sum of block and
    -- count, modulo 2^32, is at most the number of sectors, and the bytes to write number at most
    -- 2^32, then on a drive that gets ready in time, with fuel for that time, `disk_write` ends
    -- with 0 and has sent the 256 words of each sector from the buffer, low byte first.
    pub disk_write_lem :
        (count : ℕ) (h : History)
        → buffer ≢ 0
        → u32 (lba + count) ≤ info.sector_count
        → count * 512 ≤ 2 ^ 32
        → (h' : History) × (disk_write fuel dev lba buffer count m h ≡ some (pos 0, h'))
          × (words_out h' ≡ words_out h ++ words_at (256 * count) buffer m)
    unfolding disk_write
    disk_write_lem count h there fits bytes_fit =
        let (h', e, w) = write_sectors-Sent count 0 h (omega arith) in
        (
          h',
          rw (==-false buffer 0 there, ltb-false info.sector_count (u32 (lba + count)) fits, e),
          w ∙ ap (λ q. words_out h ++ words_at (256 * count) q m) (omega arith),
        )
