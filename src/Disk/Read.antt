-- ===== src/Disk/Read.antt =====
-- What `disk_read` leaves in the buffer.
use lumen_os.Prelude.{
  ◌%◌, ℕ, zero, suc, ◌+◌, ◌*◌, ◌/◌, ◌^◌, ◌≤◌, ◌<◌, ◌≡◌, refl, sym, ap, ◌∙◌, ◌≢◌, false, Option,
  some, List, [], ◌∷◌, ◌++◌, append-nil, append_assoc, arith, u8, u16, u32, ==-false, ltb-false,
  length, get_elem?, length-append,
}
use lumen_os.Prelude.Int.{pos}
use lumen_os.Prelude.Bits.{bit_and_mask}
use Prim.Native.Nat.{bit_and}
use lumen_os.Memory.{Memory, store8, within}
use mathlib.Core.Path.{subst}
use lumen_os.Port.{in16, History, Device, inw}
use lumen_os.Disk.{read_words, read_sectors, disk_read, info, ata_cmd_read_sectors}
use lumen_os.Disk.Wait.{IsPrompt, words_in, start_sector-ends}

-- Of each of the words, in their order, the low byte and a 0 stand in the memory from `p` on, and
-- nothing else has changed.
pub record HalfRead (ws : List ℕ) (p : ℕ) (m m' : Memory) : Type 0 where
  pub even_given : (j w : ℕ) → get_elem? ws j ≡ some w → m' (p + 2 * j) ≡ w % 2 ^ 8
  pub odd_zero : (j : ℕ) → j < length ws → m' (p + 2 * j + 1) ≡ 0
  pub outside : (x : ℕ) → within p (2 * length ws) x ≡ false → m' x ≡ m x

low_byte : (w : ℕ) → bit_and (u8 (u16 w)) 0xFF ≡ w % 2 ^ 8
low_byte w = omega (arith, bit_and_mask 8 (u8 (u16 w)))

no_high_byte : (w : ℕ) → bit_and (u8 (u16 w) / 2 ^ 8) 0xFF ≡ 0
no_high_byte w = omega (arith, bit_and_mask 8 (u8 (u16 w) / 2 ^ 8))

-- The low bytes of the words, each with a 0 behind it, written from `p` on.
laid : List ℕ → ℕ → Memory → Memory
laid [] p m = m
laid (w ∷ ws) p m = laid ws (p + 2) (store8 (store8 m p (w % 2 ^ 8)) (p + 1) 0)

laid-append :
    (xs ys : List ℕ) (p : ℕ) (m : Memory)
    → laid (xs ++ ys) p m ≡ laid ys (p + 2 * length xs) (laid xs p m)
unfolding laid
laid-append [] ys p m = ap (λ q. laid ys q m) (omega arith)
laid-append (x ∷ xs) ys p m =
    laid-append xs ys (p + 2) (store8 (store8 m p (x % 2 ^ 8)) (p + 1) 0)
    ∙ ap (λ q. laid ys q (laid xs (p + 2) (store8 (store8 m p (x % 2 ^ 8)) (p + 1) 0)))
        (omega arith)

-- One more word in front.
HalfRead-cons :
    (w : ℕ) (ws : List ℕ) (p : ℕ) (m m' : Memory)
    → HalfRead ws (p + 2) (store8 (store8 m p (w % 2 ^ 8)) (p + 1) 0) m'
    → HalfRead (w ∷ ws) p m m'
unfolding store8
HalfRead-cons w ws p m m' rest = record {
  even_given = even;
  odd_zero = odd;
  outside = λ x out. rest.outside x (ground arith) ∙ ground arith;
}
  where
    even : (j v : ℕ) → get_elem? (w ∷ ws) j ≡ some v → m' (p + 2 * j) ≡ v % 2 ^ 8
    even zero v e = rest.outside (p + 2 * 0) (ground arith) ∙ grind (arith, e)
    even (suc j) v e = ap m' (omega arith) ∙ rest.even_given j v e

    odd : (j : ℕ) → j < suc (length ws) → m' (p + 2 * j + 1) ≡ 0
    odd zero lt = rest.outside (p + 2 * 0 + 1) (ground arith) ∙ ground arith
    odd (suc j) lt = ap m' (omega arith) ∙ rest.odd_zero j (omega arith)

laid-HalfRead : (ws : List ℕ) (p : ℕ) (m : Memory) → HalfRead ws p m (laid ws p m)
unfolding laid
laid-HalfRead [] p m = record {
  even_given = λ j w e. grind (arith, e);
  odd_zero = λ j lt. absurd (omega arith);
  outside = λ x out. refl;
}
laid-HalfRead (w ∷ ws) p m = HalfRead-cons w ws p m _ (laid-HalfRead ws (p + 2) _)

-- The accesses between two histories read the words.
abbrev Gave : Device → History → History → List ℕ → Type 0
Gave dev h h' ws = words_in dev h' ≡ words_in dev h ++ ws

read_words_lem :
    (left i : ℕ) (dev : Device) (p : ℕ) (m : Memory) (h : History)
    → (ws : List ℕ) × (length ws ≡ left)
      × ((read_words left i dev p m h).0 ≡ laid ws (p + i * 2) m)
      × Gave dev h (read_words left i dev p m h).1 ws
unfolding read_words inw laid
read_words_lem zero i dev p m h = ([], refl, refl, sym (append-nil _))
read_words_lem (suc left) i dev p m h =
    let w : ℕ = dev h 0x1F0 in
    let m1 : Memory = store8 (store8 m (p + i * 2) (w % 2 ^ 8)) (p + i * 2 + 1) 0 in
    let (ws, len, e, gave) = read_words_lem left (i + 1) dev p m1 (in16 0x1F0 ∷ h) in
    (
      w ∷ ws,
      omega (arith, len),
      rw (read_words, low_byte w, no_high_byte w) (e ∙ ap (λ q. laid ws q m1) (omega arith)),
      rw (read_words, low_byte w, no_high_byte w)
          (gave ∙ append_assoc (words_in dev h) (w ∷ []) ws),
    )

-- A run of the loop over the sectors ends, and lays the words that the drive gave from `p` on.
abbrev Reads : Device → ℕ → ℕ → Memory → History → Option (Memory × History) → Type 0
Reads dev p n m h r =
    (m' : Memory) × (h' : History) × (ws : List ℕ) × (r ≡ some (m', h'))
    × (length ws ≡ n)
    × (m' ≡ laid ws p m)
    × Gave dev h h' ws

module _ (fuel : ℕ) (dev : Device) (lba buffer k : ℕ) (prompt : IsPrompt dev k)
    (enough : k ≤ fuel) where
  read_sectors-Reads :
      (left sector : ℕ) (m : Memory) (h : History)
      → (sector + left) * 512 ≤ 2 ^ 32
      → Reads dev
          (buffer + sector * 512)
          (256 * left)
          m
          h
          (read_sectors left sector fuel dev lba buffer m h)
  unfolding read_sectors laid
  read_sectors-Reads zero sector m h fits = (m, h, [], refl, refl, refl, sym (append-nil _))
  read_sectors-Reads (suc left) sector m h fits =
      let p : ℕ = buffer + u32 (sector * 512) in
      let here : p ≡ buffer + sector * 512 = omega arith in
      let (h1, e, _, kept) =
        start_sector-ends fuel dev ata_cmd_read_sectors (u32 (lba + sector)) k h prompt enough in
      let (ws, len, laid_is, gave) = read_words_lem 256 0 dev p m h1 in
      let r : Memory × History = read_words 256 0 dev p m h1 in
      let (m', h', ws', e', len', laid_is', gave') =
        read_sectors-Reads left (sector + 1) r.0 r.1 (omega arith) in
      (
        m',
        h',
        ws ++ ws',
        rw (read_sectors, e) e',
        omega (arith, length-append ws ws', len, len'),
        laid_is'
            ∙ (λ j. laid ws' (next ws len j) (laid_is j))
            ∙ ap (λ q. laid ws' (buffer + sector * 512 + 2 * length ws) (laid ws q m)) (omega arith)
            ∙ sym (laid-append ws ws' (buffer + sector * 512) m),
        gave'
            ∙ ap (λ l. l ++ ws') (gave ∙ ap (λ l. l ++ ws) kept)
            ∙ append_assoc (words_in dev h) ws ws',
      )
    where
      next :
          (ws : List ℕ)
          → length ws ≡ 256
          → buffer + (sector + 1) * 512 ≡ buffer + sector * 512 + 2 * length ws
      next ws len = omega arith

-- If the buffer is not NULL, the sum of block and count, modulo 2^32, is at most the number of
-- sectors and the bytes asked for number at most 2^32, then on a drive that gets ready in time,
-- with fuel for that time, `disk_read` ends with 0, has read 256 words for each sector from the
-- data port, and leaves in the buffer, in the order of the reads, the low byte of each word that
-- the drive gave and a 0 behind it, whatever the high byte was; it changes nothing else.
pub disk_read_lem :
    (fuel : ℕ) (dev : Device) (lba buffer count k : ℕ) (m : Memory) (h : History)
    → IsPrompt dev k
    → k ≤ fuel
    → buffer ≢ 0
    → u32 (lba + count) ≤ info.sector_count
    → count * 512 ≤ 2 ^ 32
    → (m' : Memory) × (h' : History) × (ws : List ℕ) × (disk_read fuel dev lba buffer count m h
        ≡ some (pos 0, m', h'))
      × (length ws ≡ 256 * count)
      × (words_in dev h' ≡ words_in dev h ++ ws)
      × HalfRead ws buffer m m'
unfolding disk_read
disk_read_lem fuel dev lba buffer count k m h prompt enough there fits bytes =
    let (m', h', ws, e, len, laid_is, gave) =
      read_sectors-Reads fuel dev lba buffer k prompt enough count 0 m h (omega arith) in
    (
      m',
      h',
      ws,
      rw (==-false buffer 0 there, ltb-false info.sector_count (u32 (lba + count)) fits, e),
      len,
      gave,
      subst (HalfRead ws buffer m) (sym (laid_is ∙ ap (λ q. laid ws q m) (omega arith)))
          (laid-HalfRead ws buffer m),
    )

-- The test of the range wraps: on a drive that gets ready in time a read of at most as many
-- sectors as there are, from a block behind the last one, is carried out if the sum of block and
-- count reaches 2^32.
pub disk_read_beyond :
    (fuel : ℕ) (dev : Device) (lba buffer count k : ℕ) (m : Memory) (h : History)
    → IsPrompt dev k
    → k ≤ fuel
    → buffer ≢ 0
    → info.sector_count < lba
    → lba < 2 ^ 32
    → 2 ^ 32 ≤ lba + count
    → count ≤ info.sector_count
    → (m' : Memory) × (h' : History) × (disk_read fuel dev lba buffer count m h
        ≡ some (pos 0, m', h'))
disk_read_beyond fuel dev lba buffer count k m h prompt enough there behind word wraps few =
    let (m', h', _, e, _, _, _) =
      disk_read_lem fuel dev lba buffer count k m h prompt enough there (omega arith)
        (omega arith) in
    (m', h', e)
