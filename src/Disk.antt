-- ===== src/Disk.antt =====
-- src/stage0/disk/disk.c: the ATA disk. `disk_init` does nothing. A wait for the drive runs on
-- fuel, and the functions give `none` when that runs out. Their result is the `int` that they
-- return, and the memory that a read fills; the bus is the history of the ports.
pub mod Command
pub mod Wait
pub mod Read
pub mod Write
mod Tests
use lumen_os.Prelude.{
  ℕ, zero, suc, ◌+◌, ◌-◌, ◌*◌, ◌/◌, ◌%◌, ◌^◌, ◌≤◌, ◌<◌, ◌≡◌, refl, sym, ap, ◌∙◌, fun_ext, ◌≢◌, ◌↔◌,
  ◌⊎◌, inl, inr, Bool, true, false, ◌&&◌, ◌||◌, not, Option, none, some, List, [], ◌∷◌, ◌++◌,
  append-nil, append_assoc, arith, ltb, leb, ◌==◌, if◌then◌else◌, u8, u16, u32, ==-true, ==-false,
  ltb-true, ltb-false, ==_iff, Bool-cases, Option-cases, u8-byte, length, get_elem?, length-append,
  codes,
}
use native.Mathlib.Nat.{le_trans, add-zero, mod-eq_of_lt, add_assoc, add_comm, mod-lt}
use Prim.Native.Nat.{bit_and, bit_or}
use lumen_os.Prelude.Int.{ℤ, pos, negsuc}
use lumen_os.Memory.{Memory, store8}
use lumen_os.Port.{History, Device, outb, inb, outw, inw}

abbrev pub ata_reg_data : ℕ
ata_reg_data = 0x1F0

abbrev pub ata_reg_seccnt : ℕ
ata_reg_seccnt = 0x1F2

abbrev pub ata_reg_lba_lo : ℕ
ata_reg_lba_lo = 0x1F3

abbrev pub ata_reg_lba_mid : ℕ
ata_reg_lba_mid = 0x1F4

abbrev pub ata_reg_lba_hi : ℕ
ata_reg_lba_hi = 0x1F5

abbrev pub ata_reg_drive : ℕ
ata_reg_drive = 0x1F6

abbrev pub ata_reg_status : ℕ
ata_reg_status = 0x1F7

abbrev pub ata_reg_cmd : ℕ
ata_reg_cmd = 0x1F7

abbrev pub ata_reg_ctrl : ℕ
ata_reg_ctrl = 0x3F6

abbrev pub ata_cmd_read_sectors : ℕ
ata_cmd_read_sectors = 0x20

abbrev pub ata_cmd_write_sectors : ℕ
ata_cmd_write_sectors = 0x30

-- `disk_info_t`
pub record DiskInfo : Type 0 where
  pub sector_count : ℕ
  pub sector_size : ℕ

abbrev pub info : DiskInfo
info = record { sector_count = 1024 * 1024; sector_size = 512 }

-- A loop that reads the status until it passes the test.
unfoldable pub poll_until : (ℕ → Bool) → ℕ → Device → History → Option History
unfolding inb
poll_until test zero dev h = none
poll_until test (suc f) dev h =
    let (v, h') = inb dev ata_reg_status h in
    elim (test v) [ true ↦ some h' | false ↦ poll_until test f dev h' ]

abbrev pub not_busy : ℕ → Bool
not_busy v = bit_and v 0x80 == 0

abbrev pub data_ready : ℕ → Bool
data_ready v = not (bit_and v 0x08 == 0)

unfoldable pub ata_wait_bsy : ℕ → Device → History → Option History
ata_wait_bsy fuel dev h = poll_until not_busy fuel dev h

unfoldable pub ata_wait_drq : ℕ → Device → History → Option History
ata_wait_drq fuel dev h = poll_until data_ready fuel dev h

-- The bytes that both functions write to the drive for one sector, which is at `lba`.
unfoldable pub command : ℕ → ℕ → History → History
unfolding outb
command cmd lba h =
    let h1 = outb ata_reg_ctrl 0x00 h in
    let h2 = outb ata_reg_seccnt 1 h1 in
    let h3 = outb ata_reg_lba_lo (bit_and lba 0xFF) h2 in
    let h4 = outb ata_reg_lba_mid (bit_and (lba / 2 ^ 8) 0xFF) h3 in
    let h5 = outb ata_reg_lba_hi (bit_and (lba / 2 ^ 16) 0xFF) h4 in
    let h6 = outb ata_reg_drive (bit_or 0xE0 (bit_and (lba / 2 ^ 24) 0x0F)) h5 in
    outb ata_reg_cmd cmd h6

-- The waits around the command: the part of the loops before the data.
unfoldable pub start_sector : ℕ → Device → ℕ → ℕ → History → Option History
start_sector fuel dev cmd lba h = elim (ata_wait_bsy fuel dev h) [
  | none ↦ none
  | some h1 ↦ elim (ata_wait_bsy fuel dev (command cmd lba h1)) [
    | none ↦ none
    | some h2 ↦ ata_wait_drq fuel dev h2
  ]
]

-- The words from `i` on, with `left` words left, into the sector's part of the buffer at `p`.
unfoldable pub read_words : ℕ → ℕ → Device → ℕ → Memory → History → Memory × History
unfolding inw store8
read_words zero i dev p m h = (m, h)
read_words (suc left) i dev p m h =
    let (word, h') = inw dev ata_reg_data h in
    let m1 = store8 m (p + i * 2) (bit_and word 0xFF) in
    let m2 = store8 m1 (p + i * 2 + 1) (bit_and (word / 2 ^ 8) 0xFF) in
    read_words left (i + 1) dev p m2 h'

-- The loop over the sectors from `sector` on, with `left` sectors left.
unfoldable pub read_sectors :
    ℕ → ℕ → ℕ → Device → ℕ → ℕ → Memory → History → Option (Memory × History)
unfolding start_sector read_words
read_sectors zero sector fuel dev lba buffer m h = some (m, h)
read_sectors (suc left) sector fuel dev lba buffer m h =
    elim (start_sector fuel dev ata_cmd_read_sectors (u32 (lba + sector)) h) [
      | none ↦ none
      | some h1 ↦
          let (m', h') = read_words 256 0 dev (buffer + u32 (sector * info.sector_size)) m h1 in
          read_sectors left (sector + 1) fuel dev lba buffer m' h'
    ]

unfoldable pub disk_read : ℕ → Device → ℕ → ℕ → ℕ → Memory → History → Option (ℤ × Memory × History)
unfolding read_sectors
disk_read fuel dev lba buffer count m h =
    if (buffer == 0) || ltb info.sector_count (u32 (lba + count))
    then some (negsuc 0, m, h)
    else (elim (read_sectors count 0 fuel dev lba buffer m h) [
      | none ↦ none
      | some (m', h') ↦ some (pos 0, m', h')
    ])

unfoldable pub write_words : ℕ → ℕ → ℕ → Memory → History → History
unfolding outw
write_words zero i p m h = h
write_words (suc left) i p m h =
    write_words left (i + 1) p m
      (outw ata_reg_data (u16 (bit_or (m (p + i * 2)) (m (p + i * 2 + 1) * 2 ^ 8))) h)

unfoldable pub write_sectors : ℕ → ℕ → ℕ → Device → ℕ → ℕ → Memory → History → Option History
unfolding start_sector write_words
write_sectors zero sector fuel dev lba buffer m h = some h
write_sectors (suc left) sector fuel dev lba buffer m h =
    elim (start_sector fuel dev ata_cmd_write_sectors (u32 (lba + sector)) h) [
      | none ↦ none
      | some h1 ↦
          write_sectors left (sector + 1) fuel dev lba buffer m
            (write_words 256 0 (buffer + u32 (sector * info.sector_size)) m h1)
    ]

unfoldable pub disk_write : ℕ → Device → ℕ → ℕ → ℕ → Memory → History → Option (ℤ × History)
unfolding write_sectors
disk_write fuel dev lba buffer count m h =
    if (buffer == 0) || ltb info.sector_count (u32 (lba + count))
    then some (negsuc 0, h)
    else (elim (write_sectors count 0 fuel dev lba buffer m h) [
      | none ↦ none
      | some h' ↦ some (pos 0, h')
    ])

pub disk_get_info : DiskInfo
disk_get_info = info
