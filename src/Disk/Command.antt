-- ===== src/Disk/Command.antt =====
-- The registers of the drive after a command.
use lumen_os.Prelude.{
  ℕ, ◌+◌, ◌*◌, ◌/◌, ◌%◌, ◌^◌, ◌<◌, ◌≡◌, refl, true, [], ◌∷◌, arith, ◌==◌, if◌then◌else◌, ==_iff,
}
use lumen_os.Prelude.Bits.{bit_and_mask, holds_below, holds_below-at}
use Prim.Native.Nat.{bit_or}
use lumen_os.Port.{History, out8, in8, out16, in16, outb}
use lumen_os.Disk.{
  command, ata_reg_seccnt, ata_reg_lba_lo, ata_reg_lba_mid, ata_reg_lba_hi, ata_reg_drive,
  ata_reg_cmd,
}

-- The last byte written to a port; 0 if there is none.
abbrev pub register : ℕ → History → ℕ
register port [] = 0
register port (out8 q v ∷ h) = if q == port then v else register port h
register port (in8 q ∷ h) = register port h
register port (out16 q v ∷ h) = register port h
register port (in16 q ∷ h) = register port h

-- The block that the drive takes from its registers in LBA mode: 28 bits.
abbrev pub block_of : History → ℕ
block_of h =
    register ata_reg_lba_lo h
    + 2 ^ 8 * register ata_reg_lba_mid h
    + 2 ^ 16 * register ata_reg_lba_hi h
    + 2 ^ 24 * (register ata_reg_drive h % 16)

drive_table : holds_below (λ n. bit_or 0xE0 n == 0xE0 + n) 16 ≡ true
unfolding holds_below
drive_table = refl

drive_lem : (n : ℕ) → n < 16 → bit_or 0xE0 n ≡ 0xE0 + n
drive_lem n h = (==_iff _ _).0 (holds_below-at (λ n. bit_or 0xE0 n == 0xE0 + n) 16 n h drive_table)

-- For a command byte and a block number below 2^28, the drive reads that block number from its
-- registers, a count of one sector, the first drive in LBA mode, and the command.
pub command_lem :
    (cmd lba : ℕ) (h : History)
    → cmd < 256
    → lba < 2 ^ 28
    → (block_of (command cmd lba h) ≡ lba)
      × (register ata_reg_seccnt (command cmd lba h) ≡ 1)
      × (register ata_reg_drive (command cmd lba h) / 16 ≡ 0xE)
      × (register ata_reg_cmd (command cmd lba h) ≡ cmd)
unfolding command outb
command_lem cmd lba h hc hl =
    rw
      (
        bit_and_mask 8 lba,
        bit_and_mask 8 (lba / 2 ^ 8),
        bit_and_mask 8 (lba / 2 ^ 16),
        bit_and_mask 4 (lba / 2 ^ 24),
        drive_lem (lba / 2 ^ 24 % 2 ^ 4) (omega arith),
      )
      (omega arith, refl, omega arith, omega arith)
