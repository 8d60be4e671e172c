-- ===== src/Disk/Tests.antt =====
-- A drive that is never busy and always asks for data.
use lumen_os.Prelude.{ℕ, ◌/◌, ◌≡◌, refl, some, List, [], arith, length}
use lumen_os.Prelude.Int.{pos}
use lumen_os.Memory.{Memory}
use lumen_os.Port.{History, Device}
use lumen_os.Disk.{command, disk_read, ata_reg_drive, ata_reg_cmd, ata_reg_seccnt, disk_write}
use lumen_os.Disk.Command.{register, block_of, command_lem}
use lumen_os.Disk.Wait.{IsPrompt, words_out, words_in}
use lumen_os.Disk.Write.{words_at, disk_write_lem}
use lumen_os.Disk.Read.{HalfRead, disk_read_lem}

abbrev quick_drive : Device
quick_drive h port = 0x08

quick_drive-IsPrompt : IsPrompt quick_drive 1
quick_drive-IsPrompt = record {
  idle = λ h. record { round = 0; in_time = omega arith; passes = refl };
  asks = λ cmd lba j h. record { round = 0; in_time = omega arith; passes = refl };
}

disk_read_example :
    (m' : Memory) × (h' : History) × (ws : List ℕ) × (disk_read 1 quick_drive 5 0x8000 2 (λ x. 7) []
      ≡ some (pos 0, m', h'))
    × (length ws ≡ 512)
    × (words_in quick_drive h' ≡ ws)
    × HalfRead ws 0x8000 (λ x. 7) m'
disk_read_example =
    disk_read_lem 1 quick_drive 5 0x8000 2 1 (λ x. 7) [] quick_drive-IsPrompt (omega arith)
      (omega arith) (omega arith) (omega arith)

command_example :
    (block_of (command 0x20 0x123_4567 []) ≡ 0x123_4567)
    × (register ata_reg_seccnt (command 0x20 0x123_4567 []) ≡ 1)
    × (register ata_reg_drive (command 0x20 0x123_4567 []) / 16 ≡ 0xE)
    × (register ata_reg_cmd (command 0x20 0x123_4567 []) ≡ 0x20)
command_example = command_lem 0x20 0x123_4567 [] (omega arith) (omega arith)

disk_write_example :
    (h' : History) × (disk_write 1 quick_drive 5 0x8000 1 (λ x. 7) [] ≡ some (pos 0, h'))
    × (words_out h' ≡ words_at 256 0x8000 (λ x. 7))
disk_write_example =
    disk_write_lem (λ x. 7) (λ x. omega arith) 1 quick_drive 5 0x8000 1 quick_drive-IsPrompt
      (omega arith) 1 [] (omega arith) (omega arith) (omega arith)
