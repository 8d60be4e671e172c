-- ===== src/Multiboot/Tests.antt =====
-- A boot information at 0x1000 with one module, whose string is "disk".
use lumen_os.Prelude.{ℕ, ◌≡◌, refl, some, List, [], ◌∷◌, arith, ◌==◌, if◌then◌else◌, codes}
use lumen_os.Memory.{Memory}
use lumen_os.Memory.Words.{load32}
use lumen_os.Multiboot.{found, info_mods_addr, multiboot_find_module}
use lumen_os.Multiboot.Laws.{Module, ModulesAt, occurs, multiboot_find_module_lem}

-- A place in the memory below, and the byte there; every other byte is 0.
abbrev image : List (ℕ × ℕ)
image =
    (0x1000, 8)
    ∷ (0x1014, 1)
    ∷ (0x1019, 0x20)
    ∷ (0x2001, 0x30)
    ∷ (0x2005, 0x34)
    ∷ (0x2009, 0x40)
    ∷ (0x4000, b'd')
    ∷ (0x4001, b'i')
    ∷ (0x4002, b's')
    ∷ (0x4003, b'k')
    ∷ (0x5000, b's')
    ∷ (0x5001, b'k')
    ∷ []

abbrev at_place : List (ℕ × ℕ) → Memory
at_place [] x = 0
at_place ((a, v) ∷ rest) x = if x == a then v else at_place rest x

abbrev disk_module : Module
disk_module = record { start = 0x3000; end = 0x3400; text = some (codes "disk") }

disk_module-ModulesAt :
    ModulesAt 5 (at_place image) (info_mods_addr (at_place image) 0x1000) (disk_module ∷ [])
unfolding load32
disk_module-ModulesAt = (
  refl,
  refl,
  (
    omega arith,
    (
      refl,
      omega arith,
      omega arith,
      (
        refl,
        omega arith,
        omega arith,
        (refl, omega arith, omega arith, (refl, omega arith, omega arith, refl)),
      ),
    ),
    omega arith,
  ),
  tt,
)

multiboot_find_module_example :
    multiboot_find_module 5 (at_place image) 0x1000 0x5000
    ≡ found (record { addr = 0x3000; size = 0x400 })
unfolding load32 occurs
multiboot_find_module_example =
    multiboot_find_module_lem 5 (at_place image) 0x1000 0x5000 (codes "sk") (disk_module ∷ [])
      (omega arith) (omega arith) refl
      (refl, omega arith, omega arith, (refl, omega arith, omega arith, refl)) disk_module-ModulesAt
