-- ===== src/Multiboot.antt =====
-- src/stage0/multiboot: the search for a module that the boot loader left in memory.
pub mod Laws
mod Tests
use Prim.Native.Nat.{bit_and}
use lumen_os.Prelude.{
  ℕ, zero, suc, ◌+◌, ◌-◌, ◌*◌, ◌/◌, ◌%◌, ◌^◌, ◌≤◌, ◌<◌, ◌≡◌, refl, sym, ap, ◌∙◌, fun_ext, ◌≢◌, ◌↔◌,
  ◌⊎◌, inl, inr, Bool, true, false, ◌&&◌, ◌||◌, not, Option, none, some, List, [], ◌∷◌, ◌++◌,
  append-nil, append_assoc, arith, ltb, leb, ◌==◌, if◌then◌else◌, u8, u16, u32, ==-true, ==-false,
  ltb-true, ltb-false, ==_iff, Bool-cases, Option-cases, u8-byte, length, get_elem?, length-append,
  codes,
}
use native.Mathlib.Nat.{le_trans, add-zero, mod-eq_of_lt, add_assoc, add_comm, mod-lt}
use lumen_os.Memory.{Memory}
use lumen_os.Memory.Words.{load32}
use lumen_os.Strings.Scan.{strstr}

-- The fields of `multiboot_info_t` and `multiboot_module_t` at their offsets.
abbrev pub info_flags : Memory → ℕ → ℕ
info_flags m info = load32 m info

abbrev pub info_mods_count : Memory → ℕ → ℕ
info_mods_count m info = load32 m (info + 20)

abbrev pub info_mods_addr : Memory → ℕ → ℕ
info_mods_addr m info = load32 m (info + 24)

abbrev pub module_size : ℕ
module_size = 16

abbrev pub mod_start : Memory → ℕ → ℕ
mod_start m mod_ptr = load32 m mod_ptr

abbrev pub mod_end : Memory → ℕ → ℕ
mod_end m mod_ptr = load32 m (mod_ptr + 4)

abbrev pub mod_string : Memory → ℕ → ℕ
mod_string m mod_ptr = load32 m (mod_ptr + 8)

-- What goes out through `out_addr` and `out_size`.
pub record Found : Type 0 where
  pub addr : ℕ
  pub size : ℕ

-- How the search ends: a return of 1 or of 0, or a string search that runs out of fuel.
pub data Search : Type 0 where
  found : Found → Search
  not_found : Search
  out_of_fuel : Search

-- The loop at the module at `mod_ptr` with `left` modules left.
pub find_from : ℕ → ℕ → Memory → ℕ → ℕ → Search
find_from zero fuel m mod_ptr name = not_found
find_from (suc left) fuel m mod_ptr name =
    let rest = find_from left fuel m (mod_ptr + module_size) name in
    let this = found (record {
      addr = mod_start m mod_ptr;
      size = u32 (mod_end m mod_ptr + 2 ^ 32 - mod_start m mod_ptr);
    }) in
    if mod_string m mod_ptr == 0 then rest else (elim (strstr fuel m (mod_string m mod_ptr) name) [
      | none ↦ out_of_fuel
      | some p ↦ if p == 0 then rest else this
    ])

-- `info` is the pointer to the boot information, `name` the one to the text.
pub multiboot_find_module : ℕ → Memory → ℕ → ℕ → Search
multiboot_find_module fuel m info name =
    if (info == 0) || (bit_and (info_flags m info) (2 ^ 3) == 0) || (info_mods_count m info == 0)
    then not_found
    else find_from (info_mods_count m info) fuel m (info_mods_addr m info) name
