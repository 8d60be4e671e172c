-- ===== src/Multiboot/Laws.antt =====
-- The search against a search of the list of modules.
use Prim.Native.Nat.{bit_and}
use lumen_os.Prelude.{
  ap, ℕ, ◌+◌, ◌-◌, ◌^◌, ◌<◌, ◌≡◌, refl, ◌≢◌, inl, inr, Bool, true, false, Option, none, some, List,
  [], ◌∷◌, arith, ◌==◌, if◌then◌else◌, u32, ==-true, ==-false, Option-cases, length,
}
use mathlib.Core.Path.{subst}
use lumen_os.Memory.{Memory}
use lumen_os.Memory.Text.{IsText}
use lumen_os.Strings.Scan.Laws.{find_text, strstr_lem}
use lumen_os.Multiboot.{
  info_flags, info_mods_count, info_mods_addr, mod_start, mod_end, mod_string, Search, found,
  not_found, find_from, multiboot_find_module,
}

-- A module as the boot loader describes it; it may have no string.
pub record Module : Type 0 where
  pub start : ℕ
  pub end : ℕ
  pub text : Option (List ℕ)

abbrev pub TextAt : Memory → ℕ → ℕ → Option (List ℕ) → Type 0
TextAt m p fuel none = p ≡ 0
TextAt m p fuel (some cs) = (p ≢ 0) × IsText m p cs × (length cs < fuel)

-- The modules lie one behind the other at `a`, with strings that the fuel is enough for.
abbrev pub ModulesAt : ℕ → Memory → ℕ → List Module → Type 0
ModulesAt fuel m a [] = Unit {0}
ModulesAt fuel m a (x ∷ xs) =
    (mod_start m a ≡ x.start)
    × (mod_end m a ≡ x.end)
    × TextAt m (mod_string m a) fuel x.text
    × ModulesAt fuel m (a + 16) xs

abbrev pub is_some : Option ℕ → Bool
is_some none = false
is_some (some k) = true

unfoldable pub occurs : List ℕ → Option (List ℕ) → Bool
occurs ns none = false
occurs ns (some cs) = is_some (find_text ns cs)

occurs-eq : (ns cs : List ℕ) (r : Option ℕ) → find_text ns cs ≡ r → occurs ns (some cs) ≡ is_some r
unfolding occurs
occurs-eq ns cs r e = ap is_some e

occurs-none : (ns : List ℕ) → occurs ns none ≡ false
unfolding occurs
occurs-none ns = refl

-- The first module whose string has the text in it.
abbrev pub first_with : List ℕ → List Module → Search
first_with ns [] = not_found
first_with ns (x ∷ xs) =
    if occurs ns x.text
    then found (record { addr = x.start; size = u32 (x.end + 2 ^ 32 - x.start) })
    else first_with ns xs

find_from_lem :
    (fuel : ℕ) (m : Memory) (a name : ℕ) (ns : List ℕ) (xs : List Module)
    → IsText m name ns
    → ModulesAt fuel m a xs
    → find_from (length xs) fuel m a name ≡ first_with ns xs
unfolding find_from
find_from_lem fuel m a name ns [] t mods = refl
find_from_lem fuel m a name ns (x ∷ xs) t mods =
    let ih = find_from_lem fuel m (a + 16) name ns xs t mods.3 in
    elim (Option-cases x.text) [
      | inl e ↦
          let no_text : mod_string m a ≡ 0 = subst (TextAt m (mod_string m a) fuel) e mods.2 in
          rw (e, occurs-none ns, ==-true (mod_string m a) 0 no_text) ih
      | inr (cs, e) ↦
          let s : TextAt m (mod_string m a) fuel (some cs) =
            subst (TextAt m (mod_string m a) fuel) e mods.2 in
          rw
            (
              e,
              ==-false (mod_string m a) 0 s.0,
              strstr_lem fuel m (mod_string m a) name cs ns s.1 t s.2,
            )
            (elim (Option-cases (find_text ns cs)) [
              | inl absent ↦ rw (occurs-eq ns cs none absent, absent) ih
              | inr (k, at) ↦ rw (
                occurs-eq ns cs (some k) at,
                at,
                ==-false (mod_string m a + k) 0 (ground arith),
                mods.0,
                mods.1,
              )
            ])
    ]

-- If the information is there, its flag for modules is set and the list in memory is that of
-- `xs`, the search returns the address and the size of the first module whose string has the text
-- in it, and fails if there is none.
pub multiboot_find_module_lem :
    (fuel : ℕ) (m : Memory) (info name : ℕ) (ns : List ℕ) (xs : List Module)
    → info ≢ 0
    → bit_and (info_flags m info) (2 ^ 3) ≢ 0
    → info_mods_count m info ≡ length xs
    → IsText m name ns
    → ModulesAt fuel m (info_mods_addr m info) xs
    → multiboot_find_module fuel m info name ≡ first_with ns xs
unfolding multiboot_find_module
multiboot_find_module_lem fuel m info name ns xs i f c t mods =
    rw (==-false info 0 i, ==-false (bit_and (info_flags m info) (2 ^ 3)) 0 f, c)
      (from_list xs mods)
  where
    from_list :
        (ys : List Module)
        → ModulesAt fuel m (info_mods_addr m info) ys
        → (if length ys == 0
            then not_found
            else find_from (length ys) fuel m (info_mods_addr m info) name)
          ≡ first_with ns ys
    from_list [] mods' = refl
    from_list (y ∷ ys) mods' =
        rw (==-false (length (y ∷ ys)) 0 (omega arith))
          (find_from_lem fuel m (info_mods_addr m info) name ns (y ∷ ys) t mods')
