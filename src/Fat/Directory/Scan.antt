-- ===== src/Fat/Directory/Scan.antt =====
-- Which entry of a cluster the search takes.
use lumen_os.Prelude.{
  ℕ, zero, suc, ◌+◌, ◌*◌, ◌<◌, ◌≡◌, ap, ◌∙◌, ◌≢◌, inl, inr, true, false, arith, ◌==◌, ==_iff,
  Bool-cases,
}
use lumen_os.Prelude.Int.{ℤ, pos}
use mathlib.Core.Path.{subst}
use lumen_os.Memory.{Memory}
use lumen_os.Strings.Compare.{memcmp}
use lumen_os.Strings.Compare.Laws.{memcmp-zero_iff}
use lumen_os.Fat.Directory.{
  dirent_size, attr, signed_char, eq_int, Scanned, matched, end_of_directory, end_of_cluster,
  scan_entries,
}

-- The entry at `e` has the name at `name83`, and is not a part of a long name. Whether its first
-- byte marks it as deleted makes no difference.
pub record HasName (m : Memory) (name83 e : ℕ) : Type 0 where
  pub short_name : attr m e ≢ 0x0F
  pub same_name : (k : ℕ) → k < 11 → m (e + k) ≡ m (name83 + k)

-- The search goes on behind the entry at `e`.
pub record IsPassed (m : Memory) (name83 e : ℕ) : Type 0 where
  pub not_last : m e ≢ 0
  pub other : ¬ (HasName m name83 e)

-- What the outcome of a loop over `n` entries from `e` on says.
abbrev pub Outcome : Memory → ℕ → ℕ → ℕ → Scanned → Type 0
Outcome m name83 e n (matched p) =
    (i : ℕ) × (i < n)
    × (p ≡ e + dirent_size * i)
    × (m p ≢ 0)
    × HasName m name83 p
    × ((j : ℕ) → j < i → IsPassed m name83 (e + dirent_size * j))
Outcome m name83 e n end_of_directory =
    (i : ℕ) × (i < n)
    × (m (e + dirent_size * i) ≡ 0)
    × ((j : ℕ) → j < i → IsPassed m name83 (e + dirent_size * j))
Outcome m name83 e n end_of_cluster = (j : ℕ) → j < n → IsPassed m name83 (e + dirent_size * j)

signed-ne-deleted : (c : ℕ) → eq_int (signed_char c) 0xE5 ≡ false
signed-ne-deleted c = ground arith

signed-eq-zero : (c : ℕ) → eq_int (signed_char c) 0 ≡ (c == 0)
signed-eq-zero c = ground arith

eq_int-zero : (a : ℤ) → eq_int a 0 ≡ true → a ≡ pos 0
eq_int-zero a h = ground arith

names_equal :
    (m : Memory) (e name83 : ℕ)
    → eq_int (memcmp m e name83 11) 0 ≡ true
    → (k : ℕ) → k < 11
    → m (e + k) ≡ m (name83 + k)
names_equal m e name83 h = (memcmp-zero_iff m e name83 11).0 (eq_int-zero (memcmp m e name83 11) h)

names_differ :
    (m : Memory) (e name83 : ℕ) → eq_int (memcmp m e name83 11) 0 ≡ false → ¬ (HasName m name83 e)
names_differ m e name83 h named =
    let z : memcmp m e name83 11 ≡ pos 0 = (memcmp-zero_iff m e name83 11).1 named.same_name in
    cc (h, ap (λ a. eq_int a 0) z)

IsPassed-more :
    (m : Memory) (name83 e n : ℕ)
    → IsPassed m name83 e
    → ((j : ℕ) → j < n → IsPassed m name83 (e + dirent_size + dirent_size * j))
    → (j : ℕ) → j < suc n
    → IsPassed m name83 (e + dirent_size * j)
IsPassed-more m name83 e n first rest zero lt = subst (IsPassed m name83) (omega arith) first
IsPassed-more m name83 e n first rest (suc j) lt =
    subst (IsPassed m name83) (omega arith) (rest j (omega arith))

-- An entry that is passed, and then an outcome for those behind it.
Outcome-later :
    (m : Memory) (name83 e n : ℕ) (r : Scanned)
    → IsPassed m name83 e
    → Outcome m name83 (e + dirent_size) n r
    → Outcome m name83 e (suc n) r
Outcome-later m name83 e n (matched p) passed (i, lt, at, ne, named, before) =
    (suc i, omega arith, omega arith, ne, named, IsPassed-more m name83 e i passed before)
Outcome-later m name83 e n end_of_directory passed (i, lt, z, before) =
    (suc i, omega arith, ap m (omega arith) ∙ z, IsPassed-more m name83 e i passed before)
Outcome-later m name83 e n end_of_cluster passed all = IsPassed-more m name83 e n passed all

no_entry : (m : Memory) (name83 e : ℕ) (j : ℕ) → j < 0 → IsPassed m name83 (e + dirent_size * j)
no_entry m name83 e j lt = absurd (omega arith)

-- The loop over the entries stops at the first entry whose first byte is 0 or that has the name
-- and is not a part of a long name, whichever comes first, and says which; else it runs to the
-- end of the cluster. An entry marked as deleted counts like any other.
pub scan_entries_lem :
    (n : ℕ) (m : Memory) (e name83 : ℕ) → Outcome m name83 e n (scan_entries n m e name83)
unfolding scan_entries
scan_entries_lem zero m e name83 = λ j lt. absurd (omega arith)
scan_entries_lem (suc n) m e name83 = elim (Bool-cases (m e == 0)) [
  | inl last ↦
      rw (scan_entries, signed-eq-zero (m e), last)
        (0, omega arith, ap m (omega arith) ∙ (==_iff (m e) 0).0 last, no_entry m name83 e)
  | inr more ↦
      let present : m e ≢ 0 = ground arith in
      let later : ¬ (HasName m name83 e)
          → Outcome m name83 e (suc n) (scan_entries n m (e + dirent_size) name83) =
        λ other.
          Outcome-later m name83 e n (scan_entries n m (e + dirent_size) name83)
            (record { not_last = present; other = other })
            (scan_entries_lem n m (e + dirent_size) name83) in
      elim (Bool-cases (attr m e == 0x0F)) [
        | inl long ↦
            rw (scan_entries, signed-eq-zero (m e), more, signed-ne-deleted (m e), long)
              (later (λ named. named.short_name ((==_iff (attr m e) 0x0F).0 long)))
        | inr short ↦ elim (Bool-cases (eq_int (memcmp m e name83 11) 0)) [
          | inl same ↦
              rw (scan_entries, signed-eq-zero (m e), more, signed-ne-deleted (m e), short, same)
                (
                  0,
                  omega arith,
                  omega arith,
                  present,
                  record { short_name = ground arith; same_name = names_equal m e name83 same },
                  no_entry m name83 e,
                )
          | inr differ ↦
              rw (scan_entries, signed-eq-zero (m e), more, signed-ne-deleted (m e), short, differ)
                (later (names_differ m e name83 differ))
        ]
      ]
]
