-- ===== src/Fat/Directory/Outcomes.antt =====
-- What an outcome of the loop over a cluster has to be.
use lumen_os.Prelude.{
  ℕ, ◌+◌, ◌*◌, ◌<◌, ◌≡◌, sym, ap, ◌∙◌, ◌≢◌, ◌⊎◌, inl, inr, arith, ltb, ◌==◌, Bool-cases,
}
use mathlib.Core.Path.{subst}
use lumen_os.Memory.{Memory}
use lumen_os.Fat.Directory.{dirent_size, Scanned, matched, end_of_directory, end_of_cluster}
use lumen_os.Fat.Directory.Scan.{HasName, IsPassed, Outcome}

trichotomy : (i j : ℕ) → (i < j) ⊎ ((i ≡ j) ⊎ (j < i))
trichotomy i j = elim (Bool-cases (ltb i j)) [
  | inl h ↦ inl (ground (arith, h))
  | inr h ↦ elim (Bool-cases (i == j)) [
    | inl e ↦ inr (inl (ground (arith, e)))
    | inr e ↦ inr (inr (ground (arith, h, e)))
  ]
]

-- What the outcome of a loop has to be if the first entry that has the name is known.
pub Outcome-matched :
    (m : Memory) (name83 e n i : ℕ) (r : Scanned)
    → i < n
    → m (e + dirent_size * i) ≢ 0
    → HasName m name83 (e + dirent_size * i)
    → ((j : ℕ) → j < i → IsPassed m name83 (e + dirent_size * j))
    → Outcome m name83 e n r
    → r ≡ matched (e + dirent_size * i)
Outcome-matched m name83 e n i (matched p) lt present named before
      (i', lt', at, ne, named', before') =
    elim (trichotomy i i') [
      | inl below ↦ absurd ((before' i below).other named)
      | inr (inl same) ↦ ap matched (at ∙ ap (λ k. e + dirent_size * k) (sym same))
      | inr (inr above) ↦ absurd ((before i' above).other (subst (HasName m name83) at named'))
    ]
Outcome-matched m name83 e n i end_of_directory lt present named before (i', lt', z, before') =
    elim (trichotomy i i') [
      | inl below ↦ absurd ((before' i below).other named)
      | inr (inl same) ↦ absurd (present (ap (λ k. m (e + dirent_size * k)) same ∙ z))
      | inr (inr above) ↦ absurd ((before i' above).not_last z)
    ]
Outcome-matched m name83 e n i end_of_cluster lt present named before all =
    absurd ((all i lt).other named)
