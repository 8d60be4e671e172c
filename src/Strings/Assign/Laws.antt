-- ===== src/Strings/Assign/Laws.antt =====
-- What `strcpy` and `strncpy` leave in memory.
use lumen_os.Prelude.{
  ℕ, suc, zero, ◌+◌, ◌-◌, ◌<◌, ◌≤◌, ◌≡◌, ◌⊎◌, arith, if◌then◌else◌, some, List, [], ◌∷◌, length,
  fun_ext, ltb, ap, ==-true, ==-false,
}
use native.Mathlib.Nat.{add-zero, add_assoc}
use lumen_os.Memory.{Memory, store8, store8_at, within}
use lumen_os.Memory.Text.{IsText, IsText-frame}
use lumen_os.Strings.Copy.{moved}
use lumen_os.Strings.Assign.{pad, strncpy_from, strncpy, strcpy_from, strcpy}

-- What a copy of the string `cs` at `s` into a field of `n` bytes at `d` has to leave.
abbrev pub padded : Memory → ℕ → ℕ → ℕ → ℕ → Memory
padded m d s n len x =
    if within d n x then (if ltb (x - d) len then m (s + (x - d)) else 0) else m x

pad_lem :
    (left i d : ℕ) (m : Memory) (x : ℕ)
    → pad left i d m x ≡ (if within (d + i) left x then 0 else m x)
unfolding pad store8
pad_lem zero i d m x = ground arith
pad_lem (suc left) i d m x = ground (arith, pad_lem left (i + 1) d (store8 m (d + i) 0) x)

-- A write outside a string leaves it there.
IsText-store8 :
    (m : Memory) (a v p : ℕ) (cs : List ℕ)
    → (a < p) ⊎ (p + length cs < a)
    → IsText m p cs
    → IsText (store8 m a v) p cs
unfolding store8
IsText-store8 m a v p cs out t = IsText-frame m (store8 m a v) p cs (λ x lo hi. ground arith) t

strncpy_from_lem :
    (left i d s : ℕ) (m : Memory) (cs : List ℕ) (x : ℕ)
    → IsText m (s + i) cs
    → (d + left ≤ s) ⊎ (s + length cs < d)
    → strncpy_from left i d s m x ≡ padded m (d + i) (s + i) left (length cs) x
unfolding strncpy_from
strncpy_from_lem zero i d s m cs x t apart = ground arith
strncpy_from_lem (suc left) i d s m [] x t apart = ground (arith, pad_lem (suc left) i d m x)
strncpy_from_lem (suc left) i d s m (c ∷ cs) x t apart =
    let m' : Memory = store8 m (d + i) (m (s + i)) in
    let rest : IsText m' (s + (i + 1)) cs =
      rw (← add_assoc s i 1)
        (IsText-store8 m (d + i) (m (s + i)) (s + i + 1) cs (omega arith) t.3) in
    ground (
      arith,
      store8_at m (d + i) (m (s + i)) x,
      strncpy_from_lem left (i + 1) d s m' cs x rest,
      store8_at m (d + i) (m (s + i)) (s + i + 1 + (x - (d + i + 1))),
    )

-- If the field and the source string do not overlap, `strncpy` returns its destination, fills the
-- `n` bytes there with the string and zeros behind it (no zero if the string has `n` bytes or
-- more) and changes nothing else.
pub strncpy_lem :
    (m : Memory) (d s n : ℕ) (cs : List ℕ)
    → IsText m s cs
    → (d + n ≤ s) ⊎ (s + length cs < d)
    → strncpy m d s n ≡ (d, padded m d s n (length cs))
unfolding strncpy
strncpy_lem m d s n cs t apart = λ i. (d, fun_ext (λ x. at x) i)
  where
    at : (x : ℕ) → strncpy_from n 0 d s m x ≡ padded m d s n (length cs) x
    at x = rw (strncpy_from_lem n 0 d s m cs x (rw add-zero t) apart) (ground arith)

moved-store8 :
    (d s n : ℕ) (m : Memory)
    → (d + n ≤ s) ⊎ (s + n < d)
    → (x : ℕ) → moved (store8 m d (m s)) (d + 1) (s + 1) n x ≡ moved m d s (suc n) x
unfolding store8
moved-store8 d s n m apart x = ground arith

strcpy_from_lem :
    (fuel d s : ℕ) (m : Memory) (cs : List ℕ)
    → IsText m s cs
    → (d + length cs < s) ⊎ (s + length cs < d)
    → length cs < fuel
    → strcpy_from fuel d s m ≡ some (moved m d s (suc (length cs)))
unfolding strcpy_from
strcpy_from_lem zero d s m cs t apart h = absurd (omega arith)
strcpy_from_lem (suc f) d s m [] t apart h = rw (==-true (m s) 0 t, fun_ext same)
  where
    same : (x : ℕ) → store8 m d (m s) x ≡ moved m d s 1 x
    same x = ground (arith, store8_at m d (m s) x)
strcpy_from_lem (suc f) d s m (c ∷ cs) t apart h =
    rw
      (
        ==-false (m s) 0 (ground arith),
        strcpy_from_lem f (d + 1) (s + 1) (store8 m d (m s)) cs
            (IsText-store8 m d (m s) (s + 1) cs (omega arith) t.3) (omega arith) (omega arith),
      )
      (ap some (fun_ext (moved-store8 d s (suc (length cs)) m (omega arith))))

-- If the two ranges do not overlap and the fuel exceeds the length of the source, `strcpy` returns
-- its destination, copies the string with its zero byte there and changes nothing else.
pub strcpy_lem :
    (fuel : ℕ) (m : Memory) (d s : ℕ) (cs : List ℕ)
    → IsText m s cs
    → (d + length cs < s) ⊎ (s + length cs < d)
    → length cs < fuel
    → strcpy fuel m d s ≡ some (d, moved m d s (suc (length cs)))
unfolding strcpy
strcpy_lem fuel m d s cs t apart h = rw (strcpy_from_lem fuel d s m cs t apart h, strcpy)
