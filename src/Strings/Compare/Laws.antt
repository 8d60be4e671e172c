-- ===== src/Strings/Compare/Laws.antt =====
-- The comparisons against comparisons of lists of bytes.
use lumen_os.Prelude.{
  ℕ, suc, zero, ◌+◌, ◌<◌, ◌≤◌, ◌≡◌, ◌≢◌, ◌↔◌, refl, arith, ◌==◌, if◌then◌else◌, some, List, [], ◌∷◌,
  length,
}
use native.Mathlib.Nat.{add-zero}
use lumen_os.Prelude.Int.{ℤ, pos, sub_ℕ}
use lumen_os.Memory.{Memory}
use lumen_os.Memory.Text.{IsText}
use lumen_os.Strings.Compare.{memcmp_from, memcmp, strncmp_from, strncmp, strcmp}

-- The difference at the first place where two strings differ, the end of a string counting as 0.
abbrev pub difference : List ℕ → List ℕ → ℤ
difference [] [] = pos 0
difference [] (d ∷ ds) = sub_ℕ 0 d
difference (c ∷ cs) [] = sub_ℕ c 0
difference (c ∷ cs) (d ∷ ds) = if c == d then difference cs ds else sub_ℕ c d

-- The same over at most `n` bytes.
abbrev pub difference_upto : ℕ → List ℕ → List ℕ → ℤ
difference_upto zero cs ds = pos 0
difference_upto (suc n) [] [] = pos 0
difference_upto (suc n) [] (d ∷ ds) = sub_ℕ 0 d
difference_upto (suc n) (c ∷ cs) [] = sub_ℕ c 0
difference_upto (suc n) (c ∷ cs) (d ∷ ds) = if c == d then difference_upto n cs ds else sub_ℕ c d

-- With fuel above the length of the first string `strcmp` returns the difference of the first
-- two bytes that differ, and 0 if none do.
pub strcmp_lem :
    (fuel : ℕ) (m : Memory) (a b : ℕ) (cs ds : List ℕ)
    → IsText m a cs
    → IsText m b ds
    → length cs < fuel
    → strcmp fuel m a b ≡ some (difference cs ds)
unfolding strcmp
strcmp_lem zero m a b cs ds tc td h = absurd (omega arith)
strcmp_lem (suc f) m a b [] [] tc td h = ground arith
strcmp_lem (suc f) m a b [] (d ∷ ds) tc td h = ground arith
strcmp_lem (suc f) m a b (c ∷ cs) [] tc td h = ground arith
strcmp_lem (suc f) m a b (c ∷ cs) (d ∷ ds) tc td h =
    ground (arith, strcmp_lem f m (a + 1) (b + 1) cs ds)

strncmp_from_lem :
    (left i : ℕ) (m : Memory) (a b : ℕ) (cs ds : List ℕ)
    → IsText m (a + i) cs
    → IsText m (b + i) ds
    → strncmp_from left i m a b ≡ difference_upto left cs ds
unfolding strncmp_from
strncmp_from_lem zero i m a b cs ds tc td = refl
strncmp_from_lem (suc f) i m a b [] [] tc td = ground arith
strncmp_from_lem (suc f) i m a b [] (d ∷ ds) tc td = ground arith
strncmp_from_lem (suc f) i m a b (c ∷ cs) [] tc td = ground arith
strncmp_from_lem (suc f) i m a b (c ∷ cs) (d ∷ ds) tc td =
    ground (arith, strncmp_from_lem f (i + 1) m a b cs ds)

-- `strncmp` compares like `strcmp`, but looks at no more than `n` bytes of the strings.
pub strncmp_lem :
    (m : Memory) (a b n : ℕ) (cs ds : List ℕ)
    → IsText m a cs
    → IsText m b ds
    → strncmp m a b n ≡ difference_upto n cs ds
unfolding strncmp
strncmp_lem m a b n cs ds tc td = strncmp_from_lem n 0 m a b cs ds (rw add-zero tc) (rw add-zero td)

-- Two strings without zero bytes have difference 0 exactly when they are equal.
abbrev pub NonZero : List ℕ → Type 0
NonZero [] = Unit {0}
NonZero (c ∷ cs) = (c ≢ 0) × NonZero cs

pub NonZero-IsText : (m : Memory) (p : ℕ) (cs : List ℕ) → IsText m p cs → NonZero cs
NonZero-IsText m p [] t = tt
NonZero-IsText m p (c ∷ cs) t = (t.1, NonZero-IsText m (p + 1) cs t.3)

difference-eq : (cs ds : List ℕ) → NonZero cs → NonZero ds → difference cs ds ≡ pos 0 → cs ≡ ds
difference-eq [] [] nc nd e = refl
difference-eq [] (d ∷ ds) nc nd e = ground arith
difference-eq (c ∷ cs) [] nc nd e = ground arith
difference-eq (c ∷ cs) (d ∷ ds) nc nd e = ground (arith, difference-eq cs ds)

difference_self : (cs : List ℕ) → difference cs cs ≡ pos 0
difference_self [] = refl
difference_self (c ∷ cs) = ground (arith, difference_self cs)

-- With enough fuel `strcmp` returns 0 exactly on equal strings.
pub strcmp-zero_iff :
    (fuel : ℕ) (m : Memory) (a b : ℕ) (cs ds : List ℕ)
    → IsText m a cs
    → IsText m b ds
    → length cs < fuel
    → (strcmp fuel m a b ≡ some (pos 0)) ↔ (cs ≡ ds)
strcmp-zero_iff fuel m a b cs ds tc td h = (
  λ e.
      difference-eq cs ds (NonZero-IsText m a cs tc) (NonZero-IsText m b ds td)
        (cc (strcmp_lem fuel m a b cs ds tc td h)),
  λ e. rw (strcmp_lem fuel m a b cs ds tc td h, e, difference_self),
)

-- The two blocks of `n` bytes agree from index `i` on.
memcmp_from-zero_iff :
    (left i : ℕ) (m : Memory) (a b : ℕ)
    → (memcmp_from left i m a b ≡ pos 0) ↔ ((k : ℕ) → i ≤ k → k < i + left → m (a + k) ≡ m (b + k))
unfolding memcmp_from
memcmp_from-zero_iff zero i m a b = (λ e k lo hi. absurd (omega arith), λ all. refl)
memcmp_from-zero_iff (suc left) i m a b = (
  λ e k lo hi. ground (
    arith,
    λ (r : memcmp_from left (i + 1) m a b ≡ pos 0) (le : i + 1 ≤ k).
        (memcmp_from-zero_iff left (i + 1) m a b).0 r k le (omega arith),
  ),
  λ all. ground (
    arith,
    all i,
    (memcmp_from-zero_iff left (i + 1) m a b).1 (λ k lo hi. all k (omega arith) (omega arith)),
  ),
)

-- `memcmp` returns 0 exactly when the two blocks of `n` bytes agree at every index.
pub memcmp-zero_iff :
    (m : Memory) (a b n : ℕ) → (memcmp m a b n ≡ pos 0) ↔ ((k : ℕ) → k < n → m (a + k) ≡ m (b + k))
unfolding memcmp
memcmp-zero_iff m a b n = (
  λ e k h. (memcmp_from-zero_iff n 0 m a b).0 e k (omega arith) (omega arith),
  λ all. (memcmp_from-zero_iff n 0 m a b).1 (λ k lo hi. all k (omega arith)),
)

memcmp_from-first :
    (left i : ℕ) (m : Memory) (a b k : ℕ)
    → i ≤ k
    → k < i + left
    → ((j : ℕ) → j < k → m (a + j) ≡ m (b + j))
    → m (a + k) ≢ m (b + k)
    → memcmp_from left i m a b ≡ sub_ℕ (m (a + k)) (m (b + k))
unfolding memcmp_from
memcmp_from-first zero i m a b k lo hi same ne = absurd (omega arith)
memcmp_from-first (suc left) i m a b k lo hi same ne =
    ground (arith, same i, memcmp_from-first left (i + 1) m a b k)

-- If the first `k` bytes of the two blocks agree and the bytes at `k`, below `n`, differ, then
-- `memcmp` returns the difference of these two bytes.
pub memcmp-first :
    (m : Memory) (a b n k : ℕ)
    → k < n
    → ((j : ℕ) → j < k → m (a + j) ≡ m (b + j))
    → m (a + k) ≢ m (b + k)
    → memcmp m a b n ≡ sub_ℕ (m (a + k)) (m (b + k))
unfolding memcmp
memcmp-first m a b n k h same ne = memcmp_from-first n 0 m a b k (omega arith) (omega arith) same ne
