-- ===== src/Prelude/Bits.antt =====
-- `|` and `&` on words: one equation for the lowest digit, and what follows for fields of bits.
use Prim.Native.Nat.{
  bit_and, bit_or, digits, bitwise, bit_or-bitwise, bit_and-bitwise, min, max, ℕ, zero, suc, ◌+◌,
  ◌-◌, ◌*◌, ◌/◌, ◌%◌, ◌^◌, ◌≤◌, ◌<◌,
}
use mathlib.Core.Path.{◌≡◌, refl, ap}
use native.Mathlib.Nat.{le_refl, pow-suc, one-le-pow}
use mathlib.Core.Bool.{Bool, true, ◌&&◌}
use native.Mathlib.Omega.{arith}

-- The digit recursion does not depend on its fuel.
module _ (alone : ℕ → ℕ) (both : ℕ → ℕ → ℕ) where
  fuel_free : (a n m b : ℕ) → a ≤ n → a ≤ m → digits alone both n a b ≡ digits alone both m a b
  fuel_free zero zero zero b enough enough' = refl
  fuel_free zero zero (suc m) b enough enough' = refl
  fuel_free zero (suc n) zero b enough enough' = refl
  fuel_free zero (suc n) (suc m) b enough enough' = refl
  fuel_free (suc a) zero m b enough enough' = absurd (omega arith)
  fuel_free (suc a) (suc n) zero b enough enough' = absurd (omega arith)
  fuel_free (suc a) (suc n) (suc m) b enough enough' =
      rw (fuel_free (suc a / 2) n m (b / 2) (omega arith) (omega arith))

  lowest :
      (a b : ℕ)
      → bitwise alone both (suc a) b
        ≡ bitwise alone both (suc a / 2) (b / 2) * 2 + both (suc a % 2) (b % 2)
  lowest a b = omega (arith, fuel_free (suc a / 2) a (suc a / 2) (b / 2) (omega arith) (le_refl _))

pub zero-bit_or : (b : ℕ) → bit_or 0 b ≡ b
zero-bit_or b = bit_or-bitwise 0 b

pub zero-bit_and : (b : ℕ) → bit_and 0 b ≡ 0
zero-bit_and b = bit_and-bitwise 0 b

pub bit_or_digit : (a b : ℕ) → bit_or a b ≡ bit_or (a / 2) (b / 2) * 2 + max (a % 2) (b % 2)
bit_or_digit zero b = omega (arith, zero-bit_or b, zero-bit_or (b / 2))
bit_or_digit (suc a) b = simp bit_or-bitwise (lowest (λ y. y) max a b)

pub bit_and_digit : (a b : ℕ) → bit_and a b ≡ bit_and (a / 2) (b / 2) * 2 + min (a % 2) (b % 2)
bit_and_digit zero b = omega (arith, zero-bit_and b, zero-bit_and (b / 2))
bit_and_digit (suc a) b = simp bit_and-bitwise (lowest (λ y. 0) min a b)

bit_and_fuel : (n a : ℕ) → a ≤ n → bit_and a 0 ≡ 0
bit_and_fuel n zero h = refl
bit_and_fuel zero (suc a) h = absurd (omega arith)
bit_and_fuel (suc n) (suc a) h =
    omega (arith, bit_and_digit (suc a) 0, bit_and_fuel n (suc a / 2) (omega arith))

pub bit_and-zero : (a : ℕ) → bit_and a 0 ≡ 0
bit_and-zero a = bit_and_fuel a a (omega arith)

double : (q k : ℕ) → q * 2 ^ suc k ≡ 2 * (q * 2 ^ k)
double q k = omega (arith, ap (λ (t : ℕ). q * t) (pow-suc 2 k))

-- `|` with a shifted word works on the high bits alone.
pub bit_or_high :
    (k h r q : ℕ) → r < 2 ^ k → bit_or (h * 2 ^ k + r) (q * 2 ^ k) ≡ bit_or h q * 2 ^ k + r
bit_or_high zero h r q lt = ground arith
bit_or_high (suc k) h r q lt = ground (
  arith,
  bit_or_digit (h * 2 ^ suc k + r) (q * 2 ^ suc k),
  double h k,
  double q k,
  double (bit_or h q) k,
  pow-suc 2 k,
  bit_or_high k h (r / 2) q,
)

-- A field below a shifted word is added.
pub bit_or_field : (k r q : ℕ) → r < 2 ^ k → bit_or r (q * 2 ^ k) ≡ q * 2 ^ k + r
bit_or_field k r q lt =
    ground
      (arith, bit_or_high k 0 r q, zero-bit_or q, ap (λ (t : ℕ). bit_or t (q * 2 ^ k)) zero_times)
  where
    zero_times : 0 * 2 ^ k + r ≡ r
    zero_times = omega arith

-- A mask of low bits is a remainder.
bit_and_low : (k q r : ℕ) → r < 2 ^ k → bit_and (q * 2 ^ k + r) (2 ^ k - 1) ≡ r
bit_and_low zero q r lt = ground (arith, bit_and-zero (q * 2 ^ 0 + r))
bit_and_low (suc k) q r lt = ground (
  arith,
  bit_and_digit (q * 2 ^ suc k + r) (2 ^ suc k - 1),
  double q k,
  pow-suc 2 k,
  one-le-pow k 2,
  bit_and_low k q (r / 2),
)

pub bit_and_mask : (k a : ℕ) → bit_and a (2 ^ k - 1) ≡ a % 2 ^ k
bit_and_mask k a = ground (arith, one-le-pow k 2, bit_and_low k (a / 2 ^ k) (a % 2 ^ k))

-- A Boolean test holds for each number below a bound: such a table is checked by evaluation.
unfoldable pub holds_below : (ℕ → Bool) → ℕ → Bool
holds_below test zero = true
holds_below test (suc bound) = holds_below test bound && test bound

pub holds_below-at :
    (test : ℕ → Bool) (bound x : ℕ) → x < bound → holds_below test bound ≡ true → test x ≡ true
unfolding holds_below
holds_below-at test zero x lt table = absurd (omega arith)
holds_below-at test (suc bound) x lt table = ground (arith, holds_below-at test bound x)
