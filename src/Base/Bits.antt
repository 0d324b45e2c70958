-- ===== src/Base/Bits.antt =====
-- `&`, `|` and the shifts of unsigned words at variables, by the recursion on binary digits.
use Prim.Native.Nat.{
  ℕ, zero, suc, ◌+◌, ◌-◌, ◌*◌, ◌/◌, ◌%◌, ◌^◌, ◌≤◌, ◌<◌, min, max, digits, bit_and, bit_or,
  bit_and-bitwise, bit_or-bitwise,
}
use mathlib.Core.Path.{◌≡◌, refl, ap}
use native.Mathlib.Nat.{pow-suc, one-le-pow, le_refl}
use native.Mathlib.Omega.{arith}

-- One more digit of fuel than the operand needs changes nothing.
more_fuel : (z : ℕ → ℕ) (f : ℕ → ℕ → ℕ) (k a b : ℕ) → a ≤ k → digits z f k a b ≡ digits z f a a b
more_fuel z f k a b h = either k a a b h (le_refl a)
  where
    either : (n m a b : ℕ) → a ≤ n → a ≤ m → digits z f n a b ≡ digits z f m a b
    either zero zero a b p q = refl
    either (suc n) zero zero b p q = refl
    either zero (suc m) zero b p q = refl
    either (suc n) (suc m) zero b p q = refl
    either zero m (suc a) b p q = absurd (omega arith)
    either (suc n) zero (suc a) b p q = absurd (omega arith)
    either (suc n) (suc m) (suc a) b p q =
        rw (either n m (suc a / 2) (b / 2) (omega arith) (omega arith))

-- The lowest digit apart.
pub bit_and_digit : (a b : ℕ) → bit_and a b ≡ 2 * bit_and (a / 2) (b / 2) + min (a % 2) (b % 2)
bit_and_digit zero b = simp bit_and-bitwise (omega arith)
bit_and_digit (suc a) b =
    simp bit_and-bitwise (omega (arith, more_fuel (λ _. 0) min a (suc a / 2) (b / 2) (omega arith)))

pub bit_or_digit : (a b : ℕ) → bit_or a b ≡ 2 * bit_or (a / 2) (b / 2) + max (a % 2) (b % 2)
bit_or_digit zero b = simp bit_or-bitwise (omega arith)
bit_or_digit (suc a) b =
    simp bit_or-bitwise (omega (arith, more_fuel (λ y. y) max a (suc a / 2) (b / 2) (omega arith)))

zero-bit_or : (b : ℕ) → bit_or 0 b ≡ b
zero-bit_or b = simp bit_or-bitwise

zero-bit_and : (b : ℕ) → bit_and 0 b ≡ 0
zero-bit_and b = simp bit_and-bitwise

below_bit_or-zero : (k a : ℕ) → a ≤ k → bit_or a 0 ≡ a
below_bit_or-zero k zero h = refl
below_bit_or-zero zero (suc a) h = absurd (omega arith)
below_bit_or-zero (suc k) (suc a) h =
    omega (arith, bit_or_digit (suc a) 0, below_bit_or-zero k (suc a / 2) (omega arith))

below_bit_and-zero : (k a : ℕ) → a ≤ k → bit_and a 0 ≡ 0
below_bit_and-zero k zero h = refl
below_bit_and-zero zero (suc a) h = absurd (omega arith)
below_bit_and-zero (suc k) (suc a) h =
    omega (arith, bit_and_digit (suc a) 0, below_bit_and-zero k (suc a / 2) (omega arith))

-- `q << k | r` is a sum where `r` has `k` digits.
pub bit_or_shifted : (k q r : ℕ) → r < 2 ^ k → bit_or (q * 2 ^ k) r ≡ q * 2 ^ k + r
bit_or_shifted zero q r h = ground (arith, below_bit_or-zero q q (omega arith))
bit_or_shifted (suc k) q r h =
    let double = ap (λ (t : ℕ). q * t) (pow-suc 2 k) in
    ground (
      arith,
      double,
      pow-suc 2 k,
      bit_or_digit (q * 2 ^ suc k) r,
      bit_or_shifted k q (r / 2) (omega (arith, pow-suc 2 k)),
    )

low_digits : (k q r : ℕ) → r < 2 ^ k → bit_and (q * 2 ^ k + r) (2 ^ k - 1) ≡ r
low_digits zero q r h = ground (arith, below_bit_and-zero (q * 2 ^ 0 + r) _ (le_refl _))
low_digits (suc k) q r h =
    let double = ap (λ (t : ℕ). q * t) (pow-suc 2 k) in
    ground (
      arith,
      double,
      pow-suc 2 k,
      one-le-pow k 2,
      bit_and_digit (q * 2 ^ suc k + r) (2 ^ suc k - 1),
      low_digits k q (r / 2) (omega (arith, pow-suc 2 k)),
    )

-- `a & (2 ^ k - 1)` is the remainder.
pub bit_and_mask : (k a : ℕ) → bit_and a (2 ^ k - 1) ≡ a % 2 ^ k
bit_and_mask k a = ground (arith, one-le-pow k 2, low_digits k (a / 2 ^ k) (a % 2 ^ k))
