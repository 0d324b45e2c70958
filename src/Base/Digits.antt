-- ===== src/Base/Digits.antt =====
-- The binary digits of a number, and those of an or and of a shifted bit.
use Prim.Native.Nat.{ℕ, zero, suc, ◌*◌, ◌/◌, ◌%◌, ◌^◌, ◌≤◌, max, bit_and, bit_or}
use mathlib.Core.Path.{◌≡◌, refl, ap, sym, ◌∙◌}
use mathlib.Core.Logic.{◌≢◌}
use mathlib.Core.Bool.{Bool, true, false}
use native.Mathlib.Nat.{div-div-eq-div-mul, pow-succ'}
use native.Mathlib.Omega.{arith}
use succinct_filesystem.Base.Tests.{if◌then◌else◌}
use succinct_filesystem.Base.Bits.{bit_or_digit, bit_and_mask}

-- Bit `k` of a number.
pub digit : ℕ → ℕ → ℕ
digit zero x = x % 2
digit (suc k) x = digit k (x / 2)

pub digit_lem : (k x : ℕ) → bit_and (x / 2 ^ k) 1 ≡ digit k x
unfolding digit
digit_lem zero x = omega (arith, bit_and_mask 1 (x / 2 ^ zero))
digit_lem (suc k) x =
    let half : x / 2 ^ suc k ≡ x / 2 / 2 ^ k =
      rw (pow-succ' 2 k) (sym (div-div-eq-div-mul x 2 (2 ^ k))) in
    rw half (digit_lem k (x / 2))

pub digit-or : (k x y : ℕ) → digit k (bit_or x y) ≡ max (digit k x) (digit k y)
unfolding digit
digit-or zero x y = omega (arith, bit_or_digit x y)
digit-or (suc k) x y =
    let half : bit_or x y / 2 ≡ bit_or (x / 2) (y / 2) = omega (arith, bit_or_digit x y) in
    rw half (digit-or k (x / 2) (y / 2))

pub digit-le : (k x : ℕ) → digit k x ≤ 1
unfolding digit
digit-le zero x = omega arith
digit-le (suc k) x = digit-le k (x / 2)

pub digit-zero : (k : ℕ) → digit k 0 ≡ 0
unfolding digit
digit-zero zero = refl
digit-zero (suc k) = digit-zero k

digit-pow_self : (m : ℕ) → digit m (2 ^ m) ≡ 1
unfolding digit
digit-pow_self zero = refl
digit-pow_self (suc m) =
    let half : 2 ^ suc m / 2 ≡ 2 ^ m = omega (arith, pow-succ' 2 m) in rw half (digit-pow_self m)

digit-pow_ne : (k m : ℕ) → k ≢ m → digit k (2 ^ m) ≡ 0
unfolding digit
digit-pow_ne zero zero ne = absurd (ne refl)
digit-pow_ne zero (suc m) ne = omega (arith, pow-succ' 2 m)
digit-pow_ne (suc k) zero ne = digit-zero k
digit-pow_ne (suc k) (suc m) ne =
    let half : 2 ^ suc m / 2 ≡ 2 ^ m = omega (arith, pow-succ' 2 m) in
    rw half (digit-pow_ne k m (λ e. ne (ap suc e)))

pub digit-shifted_self :
    (m : ℕ) (value : Bool) → digit m ((if value then 1 else 0) * 2 ^ m) ≡ (if value then 1 else 0)
digit-shifted_self m true =
    ap (digit m) {x = 1 * 2 ^ m} {y = 2 ^ m} (omega arith) ∙ digit-pow_self m
digit-shifted_self m false = ap (digit m) {x = 0 * 2 ^ m} {y = 0} (omega arith) ∙ digit-zero m

pub digit-shifted_ne :
    (k m : ℕ) (value : Bool) → k ≢ m → digit k ((if value then 1 else 0) * 2 ^ m) ≡ 0
digit-shifted_ne k m true ne =
    ap (digit k) {x = 1 * 2 ^ m} {y = 2 ^ m} (omega arith) ∙ digit-pow_ne k m ne
digit-shifted_ne k m false ne = ap (digit k) {x = 0 * 2 ^ m} {y = 0} (omega arith) ∙ digit-zero k
