-- ===== src/Prelude/Bits.antt =====
-- Bit fields as arithmetic: a shifted value or-ed with a field that fits below it is a sum, and a
-- mask of low ones is a remainder. By recursion on the width, one binary digit at a time.
use Prim.Native.Nat.{ℕ, zero, suc, ◌+◌, ◌-◌, ◌*◌, ◌/◌, ◌%◌, ◌^◌, ◌≤◌, ◌<◌, min, max}
use Prim.Native.Nat.{bit_and, bit_or, digits, bit_and-bitwise, bit_or-bitwise}
use mathlib.Core.Path.{◌≡◌, refl, ap}
use native.Mathlib.Nat.{pow-suc, one-le-pow}
use native.Mathlib.Omega.{arith}

-- The digits of a number do not depend on the fuel that they are computed with.
digits_enough :
    (z : ℕ → ℕ) (f : ℕ → ℕ → ℕ) (n m a b : ℕ) → a ≤ n → a ≤ m → digits z f n a b ≡ digits z f m a b
digits_enough z f zero zero a b p q = refl
digits_enough z f zero (suc m) zero b p q = refl
digits_enough z f zero (suc m) (suc a) b p q = absurd (omega arith)
digits_enough z f (suc n) zero zero b p q = refl
digits_enough z f (suc n) zero (suc a) b p q = absurd (omega arith)
digits_enough z f (suc n) (suc m) zero b p q = refl
digits_enough z f (suc n) (suc m) (suc a) b p q =
    omega (arith, digits_enough z f n m (suc a / 2) (b / 2) (omega arith) (omega arith))

or_left_zero : (b : ℕ) → bit_or 0 b ≡ b
or_left_zero b = bit_or-bitwise 0 b

and_left_zero : (b : ℕ) → bit_and 0 b ≡ 0
and_left_zero b = bit_and-bitwise 0 b

or_halve : (a b : ℕ) → bit_or a b ≡ bit_or (a / 2) (b / 2) * 2 + max (a % 2) (b % 2)
or_halve zero b = omega (arith, or_left_zero b, or_left_zero (b / 2))
or_halve (suc a) b = omega (
  arith,
  bit_or-bitwise (suc a) b,
  bit_or-bitwise (suc a / 2) (b / 2),
  digits_enough (λ x. x) max a (suc a / 2) (suc a / 2) (b / 2) (omega arith) (omega arith),
)

and_halve : (a b : ℕ) → bit_and a b ≡ bit_and (a / 2) (b / 2) * 2 + min (a % 2) (b % 2)
and_halve zero b = omega (arith, and_left_zero b, and_left_zero (b / 2))
and_halve (suc a) b = omega (
  arith,
  bit_and-bitwise (suc a) b,
  bit_and-bitwise (suc a / 2) (b / 2),
  digits_enough (λ x. 0) min a (suc a / 2) (suc a / 2) (b / 2) (omega arith) (omega arith),
)

or_right_zero : (n a : ℕ) → a ≤ n → bit_or a 0 ≡ a
or_right_zero n zero h = refl
or_right_zero zero (suc a) h = absurd (omega arith)
or_right_zero (suc n) (suc a) h =
    omega (arith, or_halve (suc a) 0, or_right_zero n (suc a / 2) (omega arith))

and_right_zero : (n a : ℕ) → a ≤ n → bit_and a 0 ≡ 0
and_right_zero n zero h = refl
and_right_zero zero (suc a) h = absurd (omega arith)
and_right_zero (suc n) (suc a) h =
    omega (arith, and_halve (suc a) 0, and_right_zero n (suc a / 2) (omega arith))

twice_width : (q k : ℕ) → q * 2 ^ suc k ≡ 2 * (q * 2 ^ k)
twice_width q k = omega (arith, ap (λ (t : ℕ). q * t) (pow-suc 2 k))

pub or-eq-add : (k q r : ℕ) → r < 2 ^ k → bit_or (q * 2 ^ k) r ≡ q * 2 ^ k + r
or-eq-add zero q r h = ground (arith, or_right_zero q q (omega arith))
or-eq-add (suc k) q r h = ground (
  arith,
  twice_width q k,
  pow-suc 2 k,
  or_halve (q * 2 ^ suc k) r,
  or-eq-add k q (r / 2) (omega (arith, pow-suc 2 k)),
)

mask_fields : (k q r : ℕ) → r < 2 ^ k → bit_and (q * 2 ^ k + r) (2 ^ k - 1) ≡ r
mask_fields zero q r h = ground (arith, and_right_zero (q * 1 + r) (q * 1 + r) (omega arith))
mask_fields (suc k) q r h = ground (
  arith,
  twice_width q k,
  pow-suc 2 k,
  one-le-pow k 2,
  and_halve (q * 2 ^ suc k + r) (2 ^ suc k - 1),
  mask_fields k q (r / 2) (omega (arith, pow-suc 2 k)),
)

pub and-mask : (k a : ℕ) → bit_and a (2 ^ k - 1) ≡ a % 2 ^ k
and-mask k a = ground (arith, one-le-pow k 2, mask_fields k (a / 2 ^ k) (a % 2 ^ k))
