-- ===== src/Prelude/Int.antt =====
-- Python's unbounded integers over the native numbers, with the bit operations that the code uses
-- on them: `<<`, `>>`, `|`, and `&` with a non-negative mask, in two's complement.
use Prim.Native.Nat.{bit_and, bit_or}
use mc_bd.Prelude.Tests.{leb, ltb, ◌==◌, if◌then◌else◌}
use mathlib.Core.Path.{◌≡◌}
use native.Mathlib.Omega.{arith}
use Prim.Native.Nat.{ℕ, suc, ◌+◌, ◌-◌, ◌*◌, ◌/◌, ◌^◌, ◌≤◌}
use mathlib.Core.Bool.{Bool, true, false}

-- `negsuc n` is -(n + 1).
pub data ℤ : Type 0 where
  pos : ℕ → ℤ
  negsuc : ℕ → ℤ

abbrev pub pos_part : ℤ → ℕ
pos_part (pos n) = n
pos_part (negsuc n) = 0

abbrev pub neg_part : ℤ → ℕ
neg_part (pos n) = 0
neg_part (negsuc n) = suc n

abbrev pub sub_ℕ : ℕ → ℕ → ℤ
sub_ℕ a b = if leb b a then pos (a - b) else negsuc (b - a - 1)

infixl 65 ◌+ℤ◌ ◌-ℤ◌
infix 50 ◌≤ℤ◌ ◌<ℤ◌
unfoldable pub ◌+ℤ◌ : ℤ → ℤ → ℤ
a +ℤ b = sub_ℕ (pos_part a + pos_part b) (neg_part a + neg_part b)

unfoldable pub ◌-ℤ◌ : ℤ → ℤ → ℤ
a -ℤ b = sub_ℕ (pos_part a + neg_part b) (neg_part a + pos_part b)

abbrev pub ◌≤ℤ◌ : ℤ → ℤ → Type 0
a ≤ℤ b = pos_part a + neg_part b ≤ pos_part b + neg_part a

abbrev pub ◌<ℤ◌ : ℤ → ℤ → Type 0
a <ℤ b = suc (pos_part a + neg_part b) ≤ pos_part b + neg_part a

abbrev pub leb_ℤ : ℤ → ℤ → Bool
leb_ℤ a b = leb (pos_part a + neg_part b) (pos_part b + neg_part a)

abbrev pub ltb_ℤ : ℤ → ℤ → Bool
ltb_ℤ a b = ltb (pos_part a + neg_part b) (pos_part b + neg_part a)

abbrev pub eqb_ℤ : ℤ → ℤ → Bool
eqb_ℤ a b = pos_part a + neg_part b == pos_part b + neg_part a

pub leb_ℤ→le : (a b : ℤ) → leb_ℤ a b ≡ true → a ≤ℤ b
leb_ℤ→le a b h = ground arith

pub leb_ℤ→gt : (a b : ℤ) → leb_ℤ a b ≡ false → b <ℤ a
leb_ℤ→gt a b h = ground arith

pub ltb_ℤ→ge : (a b : ℤ) → ltb_ℤ a b ≡ false → b ≤ℤ a
ltb_ℤ→ge a b h = ground arith

pub eqb_ℤ→eq : (a b : ℤ) → eqb_ℤ a b ≡ true → a ≡ b
eqb_ℤ→eq a b h = ground arith

pub eqb_ℤ→lt : (a b : ℤ) → eqb_ℤ a b ≡ false → b ≤ℤ a → b <ℤ a
eqb_ℤ→lt a b h k = ground arith

unfoldable pub shl : ℤ → ℕ → ℤ
shl (pos a) k = pos (a * 2 ^ k)
shl (negsuc m) k = negsuc ((m + 1) * 2 ^ k - 1)

unfoldable pub shr : ℤ → ℕ → ℤ
shr (pos a) k = pos (a / 2 ^ k)
shr (negsuc m) k = negsuc (m / 2 ^ k)

-- -(m + 1) has the complement of the digits of m.
unfoldable pub or : ℤ → ℤ → ℤ
or (pos a) (pos b) = pos (bit_or a b)
or (pos a) (negsuc n) = negsuc (n - bit_and n a)
or (negsuc m) (pos b) = negsuc (m - bit_and m b)
or (negsuc m) (negsuc n) = negsuc (bit_and m n)

-- `x & mask` with a non-negative mask
unfoldable pub and : ℤ → ℕ → ℕ
and (pos a) b = bit_and a b
and (negsuc m) b = b - bit_and m b
