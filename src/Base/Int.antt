-- ===== src/Base/Int.antt =====
-- Signed integers over the native numbers, and the 64-bit words that stand for them.
use Prim.Native.Nat.{ℕ, suc, ◌+◌, ◌-◌, ◌*◌, ◌%◌, ◌^◌, ◌≤◌, ◌<◌, compare, Ordering}
use mathlib.Core.Path.{◌≡◌}
use native.Mathlib.Omega.{arith}
use sqlite_ivm.Base.Tests.{ltb, leb, if◌then◌else◌}

-- `negsuc n` is -(n + 1).
pub data ℤ : Type 0 where
  pos : ℕ → ℤ
  negsuc : ℕ → ℤ

abbrev pub pos_part : ℤ → ℕ
pos_part (pos n) = n
pos_part (negsuc n) = 0

abbrev pub neg_part : ℤ → ℕ
neg_part (pos n) = 0
neg_part (negsuc n) = suc n

-- a - b, as an integer.
abbrev pub sub_ℕ : ℕ → ℕ → ℤ
sub_ℕ a b = if leb b a then pos (a - b) else negsuc (b - a - 1)

infixl 65 ◌+ℤ◌ ◌-ℤ◌
infix 50 ◌≤ℤ◌
unfoldable pub ◌+ℤ◌ : ℤ → ℤ → ℤ
a +ℤ b = sub_ℕ (pos_part a + pos_part b) (neg_part a + neg_part b)

unfoldable pub ◌-ℤ◌ : ℤ → ℤ → ℤ
a -ℤ b = sub_ℕ (pos_part a + neg_part b) (neg_part a + pos_part b)

abbrev pub ◌≤ℤ◌ : ℤ → ℤ → Type 0
a ≤ℤ b = pos_part a + neg_part b ≤ pos_part b + neg_part a

-- The values of an `i64`.
pub record IsI64 (a : ℤ) : Type 0 where
  pub above : pos_part a < 2 ^ 63
  pub below : neg_part a ≤ 2 ^ 63

-- `a as u64`: the two's complement bits.
abbrev pub to_bits : ℤ → ℕ
to_bits (pos n) = n % 2 ^ 64
to_bits (negsuc n) = 2 ^ 64 - 1 - n % 2 ^ 64

-- `bits as i64`.
abbrev pub of_bits : ℕ → ℤ
of_bits n = if ltb n (2 ^ 63) then pos n else negsuc (2 ^ 64 - 1 - n)

-- `i64::wrapping_add` and `i64::wrapping_sub`.
unfoldable pub wrapping_add : ℤ → ℤ → ℤ
wrapping_add a b = of_bits ((to_bits a + to_bits b) % 2 ^ 64)

unfoldable pub wrapping_sub : ℤ → ℤ → ℤ
wrapping_sub a b = of_bits ((to_bits a + 2 ^ 64 - to_bits b) % 2 ^ 64)

-- `*` of `i64`, which wraps in a release build.
unfoldable pub wrapping_mul : ℤ → ℤ → ℤ
wrapping_mul a b = of_bits ((to_bits a * to_bits b) % 2 ^ 64)

-- The order of `i64`.
abbrev pub cmp_ℤ : ℤ → ℤ → Ordering
cmp_ℤ a b = compare (pos_part a + neg_part b) (pos_part b + neg_part a)

pub of_bits-to_bits : (a : ℤ) → IsI64 a → of_bits (to_bits a) ≡ a
of_bits-to_bits (pos n) h = ground arith
of_bits-to_bits (negsuc n) h = ground arith

pub to_bits-lt : (a : ℤ) → to_bits a < 2 ^ 64
to_bits-lt (pos n) = omega arith
to_bits-lt (negsuc n) = omega arith

pub wrapping_add-IsI64 : (a b : ℤ) → IsI64 (wrapping_add a b)
unfolding wrapping_add
wrapping_add-IsI64 a b = ground arith

pub wrapping_sub-IsI64 : (a b : ℤ) → IsI64 (wrapping_sub a b)
unfolding wrapping_sub
wrapping_sub-IsI64 a b = ground arith
