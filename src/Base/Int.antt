-- ===== src/Base/Int.antt =====
-- Go's int64, as integers with the wrap-around of its addition written out. `negsuc n` is -(n + 1).
use xx_federation_contracts.Base.Tests.{ltb, leb, nat_eq, if◌then◌else◌}
use Prim.Native.Nat.{ℕ, suc, ◌+◌, ◌-◌, ◌%◌, ◌≤◌, ◌<◌}
use mathlib.Core.Path.{◌≡◌, refl}
use mathlib.Core.Bool.{Bool}
use native.Mathlib.Omega.{arith}

pub data ℤ : Type 0 where
  pos : ℕ → ℤ
  negsuc : ℕ → ℤ

abbrev pub pos_part : ℤ → ℕ
pos_part (pos n) = n
pos_part (negsuc n) = 0

abbrev pub neg_part : ℤ → ℕ
neg_part (pos n) = 0
neg_part (negsuc n) = suc n

-- a - b, as an integer.
abbrev pub sub_ℕ : ℕ → ℕ → ℤ
sub_ℕ a b = if leb b a then pos (a - b) else negsuc (b - a - 1)

infixl 65 ◌+ℤ◌
infix 50 ◌≤ℤ◌ ◌<ℤ◌
unfoldable pub ◌+ℤ◌ : ℤ → ℤ → ℤ
a +ℤ b = sub_ℕ (pos_part a + pos_part b) (neg_part a + neg_part b)

abbrev pub ◌≤ℤ◌ : ℤ → ℤ → Type 0
a ≤ℤ b = pos_part a + neg_part b ≤ pos_part b + neg_part a

abbrev pub ◌<ℤ◌ : ℤ → ℤ → Type 0
a <ℤ b = pos_part a + neg_part b < pos_part b + neg_part a

-- Go's `a < b` and `a <= b`.
abbrev pub ltb_ℤ : ℤ → ℤ → Bool
ltb_ℤ a b = ltb (pos_part a + neg_part b) (pos_part b + neg_part a)

abbrev pub leb_ℤ : ℤ → ℤ → Bool
leb_ℤ a b = leb (pos_part a + neg_part b) (pos_part b + neg_part a)

abbrev pub eq_ℤ : ℤ → ℤ → Bool
eq_ℤ a b = nat_eq (pos_part a + neg_part b) (pos_part b + neg_part a)

-- `value <= 0`, the source's test for a number that is missing or negative.
abbrev pub is_nonpositive : ℤ → Bool
is_nonpositive a = leb_ℤ a (pos 0)

abbrev pub int64_half : ℕ
int64_half = 9223372036854775808

abbrev pub int64_mod : ℕ
int64_mod = 18446744073709551616

-- The int64 with the bit pattern `n`.
abbrev pub of_bits : ℕ → ℤ
of_bits n = if ltb n int64_half then pos n else negsuc (int64_mod - n - 1)

-- Two's complement: the bit pattern of an int64.
abbrev pub to_bits : ℤ → ℕ
to_bits (pos n) = n % int64_mod
to_bits (negsuc n) = int64_mod - 1 - n % int64_mod

-- Go's int64 addition, which wraps around.
unfoldable pub add64 : ℤ → ℤ → ℤ
add64 a b = of_bits ((to_bits a + to_bits b) % int64_mod)

-- Go's int64 subtraction, which wraps around.
unfoldable pub sub64 : ℤ → ℤ → ℤ
sub64 a b = of_bits ((to_bits a + (int64_mod - to_bits b)) % int64_mod)

-- `math.MaxInt64`
abbrev pub max_int64 : ℤ
max_int64 = pos 9223372036854775807

abbrev pub IsInt64 : ℤ → Type 0
IsInt64 (pos n) = n < int64_half
IsInt64 (negsuc n) = n < int64_half

-- Where the sum fits, the machine's addition is the integers' addition.
pub add64-+ℤ : (a b : ℤ) → IsInt64 a → IsInt64 b → IsInt64 (a +ℤ b) → add64 a b ≡ a +ℤ b
unfolding add64 ◌+ℤ◌
add64-+ℤ (pos a) (pos b) h k r = ground arith
add64-+ℤ (pos a) (negsuc b) h k r = ground arith
add64-+ℤ (negsuc a) (pos b) h k r = ground arith
add64-+ℤ (negsuc a) (negsuc b) h k r = ground arith

add64_wraps : add64 (pos 9223372036854775807) (pos 1) ≡ negsuc 9223372036854775807
unfolding add64
add64_wraps = refl
