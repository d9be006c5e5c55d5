-- ===== src/Common/Integers.antt =====
-- Whole numbers of a smallest unit: amounts that meet the documented laws.
use Prim.Native.Nat.{ℕ, suc, ◌+◌, ◌-◌, ◌*◌, ◌/◌, compare, Ordering}
use mathlib.Core.Path.{◌≡◌}
use native.Mathlib.Omega.{arith}
use offbook.Common.Tests.{leb, if◌then◌else◌}
use offbook.Common.Amounts.{Decimal, IsDecimal}

-- `negsuc n` is -(n + 1).
pub data ℤ : Type 0 where
  pos : ℕ → ℤ
  negsuc : ℕ → ℤ

abbrev pub pos_part : ℤ → ℕ
pos_part (pos n) = n
pos_part (negsuc n) = 0

abbrev pub neg_part : ℤ → ℕ
neg_part (pos n) = 0
neg_part (negsuc n) = suc n

abbrev pub sub_ℕ : ℕ → ℕ → ℤ
sub_ℕ a b = if leb b a then pos (a - b) else negsuc (b - a - 1)

abbrev pub add_ℤ : ℤ → ℤ → ℤ
add_ℤ a b = sub_ℕ (pos_part a + pos_part b) (neg_part a + neg_part b)

abbrev pub neg_ℤ : ℤ → ℤ
neg_ℤ a = sub_ℕ (neg_part a) (pos_part a)

abbrev pub mul_ℤ : ℤ → ℤ → ℤ
mul_ℤ a b =
    sub_ℕ (pos_part a * pos_part b + neg_part a * neg_part b)
      (pos_part a * neg_part b + neg_part a * pos_part b)

-- Towards zero.
abbrev pub div_ℤ : ℤ → ℤ → ℤ
div_ℤ a b =
    let q = (pos_part a + neg_part a) / (pos_part b + neg_part b) in
    mul_ℤ (pos q) (sub_ℕ (sign a b) (1 - sign a b))
  where
    sign : ℤ → ℤ → ℕ
    sign (pos _) (pos _) = 1
    sign (negsuc _) (negsuc _) = 1
    sign _ _ = 0

abbrev pub cmp_ℤ : ℤ → ℤ → Ordering
cmp_ℤ a b = compare (pos_part a + neg_part b) (pos_part b + neg_part a)

instance abbrev pub integer_decimal : Decimal ℤ
integer_decimal = record {
  nought = pos 0;
  add = add_ℤ;
  neg = neg_ℤ;
  mul = mul_ℤ;
  div = div_ℤ;
  cmp = cmp_ℤ;
}

compare_refl : (a : ℕ) → compare a a ≡ Ordering.eq
compare_refl a = ground arith

pub integers-IsDecimal : IsDecimal ℤ
integers-IsDecimal = record {
  add_comm = λ a b. ground arith;
  add_assoc = λ a b c. ground arith;
  add_nought = λ a. ground arith;
  add_neg = λ a. ground arith;
  cmp_self = λ a. ground arith;
  cmp_eq = λ a b h. ground arith;
  cmp_flip = λ a b. ground arith;
  cmp_add = λ a b c. ground arith;
  cmp_trans = λ a b c h k. ground arith;
}
