-- ===== src/Common/Amounts.antt =====
-- Exact decimal amounts: what the program uses of the decimal library, and what it relies on.
-- Two decimals are one value when they compare equal, whatever their exponents.
use Prim.Native.Nat.{Ordering}
use mathlib.Core.Path.{◌≡◌}
use mathlib.Core.Bool.{Bool, true, false}
use mathlib.Core.List.{List, [], ◌∷◌}
use offbook.Common.Tests.{if◌then◌else◌}

pub record Decimal (D : Type 0) : Type 0 where
  pub nought : D
  pub add : D → D → D
  pub neg : D → D
  pub mul : D → D → D
  pub div : D → D → D
  pub cmp : D → D → Ordering

module _ {D : Type 0} ⦃d : Decimal D⦄ where
  open d use {nought, add, neg, cmp}

  abbrev pub sub : D → D → D
  sub a b = add a (neg b)

  abbrev pub less_than : D → D → Bool
  less_than a b = elim (cmp a b) [ Ordering.lt ↦ true | _ ↦ false ]

  abbrev pub greater_than : D → D → Bool
  greater_than a b = elim (cmp a b) [ Ordering.gt ↦ true | _ ↦ false ]

  abbrev pub equal : D → D → Bool
  equal a b = elim (cmp a b) [ Ordering.eq ↦ true | _ ↦ false ]

  abbrev pub is_zero : D → Bool
  is_zero a = equal a nought

  abbrev pub is_positive : D → Bool
  is_positive a = greater_than a nought

  abbrev pub is_negative : D → Bool
  is_negative a = less_than a nought

  abbrev pub abs : D → D
  abs a = if is_negative a then neg a else a

  -- The sum of a list of amounts, from the left end.
  abbrev pub total : List D → D
  total [] = nought
  total (a ∷ rest) = add a (total rest)

abbrev pub flip : Ordering → Ordering
flip Ordering.lt = Ordering.gt
flip Ordering.eq = Ordering.eq
flip Ordering.gt = Ordering.lt

-- The documented behaviour of the library: exact addition, and a total order that it keeps.
pub record IsDecimal (D : Type 0) ⦃d : Decimal D⦄ : Type 0 where
  pub add_comm : (a b : D) → d.add a b ≡ d.add b a
  pub add_assoc : (a b c : D) → d.add (d.add a b) c ≡ d.add a (d.add b c)
  pub add_nought : (a : D) → d.add a d.nought ≡ a
  pub add_neg : (a : D) → d.add a (d.neg a) ≡ d.nought
  pub cmp_self : (a : D) → d.cmp a a ≡ Ordering.eq
  pub cmp_eq : (a b : D) → d.cmp a b ≡ Ordering.eq → a ≡ b
  pub cmp_flip : (a b : D) → d.cmp b a ≡ flip (d.cmp a b)
  pub cmp_add : (a b c : D) → d.cmp (d.add a c) (d.add b c) ≡ d.cmp a b
  pub cmp_trans :
      (a b c : D) → d.cmp a b ≡ Ordering.lt → d.cmp b c ≡ Ordering.lt → d.cmp a c ≡ Ordering.lt
