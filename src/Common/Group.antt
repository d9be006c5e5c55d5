-- ===== src/Common/Group.antt =====
-- Amounts form an ordered commutative group: what follows from the documented laws.
use Prim.Native.Nat.{Ordering}
use mathlib.Core.Path.{◌≡◌, sym, ap, ◌∙◌}
use mathlib.Core.Bool.{true}
use mathlib.Core.List.{List, [], ◌∷◌, ◌++◌}
use native.Mathlib.Omega.{arith}
use offbook.Common.Amounts.{Decimal, IsDecimal, sub, abs, total, flip, is_zero, equal}

module _ {D : Type 0} ⦃d : Decimal D⦄ (laws : IsDecimal D) where
  open d use {nought, add, neg, cmp}
  open laws use {add_comm, add_assoc, add_nought, add_neg, cmp_self, cmp_eq, cmp_flip, cmp_add}

  pub nought_add : (a : D) → add nought a ≡ a
  nought_add a = add_comm nought a ∙ add_nought a

  pub neg_add : (a : D) → add (neg a) a ≡ nought
  neg_add a = add_comm (neg a) a ∙ add_neg a

  pub add_left_comm : (a b c : D) → add a (add b c) ≡ add b (add a c)
  add_left_comm a b c = sym (add_assoc a b c) ∙ ap (λ x. add x c) (add_comm a b) ∙ add_assoc b a c

  pub neg_add_cancel : (a b : D) → add (neg a) (add a b) ≡ b
  neg_add_cancel a b = sym (add_assoc (neg a) a b) ∙ ap (λ x. add x b) (neg_add a) ∙ nought_add b

  pub add_neg_cancel : (a b : D) → add a (add (neg a) b) ≡ b
  add_neg_cancel a b = sym (add_assoc a (neg a) b) ∙ ap (λ x. add x b) (add_neg a) ∙ nought_add b

  pub add_left_cancel : (a b c : D) → add a b ≡ add a c → b ≡ c
  add_left_cancel a b c h = sym (neg_add_cancel a b) ∙ ap (add (neg a)) h ∙ neg_add_cancel a c

  pub neg_neg : (a : D) → neg (neg a) ≡ a
  neg_neg a = add_left_cancel (neg a) (neg (neg a)) a (add_neg (neg a) ∙ sym (neg_add a))

  pub neg_nought : neg nought ≡ nought
  neg_nought = sym (nought_add (neg nought)) ∙ add_neg nought

  pub neg-add : (a b : D) → neg (add a b) ≡ add (neg a) (neg b)
  neg-add a b = add_left_cancel (add a b) _ _ (
      add_neg (add a b)
      ∙ sym (add_neg a)
      ∙ ap (add a) (
          sym (add_nought (neg a))
          ∙ ap (add (neg a)) (sym (add_neg b))
          ∙ add_left_comm (neg a) b (neg b))
      ∙ sym (add_assoc a b (add (neg a) (neg b))))

  -- (a + b) - (b + c) = a - c
  pub sub-add : (a b c : D) → sub (add a b) (add b c) ≡ sub a c
  sub-add a b c =
      ap (add (add a b)) (neg-add b c)
      ∙ add_assoc a b (add (neg b) (neg c))
      ∙ ap (add a) (add_neg_cancel b (neg c))

  -- a + (b - a) = b
  pub add_sub : (a b : D) → add a (sub b a) ≡ b
  add_sub a b = ap (add a) (add_comm b (neg a)) ∙ add_neg_cancel a b

  pub sub_eq_nought : (a b : D) → is_zero (sub a b) ≡ true → a ≡ b
  sub_eq_nought a b h =
      sym (add_nought a)
      ∙ ap (add a) (sym (neg_add b))
      ∙ sym (add_assoc a (neg b) b)
      ∙ ap (λ x. add x b) (cmp_eq (sub a b) nought (eq_of_equal (sub a b) nought h))
      ∙ nought_add b
    where
      eq_of_equal : (x y : D) → equal x y ≡ true → cmp x y ≡ Ordering.eq
      eq_of_equal x y h = ground arith

  pub eq_of_is_zero : (a : D) → is_zero a ≡ true → a ≡ nought
  eq_of_is_zero a h = cmp_eq a nought (ground arith)

  pub is_zero-nought : is_zero nought ≡ true
  is_zero-nought = ground (arith, cmp_self nought)

  pub sub_self : (a : D) → sub a a ≡ nought
  sub_self a = add_neg a

  pub total-append : (xs ys : List D) → total (xs ++ ys) ≡ add (total xs) (total ys)
  total-append [] ys = sym (nought_add (total ys))
  total-append (x ∷ xs) ys =
      ap (add x) (total-append xs ys) ∙ sym (add_assoc x (total xs) (total ys))

  pub cmp_neg : (a b : D) → cmp (neg a) (neg b) ≡ cmp b a
  cmp_neg a b =
      sym (cmp_add (neg a) (neg b) (add a b))
      ∙ ap (λ x. cmp x (add (neg b) (add a b))) (neg_add_cancel a b)
      ∙ ap (cmp b) (ap (add (neg b)) (add_comm a b) ∙ neg_add_cancel b a)

  pub cmp_neg_nought : (a : D) → cmp (neg a) nought ≡ flip (cmp a nought)
  cmp_neg_nought a = ap (cmp (neg a)) (sym neg_nought) ∙ cmp_neg a nought ∙ cmp_flip a nought

  -- A magnitude does not depend on the sign.
  pub abs_neg : (a : D) → abs (neg a) ≡ abs a
  abs_neg a = ground (arith, cmp_neg_nought a, neg_neg a, cmp_eq a nought, neg_nought)
