-- ===== src/Common/Totals.antt =====
-- Sums of amounts over the rows of a list: parts, order and filters.
use mathlib.Core.Path.{◌≡◌, refl, sym, ap, ◌∙◌}
use mathlib.Core.Logic.{inl, inr}
use mathlib.Core.Bool.{Bool, false}
use mathlib.Core.List.{List, [], ◌∷◌, map}
use offbook.Common.Tests.{if◌then◌else◌, Bool-cases}
use offbook.Common.Lists.{select}
use offbook.Common.Sort.{sort, insert}
use offbook.Common.Amounts.{Decimal, IsDecimal, total}
use offbook.Common.Group.{nought_add, add_left_comm}

module _ {D : Type 0} ⦃d : Decimal D⦄ (laws : IsDecimal D) {A : Type 0} where
  open d use {nought, add}

  -- The order of the rows does not count.
  total-insert :
      (w : A → D) (le : A → A → Bool) (x : A) (ys : List A)
      → total (map w (insert le x ys)) ≡ add (w x) (total (map w ys))
  unfolding insert
  total-insert w le x [] = refl
  total-insert w le x (y ∷ ys) = elim (Bool-cases (le x y)) [
    | inl e ↦ rw e refl
    | inr e ↦ rw e (
        ap (add (w y)) (total-insert w le x ys) ∙ add_left_comm laws (w y) (w x) (total (map w ys)))
  ]

  pub total-sort :
      (w : A → D) (le : A → A → Bool) (xs : List A) → total (map w (sort le xs)) ≡ total (map w xs)
  unfolding sort
  total-sort w le [] = refl
  total-sort w le (x ∷ xs) = total-insert w le x (sort le xs) ∙ ap (add (w x)) (total-sort w le xs)

  -- Rows that weigh nothing may be left out.
  pub total-select_light :
      (w : A → D) (p : A → Bool) (xs : List A)
      → ((x : A) → p x ≡ false → w x ≡ nought)
      → total (map w (select p xs)) ≡ total (map w xs)
  total-select_light w p [] h = refl
  total-select_light w p (x ∷ xs) h = elim (Bool-cases (p x)) [
    | inl e ↦ rw e (ap (add (w x)) (total-select_light w p xs h))
    | inr e ↦ rw (e, h x e) (total-select_light w p xs h ∙ sym (nought_add laws _))
  ]

  -- A filter is a weight of nothing.
  pub total-select :
      (w : A → D) (p : A → Bool) (xs : List A)
      → total (map w (select p xs)) ≡ total (map (λ x. if p x then w x else nought) xs)
  total-select w p [] = refl
  total-select w p (x ∷ xs) = elim (Bool-cases (p x)) [
    | inl e ↦ rw e (ap (add (w x)) (total-select w p xs))
    | inr e ↦ rw e (total-select w p xs ∙ sym (nought_add laws _))
  ]

  pub total-same :
      (v w : A → D) (xs : List A) → ((x : A) → v x ≡ w x) → total (map v xs) ≡ total (map w xs)
  total-same v w [] h = refl
  total-same v w (x ∷ xs) h = rw (h x) (ap (add (w x)) (total-same v w xs h))

  -- Two weights of a row are summed apart.
  pub total-add :
      (v w : A → D) (xs : List A)
      → total (map (λ x. add (v x) (w x)) xs) ≡ add (total (map v xs)) (total (map w xs))
  total-add v w [] = sym (nought_add laws nought)
  total-add v w (x ∷ xs) =
      ap (add (add (v x) (w x))) (total-add v w xs)
      ∙ laws.add_assoc (v x) (w x) _
      ∙ ap (add (v x)) (add_left_comm laws (w x) (total (map v xs)) (total (map w xs)))
      ∙ sym (laws.add_assoc (v x) (total (map v xs)) _)

  pub total-nought :
      (w : A → D) (xs : List A) → ((x : A) → w x ≡ nought) → total (map w xs) ≡ nought
  total-nought w [] h = refl
  total-nought w (x ∷ xs) h = rw (h x, total-nought w xs h) (nought_add laws nought)
