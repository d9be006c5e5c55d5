-- ===== src/CostBasis/Totals.antt =====
-- Sums of amounts in the order of the query, and what one row adds.
use offbook.Common.{
  ◌≡◌, ◌∙◌, refl, sym, inl, inr, false, Option, none, some, List, [], ◌∷◌, map, arith,
  if◌then◌else◌, select, Bool-cases, Decimal, IsDecimal, total, total-sort, is_zero, is_positive,
  is_negative,
}
use offbook.Model.{Transaction}
use offbook.Reconcile.{PositionKey, is_at, fold_quantity}
use offbook.CostBasis.{RecomputeResult, by_date, list_by_account_and_asset, sum_from, sum_qty, book}

module _ {D : Type 0} ⦃d : Decimal D⦄ where
  abbrev pub amounts : List (Transaction D) → D
  amounts rows = total (map (λ t. t.amount) rows)

module _ {D : Type 0} ⦃d : Decimal D⦄ (laws : IsDecimal D) where
  sum_from-eq :
      (sum : D) (rows : List (Transaction D)) → sum_from sum rows ≡ d.add sum (amounts rows)
  sum_from-eq sum [] = sym (laws.add_nought sum)
  sum_from-eq sum (t ∷ rest) =
      sum_from-eq (d.add sum t.amount) rest ∙ laws.add_assoc sum t.amount (amounts rest)

  pub sum_qty-eq :
      (k : PositionKey) (rows : List (Transaction D))
      → sum_qty k rows ≡ d.add d.nought (amounts (list_by_account_and_asset k rows))
  unfolding sum_qty
  sum_qty-eq k rows = sum_from-eq d.nought (list_by_account_and_asset k rows)

  pub listed_quantity :
      (k : PositionKey) (rows : List (Transaction D))
      → amounts (list_by_account_and_asset k rows) ≡ fold_quantity k rows
  unfolding list_by_account_and_asset fold_quantity
  listed_quantity k rows = total-sort laws (λ t. t.amount) by_date (select (is_at k) rows)

  pub book_quantity :
      (t : Transaction D) (cash : Option D) (s : RecomputeResult D)
      → is_zero t.amount ≡ false
      → (book t cash s).quantity ≡ d.add s.quantity t.amount
  book_quantity t none s h = refl
  book_quantity t (some cash) s h = elim (Bool-cases (is_positive t.amount)) [
    | inl p ↦ rw (p, if◌then◌else◌) refl
    | inr p ↦ elim (Bool-cases (is_negative t.amount)) [
      | inl n ↦ rw (p, if◌then◌else◌, n, if◌then◌else◌) refl
      | inr n ↦ absurd (ground (arith, h, p, n))
    ]
  ]
