-- ===== src/CostBasis.antt =====
-- Quantity and average cost of a position: backend/internal/service/valuation/cost_basis.go, over
-- the rows of a ledger and the price rows. A time is a number of seconds and a date a number of
-- days, both in UTC.
mod Totals
mod Quantity
mod Basis
mod Tests
use offbook.Common.{
  ℕ, ◌+◌, Bool, true, false, not, ◌&&◌, ◌||◌, Option, none, some, List, [], ◌∷◌, map, ltb, leb,
  ◌==◌, if◌then◌else◌, select, Decimal, sub, abs, is_zero, is_positive, is_negative, Result, ok,
  err, ◌>>=◌,
}
use offbook.Common.Sort.{sort}
use offbook.Model.{Transaction}
use offbook.Reconcile.{PositionKey, is_at, day_start}
use offbook.Valuation.{Price, head, latest_price_at}

-- `ErrFXUnavailable`.
pub data CostError : Type 0 where
  fx_unavailable : CostError

pub record RecomputeResult (D : Type 0) : Type 0 where
  pub quantity : D
  pub cost_basis : D
  pub has_cost_basis : Bool

-- 23:59:59 of the day.
abbrev pub at_end_of_day : ℕ → ℕ
at_end_of_day day = day_start day + 86399

module _ {D : Type 0} where
  -- ORDER BY transaction_date ASC, id ASC
  abbrev pub by_date : Transaction D → Transaction D → Bool
  by_date x y =
      ltb x.transaction_date y.transaction_date
      || ((x.transaction_date == y.transaction_date) && leb x.id y.id)

  pub list_by_account_and_asset : PositionKey → List (Transaction D) → List (Transaction D)
  list_by_account_and_asset k rows = sort by_date (select (is_at k) rows)

  pub get_by_id : ℕ → ℕ → List (Transaction D) → Option (Transaction D)
  get_by_id user id rows = head (select (λ t. (t.user_id == user) && (t.id == id)) rows)

module _ {D : Type 0} ⦃d : Decimal D⦄ where
  abbrev pub sum_from : D → List (Transaction D) → D
  sum_from sum [] = sum
  sum_from sum (t ∷ rest) = sum_from (d.add sum t.amount) rest

  pub sum_qty : PositionKey → List (Transaction D) → D
  sum_qty k rows = sum_from d.nought (list_by_account_and_asset k rows)

  -- The amount of the partner in the primary currency, where it is a cash leg.
  abbrev pub cash_of_partner :
      List (Price D) → Transaction D → ℕ → Option (Transaction D) → Result CostError (Option D)
  cash_of_partner prices t primary none = ok none
  cash_of_partner prices t primary (some pair) =
      if not (pair.account_id == t.account_id) || (pair.asset_id == t.asset_id)
      then ok none
      else if pair.asset_id == primary
      then ok (some (abs pair.amount))
      else elim (latest_price_at pair.asset_id primary (at_end_of_day t.transaction_date) prices) [
        | none ↦ err fx_unavailable
        | some rate ↦ ok (some (d.mul (abs pair.amount) rate.price))
      ]

  pub paired_cash_in_primary :
      List (Transaction D) → List (Price D) → Transaction D → ℕ → Result CostError (Option D)
  paired_cash_in_primary rows prices t primary = elim t.transfer_pair_id [
    | none ↦ ok none
    | some id ↦ cash_of_partner prices t primary (get_by_id t.user_id id rows)
  ]

  -- Proportional removal, which stops at zero.
  abbrev pub remove_basis : D → D → D → D
  remove_basis cost_basis quantity amount =
      let left = sub cost_basis (d.mul (d.div cost_basis quantity) (abs amount)) in
      if is_negative left then d.nought else left

  -- The row with its priced cash leg, or without one.
  abbrev pub book : Transaction D → Option D → RecomputeResult D → RecomputeResult D
  book t (some cash) s =
      if is_positive t.amount
      then record {
        quantity = d.add s.quantity t.amount;
        cost_basis = d.add s.cost_basis cash;
        has_cost_basis = true;
      }
      else if is_negative t.amount
      then record {
        quantity = d.add s.quantity t.amount;
        cost_basis =
            if is_positive s.quantity
            then remove_basis s.cost_basis s.quantity t.amount
            else s.cost_basis;
        has_cost_basis = true;
      }
      else s
  book t none s = record {
    quantity = d.add s.quantity t.amount;
    cost_basis =
        if is_negative t.amount && is_positive s.quantity && s.has_cost_basis
        then remove_basis s.cost_basis s.quantity t.amount
        else s.cost_basis;
    has_cost_basis = s.has_cost_basis;
  }

  -- One turn of the loop.
  pub recompute_row :
      List (Transaction D)
      → List (Price D)
      → ℕ
      → RecomputeResult D
      → Transaction D
      → Result CostError (RecomputeResult D)
  recompute_row rows prices primary s t =
      if is_zero t.amount
      then ok s
      else (paired_cash_in_primary rows prices t primary >>= λ cash. ok (book t cash s))

  pub walk :
      List (Transaction D)
      → List (Price D)
      → ℕ
      → RecomputeResult D
      → List (Transaction D)
      → Result CostError (RecomputeResult D)
  walk rows prices primary s [] = ok s
  walk rows prices primary s (t ∷ rest) =
      recompute_row rows prices primary s t >>= λ next. walk rows prices primary next rest

  -- A closed position has no basis.
  abbrev pub close : RecomputeResult D → RecomputeResult D
  close s = if is_zero s.quantity then record s { cost_basis = d.nought } else s

  pub recompute :
      List (Transaction D) → List (Price D) → PositionKey → ℕ → Result CostError (RecomputeResult D)
  recompute rows prices k primary =
      if k.asset_id == primary
      then ok (record { quantity = sum_qty k rows; cost_basis = d.nought; has_cost_basis = false })
      else (walk rows prices primary
            (record { quantity = d.nought; cost_basis = d.nought; has_cost_basis = false })
            (list_by_account_and_asset k rows)
          >>= λ s. ok (close s))
