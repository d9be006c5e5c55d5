-- ===== src/CostBasis/Tests.antt =====
-- The basis of concrete trades: shares (2) bought and sold for dollars (1), the primary currency.
use offbook.Common.{◌≡◌, refl, some, true, false, is_negative, arith, List, [], ◌∷◌, ok, err}
use offbook.Common.Integers.{ℤ, pos, negsuc, integers-IsDecimal, integer_decimal}
use offbook.Common.Sort.{sort, insert}
use offbook.Model.{Transaction}
use offbook.Reconcile.{PositionKey}
use offbook.Samples.{row}
use offbook.Valuation.{Price, latest_price_at}
use offbook.CostBasis.{
  CostError, list_by_account_and_asset, get_by_id, paired_cash_in_primary, recompute_row, walk,
  recompute,
}
use offbook.CostBasis.Basis.{recompute_basis}
use offbook.CostBasis.Quantity.{RecomputeOf, recompute-RecomputeOf}

abbrev shares : PositionKey
shares = record { user_id = 7; account_id = 1; asset_id = 2 }

-- Ten bought for 50 on day 5, and four sold for 28 on day 6.
abbrev trades : List (Transaction ℤ)
trades =
    record (row 3 1 (negsuc 3) 6) { asset_id = 2; transfer_pair_id = some 4 }
    ∷ record (row 4 1 (pos 28) 6) { transfer_pair_id = some 3 }
    ∷ record (row 1 1 (pos 10) 5) { asset_id = 2; transfer_pair_id = some 2 }
    ∷ record (row 2 1 (negsuc 49) 5) { transfer_pair_id = some 1 }
    ∷ []

-- Ten received for three of another security (3) of the same account.
abbrev swapped : List (Transaction ℤ)
swapped =
    record (row 1 1 (pos 10) 5) { asset_id = 2; transfer_pair_id = some 2 }
    ∷ record (row 2 1 (negsuc 2) 5) { asset_id = 3; transfer_pair_id = some 1 }
    ∷ []

recompute-RecomputeOf_example :
    RecomputeOf integers-IsDecimal trades [] 1 shares (recompute trades [] shares 1)
recompute-RecomputeOf_example = recompute-RecomputeOf integers-IsDecimal trades [] 1 shares

six_left :
    recompute trades [] shares 1
    ≡ ok (record { quantity = pos 6; cost_basis = pos 30; has_cost_basis = true })
unfolding recompute walk recompute_row paired_cash_in_primary get_by_id list_by_account_and_asset
    sort insert
six_left = refl

-- The partner counts as a cash leg although it is a security.
swap_needs_price : recompute swapped [] shares 1 ≡ err CostError.fx_unavailable
unfolding recompute walk recompute_row paired_cash_in_primary get_by_id list_by_account_and_asset
    sort insert latest_price_at
swap_needs_price = refl

mul_fine_ℤ :
    (a b : ℤ)
    → is_negative a ≡ false
    → is_negative b ≡ false
    → is_negative (integer_decimal.mul a b) ≡ false
mul_fine_ℤ a b h k = ground arith

-- Two euros (3) for a dollar.
abbrev euro_prices : List (Price ℤ)
euro_prices = record { id = 1; asset_id = 1; quote_asset_id = 3; as_of = 0; price = pos 2 } ∷ []

recompute_basis_example : is_negative (pos 60) ≡ false
unfolding recompute walk recompute_row paired_cash_in_primary get_by_id list_by_account_and_asset
    sort insert latest_price_at
recompute_basis_example =
    recompute_basis integers-IsDecimal mul_fine_ℤ trades euro_prices 3 (refl, tt) shares
      (record { quantity = pos 6; cost_basis = pos 60; has_cost_basis = true }) refl
