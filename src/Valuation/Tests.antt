-- ===== src/Valuation/Tests.antt =====
-- Valuations of concrete positions: shares (2) quoted in dollars (1), valued in euros (3).
use offbook.Common.{
  ◌≡◌, refl, none, some, List, [], ◌∷◌, map, select, total, Result, ok, err, All, ℕ, ◌==◌, ◌++◌,
  Bool, false,
}
use offbook.Common.Integers.{ℤ, pos, integers-IsDecimal, integer_decimal}
use offbook.Common.Sort.{sort, insert}
use offbook.Valuation.{
  stale_price, Price, Asset, Position, SeriesPoint, ValueError, get_asset, latest_price_at,
  lookup_rate, value, value_by_native, value_from, value_positions, series, trim_unknown_start,
}
use offbook.Valuation.Chains.{ValueOf, value-ValueOf}
use offbook.Valuation.Sums.{
  value_positions-summed, series-IsPoint, trim-StartsHeld, IsPoint, StartsHeld, is_unpriced, valued,
  worth,
}

abbrev prices : List (Price ℤ)
prices =
    record { id = 1; asset_id = 2; quote_asset_id = 1; as_of = 10; price = pos 5 }
    ∷ record { id = 2; asset_id = 2; quote_asset_id = 1; as_of = 20; price = pos 7 }
    ∷ record { id = 3; asset_id = 1; quote_asset_id = 3; as_of = 15; price = pos 2 }
    ∷ []

abbrev assets : List Asset
assets =
    record { id = 1; quote_currency_asset_id = none }
    ∷ record { id = 2; quote_currency_asset_id = some 1 }
    ∷ []

abbrev shares : Position ℤ
shares = record { asset_id = 2; quantity = pos 3 }

abbrev euros : Position ℤ
euros = record { asset_id = 3; quantity = pos 4 }

abbrev held_set : List (Position ℤ)
held_set = shares ∷ euros ∷ []

abbrev positions_at : ℕ → Result ValueError (List (Position ℤ))
positions_at as_of = ok held_set

-- At 21 the shares are worth 3 * 7 * 2, and at 30 they have no fresh price.
value-ValueOf_example : ValueOf 9 prices assets shares 21 3 (value 9 prices assets shares 21 3)
value-ValueOf_example = value-ValueOf 9 prices assets shares 21 3

two_prices : value 9 prices assets shares 21 3 ≡ ok (pos 42)
unfolding value value_by_native lookup_rate latest_price_at get_asset sort insert
two_prices = refl

too_old : value 9 prices assets shares 30 3 ≡ err stale_price
unfolding value value_by_native lookup_rate latest_price_at get_asset sort insert
too_old = refl

value_positions-summed_example :
    value_positions 9 prices assets held_set 30 3
    ≡ ok (record {
      value = total (map (λ p. worth (valued integers-IsDecimal 9 prices assets 30 3 p)) held_set);
      unpriced =
          map
            (λ p. p.asset_id)
            (select (λ p. is_unpriced (valued integers-IsDecimal 9 prices assets 30 3 p)) held_set);
    })
unfolding value value_by_native lookup_rate latest_price_at get_asset sort insert
value_positions-summed_example =
    value_positions-summed integers-IsDecimal 9 prices assets 30 3 held_set (refl, (refl, tt))

abbrev point : ℕ → SeriesPoint ℤ
point as_of = record { as_of = as_of; valuation = record { value = pos 46; unpriced = [] } }

series-IsPoint_example :
    (map (λ p. p.as_of) (point 20 ∷ point 21 ∷ []) ≡ 20 ∷ 21 ∷ [])
    × All (IsPoint 9 prices assets positions_at 3) (point 20 ∷ point 21 ∷ [])
unfolding series value_positions value_from value value_by_native lookup_rate latest_price_at
    get_asset sort insert
series-IsPoint_example =
    series-IsPoint 9 prices assets positions_at 3 (20 ∷ 21 ∷ []) (point 20 ∷ point 21 ∷ []) refl

abbrev from_21 : ℕ → Bool
from_21 t = t == 21

trim-StartsHeld_example :
    StartsHeld from_21 (trim_unknown_start from_21 (point 20 ∷ point 21 ∷ []))
    × ((dropped : List (SeriesPoint ℤ)) × (point 20 ∷ point 21 ∷ []
          ≡ dropped ++ trim_unknown_start from_21 (point 20 ∷ point 21 ∷ []))
        × All (λ p. from_21 p.as_of ≡ false) dropped)
trim-StartsHeld_example = trim-StartsHeld from_21 (point 20 ∷ point 21 ∷ [])
