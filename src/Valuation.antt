-- ===== src/Valuation.antt =====
-- Valuation of positions: backend/internal/service/valuation/valuation.go, over lists of price and
-- asset rows. A time is a number; a stale window of 0 stands for every window that is not positive.
pub mod Rates
pub mod Chains
pub mod Sums
mod Tests
use offbook.Common.{
  ℕ, ◌-◌, Bool, true, false, not, ◌&&◌, ◌||◌, Option, none, some, List, [], ◌∷◌, ◌++◌, ltb, leb,
  ◌==◌, if◌then◌else◌, select, length, holds, Decimal, Result, ok, err, ◌>>=◌,
}
use offbook.Common.Sort.{sort}

-- What valuation reads of a price row.
pub record Price (D : Type 0) : Type 0 where
  pub id : ℕ
  pub asset_id : ℕ
  pub quote_asset_id : ℕ
  pub as_of : ℕ
  pub price : D

-- What valuation reads of an asset row.
pub record Asset : Type 0 where
  pub id : ℕ
  pub quote_currency_asset_id : Option ℕ

-- What valuation reads of a position.
pub record Position (D : Type 0) : Type 0 where
  pub asset_id : ℕ
  pub quantity : D

-- `ErrStalePrice`, and an asset that is not in the table.
pub data ValueError : Type 0 where
  stale_price not_found : ValueError

pub record SetValuation (D : Type 0) : Type 0 where
  pub value : D
  pub unpriced : List ℕ

pub record SeriesPoint (D : Type 0) : Type 0 where
  pub as_of : ℕ
  pub valuation : SetValuation D

module _ {A : Type 0} where
  -- The first row of a query.
  abbrev pub head : List A → Option A
  head [] = none
  head (x ∷ xs) = some x

pub get_asset : ℕ → List Asset → Option Asset
get_asset id rows = head (select (λ a. a.id == id) rows)

module _ {D : Type 0} where
  -- WHERE asset_id = ? AND quote_asset_id = ? AND as_of <= ?
  abbrev pub is_quote : ℕ → ℕ → ℕ → Price D → Bool
  is_quote asset quote as_of p =
      (p.asset_id == asset) && (p.quote_asset_id == quote) && leb p.as_of as_of

  -- ORDER BY as_of DESC, to which `First` adds the primary key.
  abbrev pub newest_first : Price D → Price D → Bool
  newest_first x y = ltb y.as_of x.as_of || ((x.as_of == y.as_of) && leb x.id y.id)

  unfoldable pub latest_price_at : ℕ → ℕ → ℕ → List (Price D) → Option (Price D)
  latest_price_at asset quote as_of prices =
      head (sort newest_first (select (is_quote asset quote as_of) prices))

  -- `s.staleWindow > 0 && asOf.Sub(p.AsOf) > s.staleWindow`
  abbrev pub is_stale : ℕ → ℕ → Price D → Bool
  is_stale window as_of p = ltb 0 window && ltb window (as_of - p.as_of)

  abbrev pub fresh_rate : ℕ → ℕ → Option (Price D) → Option D
  fresh_rate window as_of none = none
  fresh_rate window as_of (some p) = if is_stale window as_of p then none else some p.price

  pub lookup_rate : ℕ → List (Price D) → ℕ → ℕ → ℕ → Option D
  lookup_rate window prices asset quote as_of =
      fresh_rate window as_of (latest_price_at asset quote as_of prices)

  abbrev pub complete : SetValuation D → Bool
  complete v = length v.unpriced == 0

  -- `if ok { return rate } else { return ErrStalePrice }`
  abbrev pub or_stale : Option D → Result ValueError D
  or_stale none = err stale_price
  or_stale (some rate) = ok rate

-- The native quote currency of an asset, where it can serve as the middle of two hops.
abbrev pub native_quote : ℕ → ℕ → Option Asset → Result ValueError ℕ
native_quote asset quote none = err not_found
native_quote asset quote (some a) = elim a.quote_currency_asset_id [
  | none ↦ err stale_price
  | some native ↦ if (native == asset) || (native == quote) then err stale_price else ok native
]

module _ {D : Type 0} ⦃d : Decimal D⦄ (window : ℕ) (prices : List (Price D))
    (assets : List Asset) where
  -- The two hops, through the native quote currency.
  pub value_by_native : Position D → ℕ → ℕ → Result ValueError D
  value_by_native pos as_of quote = do
    native ← native_quote pos.asset_id quote (get_asset pos.asset_id assets)
    leg1 ← or_stale (lookup_rate window prices pos.asset_id native as_of)
    leg2 ← or_stale (lookup_rate window prices native quote as_of)
    ok (d.mul (d.mul pos.quantity leg1) leg2)

  pub value : Position D → ℕ → ℕ → Result ValueError D
  value pos as_of quote =
      if pos.asset_id == quote
      then ok pos.quantity
      else elim (lookup_rate window prices pos.asset_id quote as_of) [
        | some rate ↦ ok (d.mul pos.quantity rate)
        | none ↦ value_by_native pos as_of quote
      ]

  -- The loop, with the valuation so far.
  pub value_from : SetValuation D → List (Position D) → ℕ → ℕ → Result ValueError (SetValuation D)
  value_from out [] as_of quote = ok out
  value_from out (p ∷ rest) as_of quote = elim (value p as_of quote) [
    | ok v ↦
        value_from (record { value = d.add out.value v; unpriced = out.unpriced }) rest as_of quote
    | err stale_price ↦
        value_from (record { value = out.value; unpriced = out.unpriced ++ (p.asset_id ∷ []) }) rest
          as_of quote
    | err not_found ↦ err not_found
  ]

  pub value_positions : List (Position D) → ℕ → ℕ → Result ValueError (SetValuation D)
  value_positions positions as_of quote =
      value_from (record { value = d.nought; unpriced = [] }) positions as_of quote

  -- `positions_at` gives the set of an instant.
  pub series :
      (ℕ → Result ValueError (List (Position D)))
      → List ℕ
      → ℕ
      → Result ValueError (List (SeriesPoint D))
  series positions_at [] quote = ok []
  series positions_at (as_of ∷ rest) quote = do
    positions ← positions_at as_of
    val ← value_positions positions as_of quote
    points ← series positions_at rest quote
    ok (record { as_of = as_of; valuation = val } ∷ points)

module _ {D : Type 0} where
  -- Drops the points before the first whose instant held a position.
  pub trim_unknown_start : (ℕ → Bool) → List (SeriesPoint D) → List (SeriesPoint D)
  trim_unknown_start held [] = []
  trim_unknown_start held (p ∷ rest) =
      if held p.as_of then p ∷ rest else trim_unknown_start held rest
