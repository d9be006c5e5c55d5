-- ===== src/CostBasis/Quantity.antt =====
-- The quantity that Recompute returns, and when it has no rate.
use offbook.Common.{
  ℕ, ◌≡◌, ◌∙◌, refl, sym, ap, inl, inr, true, false, not, Option, none, some, List, [], ◌∷◌, arith,
  ◌==◌, if◌then◌else◌, In, In-select, Bool-cases, Decimal, IsDecimal, nought_add, abs, is_zero,
  eq_of_is_zero, is_zero-nought, Result, ok, err, ◌>>=◌,
}
use mathlib.Core.Bool.{true≢false}
use offbook.Common.Sort.{In-sort}
use offbook.Model.{Transaction}
use offbook.Reconcile.{PositionKey, is_at, fold_quantity}
use offbook.Valuation.{Price, latest_price_at}
use offbook.CostBasis.{
  CostError, RecomputeResult, at_end_of_day, by_date, list_by_account_and_asset, get_by_id, sum_qty,
  cash_of_partner, paired_cash_in_primary, book, recompute_row, walk, close, recompute,
}
use offbook.CostBasis.Totals.{amounts, listed_quantity, sum_qty-eq, book_quantity}

module _ {D : Type 0} ⦃d : Decimal D⦄ (laws : IsDecimal D) where
  module _ (rows : List (Transaction D)) (prices : List (Price D)) (primary : ℕ) where
    -- The partner in the same account, in an asset that is not the primary currency and has no
    -- price in it through the day of the row.
    abbrev pub HasNoFx : Transaction D → Type 0
    HasNoFx t =
        (id : ℕ) × (pair : Transaction D) × (t.transfer_pair_id ≡ some id)
        × (get_by_id t.user_id id rows ≡ some pair)
        × (pair.account_id ≡ t.account_id)
        × ((pair.asset_id == primary) ≡ false)
        × (latest_price_at pair.asset_id primary (at_end_of_day t.transaction_date) prices ≡ none)

    abbrev CashOf : Transaction D → Result CostError (Option D) → Type 0
    CashOf t (ok cash) = Unit {0}
    CashOf t (err e) = HasNoFx t

    cash_of_partner-CashOf :
        (t : Transaction D) (id : ℕ)
        → t.transfer_pair_id ≡ some id
        → (o : Option (Transaction D)) → get_by_id t.user_id id rows ≡ o
        → CashOf t (cash_of_partner prices t primary o)
    cash_of_partner-CashOf t id e none g = tt
    cash_of_partner-CashOf t id e (some pair) g =
        elim (Bool-cases (pair.account_id == t.account_id)) [
          | inr a ↦ rw (a, not) tt
          | inl a ↦ elim (Bool-cases (pair.asset_id == t.asset_id)) [
            | inl s ↦ rw (a, s) tt
            | inr s ↦ elim (Bool-cases (pair.asset_id == primary)) [
              | inl p ↦ rw (a, s, p) tt
              | inr p ↦
                  rw (a, s, p)
                    (rate (same a) p
                      (latest_price_at pair.asset_id primary (at_end_of_day t.transaction_date)
                        prices)
                      refl)
            ]
          ]
        ]
      where
        same : (pair.account_id == t.account_id) ≡ true → pair.account_id ≡ t.account_id
        same a = ground arith

        rate :
            pair.account_id ≡ t.account_id
            → (pair.asset_id == primary) ≡ false
            → (o : Option (Price D))
            → latest_price_at pair.asset_id primary (at_end_of_day t.transaction_date) prices ≡ o
            → CashOf t (elim o [
              | none ↦ err CostError.fx_unavailable
              | some r ↦ ok (some (d.mul (abs pair.amount) r.price))
            ])
        rate a p none l = (id, pair, e, g, a, p, l)
        rate a p (some r) l = tt

    paired-CashOf : (t : Transaction D) → CashOf t (paired_cash_in_primary rows prices t primary)
    unfolding paired_cash_in_primary
    paired-CashOf t = go t.transfer_pair_id refl
      where
        go :
            (o : Option ℕ)
            → t.transfer_pair_id ≡ o
            → CashOf t (elim o [
              | none ↦ ok none
              | some id ↦ cash_of_partner prices t primary (get_by_id t.user_id id rows)
            ])
        go none e = tt
        go (some id) e = cash_of_partner-CashOf t id e _ refl

    abbrev StepOf :
        RecomputeResult D → Transaction D → Result CostError (RecomputeResult D) → Type 0
    StepOf s t (ok next) = next.quantity ≡ d.add s.quantity t.amount
    StepOf s t (err e) = HasNoFx t

    recompute_row-StepOf :
        (s : RecomputeResult D) (t : Transaction D)
        → StepOf s t (recompute_row rows prices primary s t)
    unfolding recompute_row
    recompute_row-StepOf s t = elim (Bool-cases (is_zero t.amount)) [
      | inl z ↦ rw z (
          sym (laws.add_nought s.quantity)
          ∙ ap (d.add s.quantity) (sym (eq_of_is_zero laws t.amount z)))
      | inr z ↦ rw z (booked z (paired_cash_in_primary rows prices t primary) (paired-CashOf t))
    ]
      where
        booked :
            is_zero t.amount ≡ false
            → (c : Result CostError (Option D)) → CashOf t c
            → StepOf s t (c >>= λ cash. ok (book t cash s))
        booked z (err e) h = h
        booked z (ok cash) h = book_quantity laws t cash s z

    abbrev WalkOf :
        RecomputeResult D → List (Transaction D) → Result CostError (RecomputeResult D) → Type 0
    WalkOf s ts (ok r) = r.quantity ≡ d.add s.quantity (amounts ts)
    WalkOf s ts (err e) = (t : Transaction D) × In t ts × HasNoFx t

    WalkOf-longer :
        (s next : RecomputeResult D) (t : Transaction D) (rest : List (Transaction D))
        → next.quantity ≡ d.add s.quantity t.amount
        → (r : Result CostError (RecomputeResult D)) → WalkOf next rest r
        → WalkOf s (t ∷ rest) r
    WalkOf-longer s next t rest q (ok r) h =
        h ∙ ap (λ x. d.add x (amounts rest)) q ∙ laws.add_assoc s.quantity t.amount (amounts rest)
    WalkOf-longer s next t rest q (err e) (u, m, h) = (u, inr m, h)

    walk-WalkOf :
        (s : RecomputeResult D) (ts : List (Transaction D))
        → WalkOf s ts (walk rows prices primary s ts)
    unfolding walk
    walk-WalkOf s [] = sym (laws.add_nought s.quantity)
    walk-WalkOf s (t ∷ rest) =
        go (recompute_row rows prices primary s t) (recompute_row-StepOf s t)
          (λ next. walk-WalkOf next rest)
      where
        go :
            (r : Result CostError (RecomputeResult D))
            → StepOf s t r
            → ((next : RecomputeResult D) → WalkOf next rest (walk rows prices primary next rest))
            → WalkOf s (t ∷ rest) (r >>= λ next. walk rows prices primary next rest)
        go (err e) h ih = (t, inl refl, h)
        go (ok next) h ih = WalkOf-longer s next t rest h _ (ih next)

    abbrev pub RecomputeOf : PositionKey → Result CostError (RecomputeResult D) → Type 0
    RecomputeOf k (ok r) =
        (r.quantity ≡ fold_quantity k rows) × (r.quantity ≡ d.nought → r.cost_basis ≡ d.nought)
    RecomputeOf k (err e) = (t : Transaction D) × In t rows × (is_at k t ≡ true) × HasNoFx t

    close-RecomputeOf :
        (k : PositionKey) (s : RecomputeResult D)
        → s.quantity ≡ fold_quantity k rows
        → RecomputeOf k (ok (close s))
    close-RecomputeOf k s h = elim (Bool-cases (is_zero s.quantity)) [
      | inl z ↦ rw (z, if◌then◌else◌) (h, λ _. refl)
      | inr z ↦
          rw (z, if◌then◌else◌)
            (h, λ e. absurd (true≢false (sym (is_zero-nought laws) ∙ ap is_zero (sym e) ∙ z)))
    ]

    -- `Recompute` returns the sum of the amounts of the rows of the position, whatever pairs and
    -- prices there are, with a basis of zero where that sum is zero. It returns ErrFXUnavailable only
    -- where a row of the position has a partner in its account, in an asset other than the primary
    -- currency, that has no price in it through the day of the row.
    pub recompute-RecomputeOf : (k : PositionKey) → RecomputeOf k (recompute rows prices k primary)
    unfolding recompute list_by_account_and_asset
    recompute-RecomputeOf k = elim (Bool-cases (k.asset_id == primary)) [
      | inl e ↦ rw e (quick, λ _. refl)
      | inr e ↦ rw e (closed _ (walk-WalkOf start (list_by_account_and_asset k rows)))
    ]
      where
        start : RecomputeResult D
        start = record { quantity = d.nought; cost_basis = d.nought; has_cost_basis = false }

        whole : d.add d.nought (amounts (list_by_account_and_asset k rows)) ≡ fold_quantity k rows
        whole = nought_add laws _ ∙ listed_quantity laws k rows

        quick : sum_qty k rows ≡ fold_quantity k rows
        quick = sum_qty-eq laws k rows ∙ whole

        closed :
            (r : Result CostError (RecomputeResult D))
            → WalkOf start (list_by_account_and_asset k rows) r
            → RecomputeOf k (r >>= λ s. ok (close s))
        closed (ok s) h = close-RecomputeOf k s (h ∙ whole)
        closed (err e) (t, m, h) = (t, found.0, found.1, h)
          where
            found : In t rows × (is_at k t ≡ true)
            found = In-select (is_at k) t rows (In-sort by_date t _ m)
