-- ===== src/Valuation/Chains.antt =====
-- What `Value` returns: a chain of rates, or that there is none.
use offbook.Common.{
  ℕ, ◌≡◌, refl, sym, ◌∙◌, subst, inl, inr, ◌⊎◌, true, false, Option, none, some, List, arith, ◌==◌,
  Bool-cases, Decimal, Result, ok, err, ◌>>=◌,
}
use offbook.Valuation.{
  Price, Asset, stale_price, not_found, Position, ValueError, lookup_rate, or_stale, native_quote,
  get_asset, value_by_native, value,
}
use offbook.Valuation.Rates.{IsRate, HasNoRate, lookup_rate-IsRate, HasNoRate-lookup}

same_ok : {E : Type 0} {a b : ℕ} → ◌≡◌ {A = Result E ℕ} (ok a) (ok b) → a ≡ b
same_ok e = cc

not_both : {E : Type 0} {a : ℕ} {e : E} → ◌≡◌ {A = Result E ℕ} (err e) (ok a) → ⊥
not_both e = cc

unlisted :
    (asset quote : ℕ) (o : Option Asset) → native_quote asset quote o ≡ err not_found → o ≡ none
unlisted asset quote none e = refl
unlisted asset quote (some a) e = absurd (ground (arith, e))

module _ {D : Type 0} ⦃d : Decimal D⦄ (window : ℕ) (prices : List (Price D))
    (assets : List Asset) where
  -- A value is the quantity itself, the quantity at a rate, or the quantity at two rates that meet
  -- in the native quote currency of its asset.
  abbrev pub IsValue : Position D → ℕ → ℕ → D → Type 0
  IsValue pos as_of quote v =
      ((pos.asset_id ≡ quote) × (v ≡ pos.quantity))
      ⊎ (((r : D) × IsRate window prices pos.asset_id quote as_of r × (v ≡ d.mul pos.quantity r))
          ⊎ ((native : ℕ) × (r1 : D) × (r2 : D) × (native_quote pos.asset_id quote
                  (get_asset pos.asset_id assets)
                ≡ ok native)
              × IsRate window prices pos.asset_id native as_of r1
              × IsRate window prices native quote as_of r2
              × (v ≡ d.mul (d.mul pos.quantity r1) r2)))

  -- No price chain: another asset, without a rate of the pair, and with a leg without a rate where
  -- the asset has a native quote currency that can serve as the middle.
  abbrev pub IsUnpriced : Position D → ℕ → ℕ → Type 0
  IsUnpriced pos as_of quote =
      ((pos.asset_id == quote) ≡ false)
      × HasNoRate window prices pos.asset_id quote as_of
      × ((native : ℕ)
          → native_quote pos.asset_id quote (get_asset pos.asset_id assets) ≡ ok native
          → HasNoRate window prices pos.asset_id native as_of
            ⊎ HasNoRate window prices native quote as_of)

  abbrev pub ValueOf : Position D → ℕ → ℕ → Result ValueError D → Type 0
  ValueOf pos as_of quote (ok v) = IsValue pos as_of quote v
  ValueOf pos as_of quote (err stale_price) = IsUnpriced pos as_of quote
  ValueOf pos as_of quote (err not_found) = get_asset pos.asset_id assets ≡ none

  module _ (pos : Position D) (as_of quote : ℕ) (other : (pos.asset_id == quote) ≡ false)
      (direct : HasNoRate window prices pos.asset_id quote as_of) where
    two_hops :
        (native : ℕ)
        → native_quote pos.asset_id quote (get_asset pos.asset_id assets) ≡ ok native
        → (o1 o2 : Option D) → lookup_rate window prices pos.asset_id native as_of ≡ o1
        → lookup_rate window prices native quote as_of ≡ o2
        → ValueOf pos as_of quote (
            or_stale o1 >>= λ leg1.
            or_stale o2 >>= λ leg2. ok (d.mul (d.mul pos.quantity leg1) leg2))
    two_hops native n none o2 e f = (
      other,
      direct,
      λ m q. inl (
          subst (λ k. HasNoRate window prices pos.asset_id k as_of) (same_ok (sym n ∙ q))
            (HasNoRate-lookup window prices _ _ _ e)),
    )
    two_hops native n (some r1) none e f = (
      other,
      direct,
      λ m q. inr (
          subst (λ k. HasNoRate window prices k quote as_of) (same_ok (sym n ∙ q))
            (HasNoRate-lookup window prices _ _ _ f)),
    )
    two_hops native n (some r1) (some r2) e f = inr (
        inr (
          native,
          r1,
          r2,
          n,
          lookup_rate-IsRate window prices _ _ _ r1 e,
          lookup_rate-IsRate window prices _ _ _ r2 f,
          refl,
        ))

    value_by_native-ValueOf :
        ValueOf pos as_of quote (value_by_native window prices assets pos as_of quote)
    unfolding value_by_native
    value_by_native-ValueOf =
        go (native_quote pos.asset_id quote (get_asset pos.asset_id assets)) refl
      where
        go :
            (r : Result ValueError ℕ)
            → native_quote pos.asset_id quote (get_asset pos.asset_id assets) ≡ r
            → ValueOf pos as_of quote (
                r >>= λ native.
                or_stale (lookup_rate window prices pos.asset_id native as_of) >>= λ leg1.
                or_stale (lookup_rate window prices native quote as_of) >>= λ leg2.
                ok (d.mul (d.mul pos.quantity leg1) leg2))
        go (err stale_price) n = (other, direct, λ m q. absurd (not_both (sym n ∙ q)))
        go (err not_found) n = unlisted _ _ (get_asset pos.asset_id assets) n
        go (ok native) n = two_hops native n _ _ refl refl

  -- `Value` returns, without an error, the quantity itself, for a position in the quote asset; or
  -- the quantity times a rate; or the quantity times two rates that meet in the native quote
  -- currency of the asset. Each rate is the price of a stored row of its pair, the latest one at
  -- the instant, and not older than the stale window unless that is 0. It returns ErrStalePrice
  -- only where the position is in another asset, every row of the pair at the instant is older
  -- than the window, and so is every row of a leg through the native quote currency, where there
  -- is one; and not found only where the asset has no row.
  pub value-ValueOf :
      (pos : Position D) (as_of quote : ℕ)
      → ValueOf pos as_of quote (value window prices assets pos as_of quote)
  unfolding value
  value-ValueOf pos as_of quote = elim (Bool-cases (pos.asset_id == quote)) [
    | inl e ↦ rw e (inl (same e, refl))
    | inr e ↦ rw e (direct e (lookup_rate window prices pos.asset_id quote as_of) refl)
  ]
    where
      same : (pos.asset_id == quote) ≡ true → pos.asset_id ≡ quote
      same e = ground arith

      direct :
          (pos.asset_id == quote) ≡ false
          → (o : Option D) → lookup_rate window prices pos.asset_id quote as_of ≡ o
          → ValueOf pos as_of quote (elim o [
            | some rate ↦ ok (d.mul pos.quantity rate)
            | none ↦ value_by_native window prices assets pos as_of quote
          ])
      direct n none e =
          value_by_native-ValueOf pos as_of quote n (HasNoRate-lookup window prices _ _ _ e)
      direct n (some r) e = inr (inl (r, lookup_rate-IsRate window prices _ _ _ r e, refl))
