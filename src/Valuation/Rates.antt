-- ===== src/Valuation/Rates.antt =====
-- Which price a rate is, and when there is none.
use offbook.Common.{
  ℕ, ◌+◌, ◌≤◌, ◌≡◌, refl, sym, subst, inl, inr, ◌⊎◌, true, false, Option, none, some, List, [], ◌∷◌,
  arith, select, In-select, select-In, In, All, All-In, All-of_In, Bool-cases,
}
use offbook.Common.Sort.{sort, In-sort, sort-In, sort-IsSorted, IsSorted}
use offbook.Valuation.{
  Price, head, is_quote, newest_first, latest_price_at, is_stale, fresh_rate, lookup_rate,
}

-- The newest row first.
module _ {D : Type 0} where
  newest_total : (x y : Price D) → newest_first x y ≡ false → newest_first y x ≡ true
  newest_total x y h = ground arith

  newest_trans :
      (x y z : Price D)
      → newest_first x y ≡ true
      → newest_first y z ≡ true
      → newest_first x z ≡ true
  newest_trans x y z h k = ground arith

  newest_later : (x y : Price D) → newest_first x y ≡ true → y.as_of ≤ x.as_of
  newest_later x y h = ground arith

  head_of_sorted :
      (rows : List (Price D)) (p : Price D)
      → IsSorted newest_first rows
      → head rows ≡ some p
      → In p rows × ((x : Price D) → In x rows → x.as_of ≤ p.as_of)
  head_of_sorted [] p s e = cc
  head_of_sorted (y ∷ rows) p (first, s) e =
      (inl (sym same), λ x m. subst (λ (q : Price D). x.as_of ≤ q.as_of) same (later x m))
    where
      same : y ≡ p
      same = cc

      later : (x : Price D) → In x (y ∷ rows) → x.as_of ≤ y.as_of
      later x (inl q) = rw q (omega arith)
      later x (inr m) = newest_later y x (All-In _ x rows first m)

module _ {D : Type 0} (window : ℕ) (prices : List (Price D)) where
  -- A rate is the price of the latest row of the pair at the instant, which is not older than the
  -- window where there is one.
  pub record IsRate (asset quote as_of : ℕ) (rate : D) : Type 0 where
    pub row : Price D
    pub stored : In row prices
    pub of_asset : row.asset_id ≡ asset
    pub of_quote : row.quote_asset_id ≡ quote
    pub not_later : row.as_of ≤ as_of
    pub latest : All (λ p. is_quote asset quote as_of p ≡ true → p.as_of ≤ row.as_of) prices
    pub fresh : (window ≡ 0) ⊎ (as_of ≤ row.as_of + window)
    pub is_price : row.price ≡ rate

  -- The row that the query picks.
  pub picked :
      (asset quote as_of : ℕ) (p : Price D)
      → latest_price_at asset quote as_of prices ≡ some p
      → is_stale window as_of p ≡ false
      → IsRate asset quote as_of p.price
  unfolding latest_price_at
  picked asset quote as_of p e f = record {
    row = p;
    stored = stored;
    of_asset = ground (arith, passes);
    of_quote = ground (arith, passes);
    not_later = ground (arith, passes);
    latest = All-of_In _ prices (λ x m t.
        top.1 x (sort-In newest_first x _ (select-In (is_quote asset quote as_of) x prices m t)));
    fresh = ground (arith, f);
    is_price = refl;
  }
    where
      rows : List (Price D)
      rows = select (is_quote asset quote as_of) prices

      top :
          In p (sort newest_first rows)
          × ((x : Price D) → In x (sort newest_first rows) → x.as_of ≤ p.as_of)
      top =
          head_of_sorted (sort newest_first rows) p
            (sort-IsSorted newest_first newest_total newest_trans rows) e

      stored : In p prices
      stored =
          (In-select (is_quote asset quote as_of) p prices (In-sort newest_first p rows top.0)).0

      passes : is_quote asset quote as_of p ≡ true
      passes =
          (In-select (is_quote asset quote as_of) p prices (In-sort newest_first p rows top.0)).1

  pub lookup_rate-IsRate :
      (asset quote as_of : ℕ) (rate : D)
      → lookup_rate window prices asset quote as_of ≡ some rate
      → IsRate asset quote as_of rate
  unfolding lookup_rate
  lookup_rate-IsRate asset quote as_of rate e = go (latest_price_at asset quote as_of prices) refl e
    where
      rate_of :
          (p : Price D)
          → is_stale window as_of p ≡ false
          → fresh_rate window as_of (some p) ≡ some rate
          → p.price ≡ rate
      rate_of p f h = ground (arith, f, h)

      go :
          (o : Option (Price D))
          → latest_price_at asset quote as_of prices ≡ o
          → fresh_rate window as_of o ≡ some rate
          → IsRate asset quote as_of rate
      go none q h = cc
      go (some p) q h = elim (Bool-cases (is_stale window as_of p)) [
        | inl t ↦ absurd (ground (arith, t, h))
        | inr f ↦ subst (IsRate asset quote as_of) (rate_of p f h) (picked asset quote as_of p q f)
      ]

  -- Every row of the pair at the instant is older than the window.
  abbrev pub HasNoRate : ℕ → ℕ → ℕ → Type 0
  HasNoRate asset quote as_of =
      All (λ p. is_quote asset quote as_of p ≡ true → is_stale window as_of p ≡ true) prices

  stale_before :
      (as_of : ℕ) (x p : Price D)
      → x.as_of ≤ p.as_of
      → is_stale window as_of p ≡ true
      → is_stale window as_of x ≡ true
  stale_before as_of x p h t = ground arith

  pub HasNoRate-lookup :
      (asset quote as_of : ℕ)
      → lookup_rate window prices asset quote as_of ≡ none
      → HasNoRate asset quote as_of
  unfolding lookup_rate latest_price_at
  HasNoRate-lookup asset quote as_of e = All-of_In _ prices (λ x m t.
      go x (head rows) refl e
        (sort-In newest_first x _ (select-In (is_quote asset quote as_of) x prices m t)))
    where
      rows : List (Price D)
      rows = sort newest_first (select (is_quote asset quote as_of) prices)

      is_empty :
          (x : Price D) (ys : List (Price D))
          → head ys ≡ none
          → In x ys
          → is_stale window as_of x ≡ true
      is_empty x [] h m = absurd m
      is_empty x (y ∷ ys) h m = cc

      go :
          (x : Price D) (o : Option (Price D))
          → head rows ≡ o
          → fresh_rate window as_of o ≡ none
          → In x rows
          → is_stale window as_of x ≡ true
      go x none q h m = is_empty x rows q m
      go x (some p) q h m = elim (Bool-cases (is_stale window as_of p)) [
        | inl t ↦
            stale_before as_of x p
              ((head_of_sorted rows p (sort-IsSorted newest_first newest_total newest_trans _) q).1
                x m)
              t
        | inr f ↦ absurd (ground (arith, f, h))
      ]
