-- ===== src/Valuation/Sums.antt =====
-- What the value of a set of positions is made of.
use offbook.Common.{
  ℕ, ◌≡◌, ◌∙◌, refl, sym, ap, subst, inl, inr, Bool, true, false, List, [], ◌∷◌, ◌++◌, map, select,
  Decimal, IsDecimal, total, nought_add, Result, ok, err, ◌>>=◌, All, Bool-cases,
}
use mathlib.Core.Bool.{true≢false}
use mathlib.Core.List.{append-nil, append_assoc}
use offbook.Valuation.{
  Price, Asset, Position, ValueError, stale_price, not_found, SetValuation, SeriesPoint, value,
  value_from, value_positions, series, trim_unknown_start,
}

module _ {D : Type 0} ⦃d : Decimal D⦄ where
  -- What a position adds to the sum: nothing where it has no fresh price.
  abbrev pub worth : Result ValueError D → D
  worth (ok v) = v
  worth (err e) = d.nought

module _ {D : Type 0} where
  abbrev pub is_unpriced : Result ValueError D → Bool
  is_unpriced (ok v) = false
  is_unpriced (err e) = true

  abbrev pub is_unknown : Result ValueError D → Bool
  is_unknown (err not_found) = true
  is_unknown _ = false

module _ {D : Type 0} ⦃d : Decimal D⦄ (laws : IsDecimal D) (window : ℕ) (prices : List (Price D))
    (assets : List Asset) (as_of quote : ℕ) where
  abbrev pub valued : Position D → Result ValueError D
  valued p = value window prices assets p as_of quote

  -- The sum over the positions, and the assets of those without a fresh price.
  abbrev pub summed : SetValuation D → List (Position D) → SetValuation D
  summed out positions = record {
    value = d.add out.value (total (map (λ p. worth (valued p)) positions));
    unpriced =
        out.unpriced ++ map (λ p. p.asset_id) (select (λ p. is_unpriced (valued p)) positions);
  }

  value_from-eq :
      (out : SetValuation D) (positions : List (Position D))
      → All (λ p. is_unknown (valued p) ≡ false) positions
      → value_from window prices assets out positions as_of quote ≡ ok (summed out positions)
  unfolding value_from
  value_from-eq out [] h = λ i. ok (record {
    value = sym (laws.add_nought out.value) i;
    unpriced = sym (append-nil out.unpriced) i;
  })
  value_from-eq out (p ∷ rest) (h, hs) = go (valued p) refl h (λ o. value_from-eq o rest hs)
    where
      go :
          (r : Result ValueError D)
          → valued p ≡ r
          → is_unknown r ≡ false
          → ((o : SetValuation D)
              → value_from window prices assets o rest as_of quote ≡ ok (summed o rest))
          → value_from window prices assets out (p ∷ rest) as_of quote ≡ ok (summed out (p ∷ rest))
      go (ok v) e k ih =
          rw (e, value_from)
            (ih (record { value = d.add out.value v; unpriced = out.unpriced }) ∙ (λ i. ok (record {
              value = laws.add_assoc out.value v (total (map (λ p. worth (valued p)) rest)) i;
              unpriced =
                  out.unpriced ++ map (λ p. p.asset_id) (select (λ p. is_unpriced (valued p)) rest);
            })))
      go (err stale_price) e k ih =
          rw (e, value_from)
            (ih (record { value = out.value; unpriced = out.unpriced ++ (p.asset_id ∷ []) }) ∙ (λ i.
              ok (record {
                value =
                    d.add out.value
                      (sym (nought_add laws (total (map (λ p. worth (valued p)) rest))) i);
                unpriced =
                    append_assoc out.unpriced (p.asset_id ∷ [])
                      (map (λ p. p.asset_id) (select (λ p. is_unpriced (valued p)) rest)) i;
              })))
      go (err not_found) e k ih = absurd (true≢false k)

  -- Where the asset of every position that has no direct price is known, `ValuePositions` returns
  -- the sum of the values of the positions that have a fresh price, with the assets of the others
  -- in their order.
  pub value_positions-summed :
      (positions : List (Position D))
      → All (λ p. is_unknown (valued p) ≡ false) positions
      → value_positions window prices assets positions as_of quote
        ≡ ok (record {
          value = total (map (λ p. worth (valued p)) positions);
          unpriced = map (λ p. p.asset_id) (select (λ p. is_unpriced (valued p)) positions);
        })
  unfolding value_positions
  value_positions-summed positions h =
      value_from-eq (record { value = d.nought; unpriced = [] }) positions h ∙ (λ i. ok (record {
        value = nought_add laws (total (map (λ p. worth (valued p)) positions)) i;
        unpriced = map (λ p. p.asset_id) (select (λ p. is_unpriced (valued p)) positions);
      }))

module _ {D : Type 0} ⦃d : Decimal D⦄ (window : ℕ) (prices : List (Price D)) (assets : List Asset)
    (positions_at : ℕ → Result ValueError (List (Position D))) (quote : ℕ) where
  -- A point holds the valuation of the set of its instant.
  abbrev pub IsPoint : SeriesPoint D → Type 0
  IsPoint p =
      (positions : List (Position D)) × (positions_at p.as_of ≡ ok positions)
      × (value_positions window prices assets positions p.as_of quote ≡ ok p.valuation)

  abbrev pub IsSeries : List ℕ → Result ValueError (List (SeriesPoint D)) → Type 0
  IsSeries as_ofs (ok points) = (map (λ p. p.as_of) points ≡ as_ofs) × All IsPoint points
  IsSeries as_ofs (err e) = Unit {0}

  IsSeries-point :
      (t : ℕ) (rest : List ℕ) (positions : List (Position D))
      → positions_at t ≡ ok positions
      → (v : Result ValueError (SetValuation D))
      → value_positions window prices assets positions t quote ≡ v
      → (more : Result ValueError (List (SeriesPoint D))) → IsSeries rest more
      → IsSeries
          (t ∷ rest)
          (v >>= λ val. more >>= λ points. ok (record { as_of = t; valuation = val } ∷ points))
  IsSeries-point t rest positions q (err x) e more h = tt
  IsSeries-point t rest positions q (ok v) e (err x) h = tt
  IsSeries-point t rest positions q (ok v) e (ok points) (a, b) =
      (ap (λ r. t ∷ r) a, ((positions, q, e), b))

  IsSeries-step :
      (t : ℕ) (rest : List ℕ) (r : Result ValueError (List (Position D)))
      → positions_at t ≡ r
      → (more : Result ValueError (List (SeriesPoint D))) → IsSeries rest more
      → IsSeries (t ∷ rest) (
          r >>= λ positions. value_positions window prices assets positions t quote >>= λ val.
          more >>= λ points. ok (record { as_of = t; valuation = val } ∷ points))
  IsSeries-step t rest (err x) q more h = tt
  IsSeries-step t rest (ok positions) q more h = IsSeries-point t rest positions q _ refl more h

  series-IsSeries :
      (as_ofs : List ℕ) → IsSeries as_ofs (series window prices assets positions_at as_ofs quote)
  unfolding series
  series-IsSeries [] = (refl, tt)
  series-IsSeries (t ∷ rest) = IsSeries-step t rest (positions_at t) refl _ (series-IsSeries rest)

  -- A series that `Series` returns has one point for each instant, in their order, and each point
  -- holds the valuation of the set of its instant.
  pub series-IsPoint :
      (as_ofs : List ℕ) (points : List (SeriesPoint D))
      → series window prices assets positions_at as_ofs quote ≡ ok points
      → (map (λ p. p.as_of) points ≡ as_ofs) × All IsPoint points
  series-IsPoint as_ofs points e = subst (IsSeries as_ofs) e (series-IsSeries as_ofs)

module _ {D : Type 0} (held : ℕ → Bool) where
  abbrev pub StartsHeld : List (SeriesPoint D) → Type 0
  StartsHeld [] = Unit {0}
  StartsHeld (p ∷ rest) = held p.as_of ≡ true

  -- `TrimUnknownStart` takes away, from the start, points whose instants held no position, and
  -- leaves nothing or a first point whose instant held one.
  pub trim-StartsHeld :
      (points : List (SeriesPoint D))
      → StartsHeld (trim_unknown_start held points)
        × ((dropped : List (SeriesPoint D)) × (points ≡ dropped ++ trim_unknown_start held points)
            × All (λ p. held p.as_of ≡ false) dropped)
  unfolding trim_unknown_start
  trim-StartsHeld [] = (tt, ([], refl, tt))
  trim-StartsHeld (p ∷ rest) = elim (Bool-cases (held p.as_of)) [
    | inl e ↦ rw e (e, ([], refl, tt))
    | inr e ↦ rw e (
        let (s, (dropped, q, h)) = trim-StartsHeld rest in
        (s, (p ∷ dropped, ap (λ r. p ∷ r) q, (e, h))))
  ]
