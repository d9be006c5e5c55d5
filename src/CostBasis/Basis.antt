-- ===== src/CostBasis/Basis.antt =====
-- The basis that Recompute returns is never negative.
use offbook.Common.{
  ℕ, ◌≡◌, ◌∙◌, refl, sym, ap, subst, inl, inr, Bool, true, false, not, ◌&&◌, ◌||◌, Option, none,
  some, List, [], ◌∷◌, arith, ◌==◌, if◌then◌else◌, All, All-In, Bool-cases, Decimal, IsDecimal,
  nought_add, sub, abs, is_zero, is_positive, is_negative, Result, ok, err, ◌>>=◌,
}
use offbook.Model.{Transaction}
use offbook.Reconcile.{PositionKey}
use offbook.Valuation.{Price, latest_price_at}
use offbook.Valuation.Rates.{picked}
use offbook.CostBasis.{
  CostError, RecomputeResult, at_end_of_day, list_by_account_and_asset, get_by_id, cash_of_partner,
  paired_cash_in_primary, remove_basis, book, recompute_row, walk, close, recompute,
}

module _ {D : Type 0} ⦃d : Decimal D⦄ (laws : IsDecimal D) where
  nought_fine : is_negative d.nought ≡ false
  nought_fine = ground (arith, laws.cmp_self d.nought)

  -- a against 0 is a + b against b.
  fine_add :
      (a b : D) → is_negative a ≡ false → is_negative b ≡ false → is_negative (d.add a b) ≡ false
  fine_add a b h k = ground (
    arith,
    h,
    k,
    shifted,
    laws.cmp_trans (d.add a b) b d.nought,
    laws.cmp_eq b d.nought,
    laws.cmp_trans b (d.add a b) d.nought,
    laws.cmp_flip b (d.add a b),
    laws.cmp_trans (d.add a b) d.nought b,
    laws.cmp_flip b d.nought,
  )
    where
      shifted : d.cmp (d.add a b) b ≡ d.cmp a d.nought
      shifted = ap (d.cmp (d.add a b)) (sym (nought_add laws b)) ∙ laws.cmp_add a d.nought b

  fine_neg : (a : D) → is_negative a ≡ true → is_negative (d.neg a) ≡ false
  fine_neg a h = ground (arith, h, shifted, laws.cmp_flip (d.neg a) d.nought)
    where
      shifted : d.cmp d.nought (d.neg a) ≡ d.cmp a d.nought
      shifted =
          ap (λ x. d.cmp x (d.neg a)) (sym (laws.add_neg a))
          ∙ ap (d.cmp (d.add a (d.neg a))) (sym (nought_add laws (d.neg a)))
          ∙ laws.cmp_add a d.nought (d.neg a)

  fine_abs : (a : D) → is_negative (abs a) ≡ false
  fine_abs a = elim (Bool-cases (is_negative a)) [
    | inl n ↦ rw (n, if◌then◌else◌) (fine_neg a n)
    | inr n ↦ rw (n, if◌then◌else◌) n
  ]

  remove_fine :
      (basis quantity amount : D) → is_negative (remove_basis basis quantity amount) ≡ false
  remove_fine basis quantity amount = elim (Bool-cases (is_negative left)) [
    | inl n ↦ rw (n, if◌then◌else◌) nought_fine
    | inr n ↦ rw (n, if◌then◌else◌) n
  ]
    where
      left : D
      left = sub basis (d.mul (d.div basis quantity) (abs amount))

  -- No priced cash leg, or one that is not negative.
  abbrev CashFine : Option D → Type 0
  CashFine none = Unit {0}
  CashFine (some cash) = is_negative cash ≡ false

  choose_fine :
      (test : Bool) (a b : D)
      → is_negative a ≡ false
      → is_negative b ≡ false
      → is_negative (if test then a else b) ≡ false
  choose_fine true a b h k = h
  choose_fine false a b h k = k

  chosen_fine :
      (positive negative : Bool) (bought sold kept : RecomputeResult D)
      → is_negative bought.cost_basis ≡ false
      → is_negative sold.cost_basis ≡ false
      → is_negative kept.cost_basis ≡ false
      → is_negative (if positive then bought else if negative then sold else kept).cost_basis
        ≡ false
  chosen_fine true negative bought sold kept h k l = h
  chosen_fine false true bought sold kept h k l = k
  chosen_fine false false bought sold kept h k l = l

  book_fine :
      (t : Transaction D) (cash : Option D) (s : RecomputeResult D)
      → CashFine cash
      → is_negative s.cost_basis ≡ false
      → is_negative (book t cash s).cost_basis ≡ false
  book_fine t none s c h =
      choose_fine (is_negative t.amount && is_positive s.quantity && s.has_cost_basis) _ _
        (remove_fine s.cost_basis s.quantity t.amount) h
  book_fine t (some cash) s c h =
      chosen_fine (is_positive t.amount) (is_negative t.amount) _ _ s
        (fine_add s.cost_basis cash h c)
        (choose_fine (is_positive s.quantity) _ _ (remove_fine s.cost_basis s.quantity t.amount) h)
        h

  module _
      (mul_fine : (a b : D)
        → is_negative a ≡ false
        → is_negative b ≡ false
        → is_negative (d.mul a b) ≡ false)
      (rows : List (Transaction D)) (prices : List (Price D)) (primary : ℕ)
      (prices_fine : All (λ p. is_negative p.price ≡ false) prices) where
    abbrev CashOk : Result CostError (Option D) → Type 0
    CashOk (ok cash) = CashFine cash
    CashOk (err e) = Unit {0}

    price_fine :
        (asset quote as_of : ℕ) (p : Price D)
        → latest_price_at asset quote as_of prices ≡ some p
        → is_negative p.price ≡ false
    price_fine asset quote as_of p e =
        let r = picked 0 prices asset quote as_of p e refl in
        subst (λ x. is_negative x ≡ false) r.is_price (All-In _ r.row prices prices_fine r.stored)

    partner_fine :
        (t : Transaction D) (o : Option (Transaction D))
        → CashOk (cash_of_partner prices t primary o)
    partner_fine t none = tt
    partner_fine t (some pair) =
        elim (Bool-cases (not (pair.account_id == t.account_id) || (pair.asset_id == t.asset_id))) [
          | inl a ↦ rw a tt
          | inr a ↦ rw a (elim (Bool-cases (pair.asset_id == primary)) [
            | inl p ↦ rw p (fine_abs pair.amount)
            | inr p ↦ rw p (
                rate
                  (latest_price_at pair.asset_id primary (at_end_of_day t.transaction_date) prices)
                  refl)
          ])
        ]
      where
        rate :
            (o : Option (Price D))
            → latest_price_at pair.asset_id primary (at_end_of_day t.transaction_date) prices ≡ o
            → CashOk (elim o [
              | none ↦ err CostError.fx_unavailable
              | some r ↦ ok (some (d.mul (abs pair.amount) r.price))
            ])
        rate none l = tt
        rate (some r) l =
            mul_fine (abs pair.amount) r.price (fine_abs pair.amount) (price_fine _ _ _ r l)

    paired_fine : (t : Transaction D) → CashOk (paired_cash_in_primary rows prices t primary)
    unfolding paired_cash_in_primary
    paired_fine t = go t.transfer_pair_id
      where
        go :
            (o : Option ℕ)
            → CashOk (elim o [
              | none ↦ ok none
              | some id ↦ cash_of_partner prices t primary (get_by_id t.user_id id rows)
            ])
        go none = tt
        go (some id) = partner_fine t (get_by_id t.user_id id rows)

    abbrev IsFine : Result CostError (RecomputeResult D) → Type 0
    IsFine (ok s) = is_negative s.cost_basis ≡ false
    IsFine (err e) = Unit {0}

    recompute_row-IsFine :
        (s : RecomputeResult D) (t : Transaction D)
        → is_negative s.cost_basis ≡ false
        → IsFine (recompute_row rows prices primary s t)
    unfolding recompute_row
    recompute_row-IsFine s t h = elim (Bool-cases (is_zero t.amount)) [
      | inl z ↦ rw z h
      | inr z ↦ rw z (booked (paired_cash_in_primary rows prices t primary) (paired_fine t))
    ]
      where
        booked :
            (c : Result CostError (Option D)) → CashOk c → IsFine (c >>= λ cash. ok (book t cash s))
        booked (err e) c = tt
        booked (ok cash) c = book_fine t cash s c h

    walk-IsFine :
        (s : RecomputeResult D) (ts : List (Transaction D))
        → is_negative s.cost_basis ≡ false
        → IsFine (walk rows prices primary s ts)
    unfolding walk
    walk-IsFine s [] h = h
    walk-IsFine s (t ∷ rest) h =
        go (recompute_row rows prices primary s t) (recompute_row-IsFine s t h)
          (λ next. walk-IsFine next rest)
      where
        go :
            (r : Result CostError (RecomputeResult D))
            → IsFine r
            → ((next : RecomputeResult D)
                → is_negative next.cost_basis ≡ false
                → IsFine (walk rows prices primary next rest))
            → IsFine (r >>= λ next. walk rows prices primary next rest)
        go (err e) k ih = tt
        go (ok next) k ih = ih next k

    close-IsFine :
        (r : Result CostError (RecomputeResult D)) → IsFine r → IsFine (r >>= λ s. ok (close s))
    close-IsFine (err e) h = tt
    close-IsFine (ok s) h = elim (Bool-cases (is_zero s.quantity)) [
      | inl z ↦ rw (z, if◌then◌else◌) nought_fine
      | inr z ↦ rw (z, if◌then◌else◌) h
    ]

    recompute-IsFine : (k : PositionKey) → IsFine (recompute rows prices k primary)
    unfolding recompute
    recompute-IsFine k = elim (Bool-cases (k.asset_id == primary)) [
      | inl e ↦ rw e nought_fine
      | inr e ↦ rw e (close-IsFine _ (walk-IsFine _ (list_by_account_and_asset k rows) nought_fine))
    ]

    -- Where no price is negative, and the product of two amounts that are not negative is not
    -- negative, the basis that `Recompute` returns is not negative.
    pub recompute_basis :
        (k : PositionKey) (r : RecomputeResult D)
        → recompute rows prices k primary ≡ ok r
        → is_negative r.cost_basis ≡ false
    recompute_basis k r e = subst IsFine e (recompute-IsFine k)
