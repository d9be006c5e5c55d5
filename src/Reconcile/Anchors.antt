-- ===== src/Reconcile/Anchors.antt =====
-- The next anchor lies on a later day than the report.
use offbook.Common.{
  ℕ, suc, ◌*◌, ◌<◌, ◌≤◌, ◌≡◌, ap, select-snoc, ◌++◌, subst, Bool, true, ◌&&◌, Option, none, some,
  List, [], ◌∷◌, map, arith, ltb, select,
}
use offbook.Model.{Transaction}
use offbook.Reconcile.{
  PositionKey, Observation, Ledger, observed_at, earliest, next_anchor, earliest_after,
  earliest_reconciling_after, day_of,
}

-- A number that is there is at least `m`.
abbrev AtLeast : ℕ → Option ℕ → Type 0
AtLeast m none = Unit
AtLeast m (some n) = m ≤ n

-- The earliest of some numbers is at least what all of them are.
module _ {A : Type 0} (f : A → ℕ) (p : A → Bool) (m : ℕ)
    (good : (a : A) → p a ≡ true → m ≤ f a) where
  earliest-AtLeast : (rows : List A) → AtLeast m (earliest (map f (select p rows)))
  earliest-AtLeast [] = tt
  earliest-AtLeast (x ∷ rows) = ground (arith, good x, earliest-AtLeast rows)

-- The day of the anchor is later.
abbrev IsLater : ℕ → Option ℕ → Type 0
IsLater day none = Unit
IsLater day (some n) = day < day_of n

-- Of two anchors that are later, the earlier one.
IsLater-anchor :
    (as_of : ℕ) (observed reconciled : Option ℕ)
    → AtLeast (suc (day_of as_of) * 86400) observed
    → AtLeast (suc (day_of as_of)) reconciled
    → IsLater (day_of as_of) (next_anchor observed reconciled)
unfolding next_anchor
IsLater-anchor as_of none none a b = tt
IsLater-anchor as_of (some t) none a b = omega arith
IsLater-anchor as_of none (some n) a b = omega arith
IsLater-anchor as_of (some t) (some n) a b = ground arith

module _ {D : Type 0} (k : PositionKey) (as_of : ℕ) where
  observed_later :
      (rows : List (Observation D))
      → AtLeast (suc (day_of as_of) * 86400) (earliest_after k as_of rows)
  unfolding earliest_after
  observed_later rows = earliest-AtLeast _ _ (suc (day_of as_of) * 86400) good rows
    where
      good :
          (o : Observation D)
          → (observed_at k o && ltb (day_of as_of) (day_of o.as_of)) ≡ true
          → suc (day_of as_of) * 86400 ≤ o.as_of
      good o e = omega (arith, later)
        where
          later : day_of as_of < day_of o.as_of
          later = ground arith

  reconciled_later :
      (rows : List (Transaction D))
      → AtLeast (suc (day_of as_of)) (earliest_reconciling_after k (day_of as_of) rows)
  unfolding earliest_reconciling_after
  reconciled_later rows = earliest-AtLeast _ _ (suc (day_of as_of)) (λ t e. ground arith) rows

  -- The anchor that the report must not move.
  abbrev pub next : Ledger D → Option ℕ
  next l =
      next_anchor (earliest_after k as_of l.observations)
        (earliest_reconciling_after k (day_of as_of) l.transactions)

  pub next_anchor_later : (l : Ledger D) (n : ℕ) → next l ≡ some n → day_of as_of < day_of n
  next_anchor_later l n h =
      subst (IsLater (day_of as_of)) h
        (IsLater-anchor as_of _ _ (observed_later l.observations) (reconciled_later l.transactions))

  -- Rows of the report's own day are no later anchor.
  pub earliest_after-snoc :
      (rows : List (Observation D)) (o : Observation D)
      → o.as_of ≡ as_of
      → earliest_after k as_of (rows ++ (o ∷ [])) ≡ earliest_after k as_of rows
  unfolding earliest_after
  earliest_after-snoc rows o h =
      ap (λ os. earliest (map (λ o. o.as_of) os)) (select-snoc _ rows o (rw h (ground arith)))

  pub earliest_reconciling_after-snoc :
      (rows : List (Transaction D)) (t : Transaction D)
      → t.transaction_date ≡ day_of as_of
      → earliest_reconciling_after k (day_of as_of) (rows ++ (t ∷ []))
        ≡ earliest_reconciling_after k (day_of as_of) rows
  unfolding earliest_reconciling_after
  earliest_reconciling_after-snoc rows t h =
      ap (λ ts. earliest (map (λ t. t.transaction_date) ts))
        (select-snoc _ rows t (rw h (ground arith)))
