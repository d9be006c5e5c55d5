-- ===== src/Reconcile/Repeat.antt =====
-- Reconciling twice with the same report.
use offbook.Common.{
  ℕ, ◌≡◌, ◌∙◌, refl, ap, inl, inr, ◌≤◌, ◌<◌, Option, none, List, [], String, arith, if◌then◌else◌,
  if-same, Option-cases, Decimal, IsDecimal, is_zero-nought, sub_self, ◌⊎◌,
}
use offbook.Reconcile.{
  PositionKey, InsertedRow, Ledger, offset_at_next_anchor, day_of, reconcile_fold,
  reconcile_position_for_job, reconcile_position,
}
use offbook.Reconcile.Anchors.{next}
use offbook.Reconcile.Folds.{fold_current, fold_backdated}
use offbook.Reconcile.Balances.{reconcile_current, reconcile_backdated}

module _ {D : Type 0} ⦃d : Decimal D⦄ (laws : IsDecimal D) where
  no_offset :
      (k : PositionKey) (as_of obs_id : ℕ) (job : Option ℕ) (l : Ledger D)
      → offset_at_next_anchor k d.nought [] as_of obs_id job l ≡ l
  unfolding offset_at_next_anchor
  no_offset k as_of obs_id job l = elim (Option-cases (next k as_of l)) [
    | inl e ↦ rw (e, offset_at_next_anchor) refl
    | inr (n, e) ↦ rw (e, offset_at_next_anchor, is_zero-nought laws, if◌then◌else◌) refl
  ]

  module _ (now : ℕ) (k : PositionKey) (reported : D) (as_of : ℕ) (source : String) where
    -- A report that the ledger already matches writes no transaction.
    pub reconcile_matched :
        (l : Ledger D)
        → (reconcile_fold now k as_of l.transactions).0 ≡ reported
        → let (row, after) = reconcile_position now k reported as_of source l in
          (row ≡ none) × (after.transactions ≡ l.transactions)
    unfolding reconcile_position reconcile_position_for_job
    reconcile_matched l h =
        rw (h, sub_self laws, is_zero-nought laws, no_offset)
          (refl, ap (λ (w : Ledger D). w.transactions) (if-same _ _))

    -- A second call with the same report returns no row and leaves the transactions as the first
    -- call made them.
    pub reconcile_idem :
        (first : String) (job : Option ℕ) (inserted : List (InsertedRow D)) (l : Ledger D)
        → let (row, once) = reconcile_position_for_job now k reported as_of first job inserted l in
          let (again, twice) = reconcile_position now k reported as_of source once in
          (again ≡ none) × (twice.transactions ≡ once.transactions)
    reconcile_idem first job inserted l =
        reconcile_matched once (elim (order (day_of now) (day_of as_of)) [
          | inl h ↦
              (λ i. (fold_current now as_of k once.transactions h i).0)
              ∙ reconcile_current laws now k reported as_of first job inserted l h
          | inr h ↦
              (λ i. (fold_backdated now as_of k once.transactions h i).0)
              ∙ reconcile_backdated laws now k reported as_of first job inserted l h
        ])
      where
        once : Ledger D
        once = (reconcile_position_for_job now k reported as_of first job inserted l).1

        order : (a b : ℕ) → (a ≤ b) ⊎ (b < a)
        order a b = ground arith
