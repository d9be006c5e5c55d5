-- ===== src/Budgets/Rollover/Bounds.antt =====
-- The balance that rolls over is never below zero.
use offbook.Common.{
  ℕ, zero, suc, ◌-◌, ◌≡◌, false, not, some, List, arith, ltb, leb, if-P, Decimal, IsDecimal,
  is_negative,
}
use offbook.Calendar.Spans.{Span, index}
use offbook.Plans.{Budget, BudgetAmount}
use offbook.Budgets.{SpendLine, span_of, window_start}
use offbook.Budgets.Rollover.{max_rollover_periods, at_least_zero, carryover_with}
use offbook.Budgets.Rollover.Rolled.{rolled, carried, carryover-eq-carried}

module _ {D : Type 0} ⦃d : Decimal D⦄ (laws : IsDecimal D) where
  nought_fine : is_negative d.nought ≡ false
  nought_fine = ground (arith, laws.cmp_self d.nought)

  at_least_zero_fine : (x : D) → is_negative (at_least_zero x) ≡ false
  at_least_zero_fine x = ground (arith, laws.cmp_self d.nought)

  rolled_fine :
      (span : Span) (limit : ℕ → D) (spend : ℕ → ℕ → D) (n k : ℕ) (carry : D)
      → is_negative carry ≡ false
      → is_negative (rolled span limit spend n k carry) ≡ false
  unfolding rolled
  rolled_fine span limit spend zero k carry h = h
  rolled_fine span limit spend (suc n) k carry h =
      rolled_fine span limit spend n (suc k) _ (at_least_zero_fine _)

  -- The balance that rolls into any period is not negative where the starting balance is not.
  pub carryover_fine :
      (lines : List (SpendLine D)) (user : ℕ) (b : Budget D) (categories : List ℕ)
      (history : List (BudgetAmount D)) (on : ℕ)
      → is_negative b.rollover_start ≡ false
      → (carry : D) × (carryover_with lines user b categories history
            (window_start (span_of b.period) on)
          ≡ some carry)
        × (is_negative carry ≡ false)
  carryover_fine lines user b categories history on h = (
    carried lines user b categories history s k,
    carryover-eq-carried lines user b categories history on,
    if-P IsFine (not b.rollover) _ _ nought_fine (
        if-P IsFine (ltb k s) _ _ nought_fine (
          if-P IsFine (leb (k - s) max_rollover_periods) _ _
            (rolled_fine _ _ _ (k - s) s b.rollover_start h)
            (rolled_fine _ _ _ max_rollover_periods (k - max_rollover_periods) d.nought
              nought_fine))),
  )
    where
      s : ℕ
      s = index (span_of b.period) b.created_at

      k : ℕ
      k = index (span_of b.period) on

      IsFine : D → Type 0
      IsFine x = is_negative x ≡ false
