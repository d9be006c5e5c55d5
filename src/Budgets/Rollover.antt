-- ===== src/Budgets/Rollover.antt =====
-- What earlier periods roll into a period: carryoverWith.
mod Periods
pub mod Rolled
pub mod Bounds
use offbook.Common.{
  ℕ, zero, suc, Bool, true, false, not, Option, none, some, List, ltb, if◌then◌else◌, Decimal, sub,
  greater_than,
}
use offbook.Calendar.Spans.{Span, next_start, prev_start}
use offbook.Plans.{Budget, BudgetAmount}
use offbook.Budgets.{SpendLine, span_of, window_start, spend_by_period}
use offbook.Budgets.Limits.{limit_at}

abbrev pub max_rollover_periods : ℕ
max_rollover_periods = 36

-- The loop that walks back, with the rounds left.
unfoldable pub walk_back : Span → ℕ → ℕ → ℕ → ℕ
walk_back span start zero earliest = earliest
walk_back span start (suc i) earliest = elim (ltb start earliest) [
  | true ↦ walk_back span start i (prev_start span earliest)
  | false ↦ earliest
]

module _ {D : Type 0} ⦃d : Decimal D⦄ where
  -- decimal.Max(decimal.Zero, x)
  abbrev pub at_least_zero : D → D
  at_least_zero x = if greater_than x d.nought then x else d.nought

  -- The loop over the periods, on fuel; `none` means that the fuel ran out.
  unfoldable pub roll : Span → (ℕ → D) → (ℕ → D) → ℕ → ℕ → ℕ → D → Option D
  roll span limit spend zero current_from p carry = none
  roll span limit spend (suc fuel) current_from p carry = elim (ltb p current_from) [
    | true ↦
        roll span limit spend fuel current_from (next_start span p)
          (at_least_zero (sub (d.add carry (limit p)) (spend p)))
    | false ↦ some carry
  ]

  unfoldable pub carryover_with :
      List (SpendLine D) → ℕ → Budget D → List ℕ → List (BudgetAmount D) → ℕ → Option D
  carryover_with lines user b categories history current_from =
      let span = span_of b.period in
      let start = window_start span b.created_at in
      let earliest = walk_back span start max_rollover_periods current_from in
      let carry : D = if not (ltb start earliest) then b.rollover_start else d.nought in
      if not b.rollover
      then some d.nought
      else if ltb current_from start
      then some d.nought
      else if not (ltb earliest current_from)
      then some carry
      else roll span (limit_at history b.amount)
          (spend_by_period lines user categories span earliest current_from)
          (suc max_rollover_periods) current_from earliest carry
