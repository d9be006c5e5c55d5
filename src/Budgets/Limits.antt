-- ===== src/Budgets/Limits.antt =====
-- The limit of a budget in a period: AmountHistory, LimitAt and the history's writes.
mod Places
mod Edits
pub mod Kept
use offbook.Common.{
  ℕ, zero, suc, ◌-◌, Bool, true, false, not, ◌&&◌, Option, none, some, List, [], ◌∷◌, ◌++◌, map,
  ltb, leb, ◌==◌, if◌then◌else◌, any, select, length, Decimal,
}
use offbook.Common.Sort.{sort}
use offbook.Plans.{BudgetAmount}
use offbook.Valuation.{head}

pub record BudgetLimitChange (D : Type 0) : Type 0 where
  pub from : ℕ
  pub prev_from : ℕ
  pub prev : D

module _ {D : Type 0} where
  abbrev pub oldest_first : BudgetAmount D → BudgetAmount D → Bool
  oldest_first x y = leb x.effective_from y.effective_from

  unfoldable pub amount_history : List (BudgetAmount D) → ℕ → List (BudgetAmount D)
  amount_history amounts budget = sort oldest_first (select (λ h. h.budget_id == budget) amounts)

  abbrev pub entry : List (BudgetAmount D) → ℕ → Option (BudgetAmount D)
  entry [] i = none
  entry (h ∷ rest) zero = some h
  entry (h ∷ rest) (suc i) = entry rest i

  abbrev pub is_after : ℕ → Option (BudgetAmount D) → Bool
  is_after day none = false
  is_after day (some h) = ltb day h.effective_from

  -- The loop from the last entry down to one that is not after the day; the place is one more than
  -- the index of the code, so that 0 stands for -1.
  unfoldable pub step_back : List (BudgetAmount D) → ℕ → ℕ → ℕ
  step_back history day zero = 0
  step_back history day (suc i) = elim (is_after day (entry history i)) [
    | true ↦ step_back history day i
    | false ↦ suc i
  ]

  abbrev pub amount_or : D → Option (BudgetAmount D) → D
  amount_or current none = current
  amount_or current (some h) = h.amount

  unfoldable pub limit_at : List (BudgetAmount D) → D → ℕ → D
  limit_at history current day =
      let n = length history in
      let i = step_back history day n in
      if n == 0
      then current
      else if i == n
      then current
      else amount_or current (entry history (i - 1))

  -- INSERT ... ON CONFLICT (budget_id, effective_from) DO UPDATE
  abbrev pub is_entry : ℕ → ℕ → BudgetAmount D → Bool
  is_entry budget from h = (h.budget_id == budget) && (h.effective_from == from)

  unfoldable pub upsert_budget_amount : ℕ → D → ℕ → List (BudgetAmount D) → List (BudgetAmount D)
  upsert_budget_amount budget amount from rows =
      if any (is_entry budget from) rows
      then map (λ h. if is_entry budget from h then record h { amount = amount } else h) rows
      else rows ++ (record { budget_id = budget; amount = amount; effective_from = from } ∷ [])

  -- INSERT ... WHERE NOT EXISTS an entry before the current period.
  unfoldable pub pin_previous : ℕ → D → ℕ → ℕ → List (BudgetAmount D) → List (BudgetAmount D)
  pin_previous budget prev prev_from from rows =
      if any (λ h. (h.budget_id == budget) && ltb h.effective_from from) rows
      then rows
      else rows ++ (record { budget_id = budget; amount = prev; effective_from = prev_from } ∷ [])

  -- The writes of the limit history that go with an edit.
  unfoldable pub record_change :
      ℕ → D → Option (BudgetLimitChange D) → List (BudgetAmount D) → List (BudgetAmount D)
  record_change budget amount none rows = rows
  record_change budget amount (some c) rows =
      upsert_budget_amount budget amount c.from (pin_previous budget c.prev c.prev_from c.from rows)
