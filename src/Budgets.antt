-- ===== src/Budgets.antt =====
-- Budgets: backend/internal/service/budget_service.go with the queries of
-- backend/internal/repository/budget_repo.go. A date is a day number of the calendar; of a time
-- the code reads its UTC day. `lines` is the view spend_lines, and tables hold live rows.
pub mod Limits
pub mod Rollover
pub mod Summary
pub mod Editing
mod Tests
use offbook.Common.{
  ℕ, zero, suc, ◌+◌, ◌-◌, ◌%◌, Bool, true, false, not, ◌&&◌, ◌||◌, Option, none, some, List, [],
  ◌∷◌, ◌++◌, map, String, ltb, leb, ◌==◌, str_eq, if◌then◌else◌, holds, any, select, length, has_id,
  Decimal, sub, total, is_negative, is_positive, is_zero, greater_than, arith,
}
use offbook.Calendar.{year_start, year_of, month_start, month_of}
use offbook.Calendar.Spans.{Span, week, month, year, next_start, prev_start}
use offbook.Common.Sort.{sort}
use offbook.Model.{Kind, flow}
use offbook.Plans.{Category, Budget, BudgetAmount, PlanOwner, user_owner, owned_by, list_categories}
use offbook.Valuation.{head}

-- A row of the view: a transaction, or one line of a split transaction.
pub record SpendLine (D : Type 0) : Type 0 where
  pub user_id : ℕ
  pub category_id : Option ℕ
  pub is_transfer : Bool
  pub kind : Kind
  pub transaction_date : ℕ
  pub amount : D
  pub is_refund : Bool

pub record Book (D : Type 0) : Type 0 where
  pub categories : List Category
  pub budgets : List (Budget D)
  pub amounts : List (BudgetAmount D)
  pub lines : List (SpendLine D)
  pub next_budget_id : ℕ

pub data BudgetError : Type 0 where
  budget_not_found invalid_budget_period invalid_budget_amount duplicate_active_budget : BudgetError
  invalid_rollover_start budget_date_in_future unknown_category : BudgetError

-- The switch on the period; a month is its default.
pub span_of : String → Span
span_of period =
    if str_eq period "weekly" then week else if str_eq period "annual" then year else month

-- The first day of the period around a day.
pub window_start : Span → ℕ → ℕ
window_start week day = day - day % 7
window_start month day = month_start (month_of day)
window_start year day = year_start (year_of day)

pub period_window : String → ℕ → ℕ × ℕ
period_window period now =
    let from = window_start (span_of period) now in (from, next_start (span_of period) from)

-- A nullable id is in a list.
abbrev pub includes : List ℕ → Option ℕ → Bool
includes ids none = false
includes ids (some c) = has_id ids c

-- kind = 'flow'
abbrev pub is_spend : Kind → Bool
is_spend flow = true
is_spend _ = false

abbrev pub same_category : Option ℕ → Option ℕ → Bool
same_category none none = true
same_category (some a) (some b) = a == b
same_category _ _ = false

module _ {D : Type 0} ⦃d : Decimal D⦄ where
  -- user_id = ? AND is_transfer = FALSE AND kind = 'flow' AND transaction_date in [from, to)
  abbrev pub counts_in : ℕ → ℕ → ℕ → SpendLine D → Bool
  counts_in user from to l =
      (l.user_id == user)
      && not l.is_transfer
      && is_spend l.kind
      && leb from l.transaction_date
      && ltb l.transaction_date to

  -- category_id IN ?
  abbrev pub is_in : List ℕ → SpendLine D → Bool
  is_in categories l = includes categories l.category_id

  -- -amount FILTER (WHERE amount < 0 OR is_refund)
  abbrev pub outflow : SpendLine D → D
  outflow l = if is_negative l.amount || l.is_refund then d.neg l.amount else d.nought

  abbrev pub spent_on : (SpendLine D → Bool) → List (SpendLine D) → D
  spent_on test lines = total (map outflow (select test lines))

  pub current_period_spend : List (SpendLine D) → ℕ → List ℕ → ℕ → ℕ → D
  current_period_spend lines user categories from to =
      spent_on (λ l. counts_in user from to l && is_in categories l) lines

  -- The sum of each period, by its first day; 0 where no line falls in it.
  pub spend_by_period : List (SpendLine D) → ℕ → List ℕ → Span → ℕ → ℕ → ℕ → D
  spend_by_period lines user categories span from to p =
      spent_on
        (λ l.
          counts_in user from to l
          && is_in categories l
          && (window_start span l.transaction_date == p))
        lines

  -- GROUP BY category_id
  pub add_to : Option ℕ → D → List (Option ℕ × D) → List (Option ℕ × D)
  add_to c v [] = (c, v) ∷ []
  add_to c v ((b, u) ∷ rest) =
      if same_category c b then (b, d.add v u) ∷ rest else (b, u) ∷ add_to c v rest

  pub group_by_category : List (SpendLine D) → List (Option ℕ × D)
  group_by_category [] = []
  group_by_category (l ∷ rest) = add_to l.category_id (outflow l) (group_by_category rest)

  abbrev pub spends_more : Option ℕ × D → Option ℕ × D → Bool
  spends_more (a, x) (b, y) = not (greater_than y x)

  pub spend_all_categories_in_range : List (SpendLine D) → ℕ → ℕ → ℕ → List (Option ℕ × D)
  spend_all_categories_in_range lines user from to =
      select (λ g. not (is_zero g.1))
        (sort spends_more (group_by_category (select (counts_in user from to) lines)))
