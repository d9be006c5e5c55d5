-- ===== src/Budgets/Summary.antt =====
-- The view of a budget on a day and the summary of a month: coverage, spendView, SpendOn and
-- MonthSummary. `pct` is the quotient, which the code then turns into a float.
mod Balances
mod Disjoint
pub mod Months
use offbook.Common.{
  ℕ, suc, ◌+◌, ◌-◌, Bool, true, false, not, ◌&&◌, ◌||◌, Option, none, some, List, [], ◌∷◌, ◌++◌,
  map, String, ltb, leb, ◌==◌, str_eq, if◌then◌else◌, holds, any, select, length, has_id, Decimal,
  sub, is_positive, Result, ok, err, ◌>>=◌, or_else,
}
use offbook.Common.Sort.{sort}
use offbook.Plans.{Category, Budget, BudgetAmount, PlanOwner, user_owner, owned_by, list_categories}
use offbook.Valuation.{head}
use offbook.Budgets.{
  SpendLine, Book, BudgetError, budget_not_found, budget_date_in_future, period_window,
  current_period_spend, spend_all_categories_in_range, includes,
}
use offbook.Budgets.Limits.{amount_history, limit_at}
use offbook.Budgets.Rollover.{carryover_with}

pub record BudgetSpend (D : Type 0) : Type 0 where
  pub budget_id : ℕ
  pub category_id : ℕ
  pub category_ids : List ℕ
  pub period_start : ℕ
  pub period_end : ℕ
  pub limit : D
  pub carryover : D
  pub available : D
  pub spent : D
  pub remaining : D
  pub pct : D

pub record BudgetMonthSummary (D : Type 0) : Type 0 where
  pub period_start : ℕ
  pub period_end : ℕ
  pub budget_count : ℕ
  pub budgeted : D
  pub carryover : D
  pub available : D
  pub spent_in_budgets : D
  pub remaining : D
  pub not_in_budget : D
  pub total_spending : D
  pub unbudgeted : List (Option ℕ × D)

module _ {D : Type 0} where
  pub get_budget : PlanOwner → ℕ → List (Budget D) → Option (Budget D)
  get_budget owner id rows = head (
      select
        (λ b. owned_by owner.user_id owner.household_id b.user_id b.household_id && (b.id == id))
        rows)

  -- ORDER BY is_active DESC, id ASC
  abbrev pub active_first : Budget D → Budget D → Bool
  active_first x y =
      (x.is_active && not y.is_active)
      || (((x.is_active && y.is_active) || (not x.is_active && not y.is_active)) && leb x.id y.id)

  pub list_budgets : PlanOwner → List (Budget D) → List (Budget D)
  list_budgets owner rows =
      sort active_first
        (select (λ b. owned_by owner.user_id owner.household_id b.user_id b.household_id) rows)

  -- ownBudget
  abbrev pub own_budget : List (Budget D) → ℕ → Bool
  own_budget budgets c = any (λ b. b.is_active && (b.category_id == c)) budgets

  -- The category of a budget, and its subcategories that have no active budget of their own.
  pub coverage : List Category → List (Budget D) → Budget D → List ℕ
  coverage categories budgets b =
      b.category_id
      ∷ map (λ c. c.id)
          (select (λ c. holds c.parent_id b.category_id && not (own_budget budgets c.id))
            categories)

  abbrev pub is_monthly : Budget D → Bool
  is_monthly b = str_eq b.period "monthly" && b.is_active

  -- The set `budgeted`.
  pub budgeted_ids : List (BudgetSpend D) → List ℕ
  budgeted_ids [] = []
  budgeted_ids (v ∷ rest) = v.category_ids ++ budgeted_ids rest

module _ {D : Type 0} ⦃d : Decimal D⦄ where
  -- `none` of the rollover loop cannot happen; see Rollover.
  pub spend_view : Book D → ℕ → Budget D → List ℕ → ℕ → BudgetSpend D
  spend_view book user b cats on =
      let (from, to) = period_window b.period on in
      let spent = current_period_spend book.lines user cats from to in
      let limits = amount_history book.amounts b.id in
      let limit = limit_at limits b.amount from in
      let carry = or_else (carryover_with book.lines user b cats limits from) d.nought in
      let available = d.add limit carry in
      record {
        budget_id = b.id;
        category_id = b.category_id;
        category_ids = cats;
        period_start = from;
        period_end = to;
        limit = limit;
        carryover = carry;
        available = available;
        spent = spent;
        remaining = sub available spent;
        pct = if is_positive available then d.div spent available else d.nought;
      }

  pub spend_on : Book D → ℕ → ℕ → ℕ → ℕ → Result BudgetError (BudgetSpend D)
  spend_on book now user id on =
      if not (ltb on (now + 1))
      then err budget_date_in_future
      else elim (get_budget (user_owner user) id book.budgets) [
        | none ↦ err budget_not_found
        | some b ↦ ok (
            spend_view book user b
              (coverage (list_categories user book.categories)
                (list_budgets (user_owner user) book.budgets) b)
              on)
      ]

  -- One turn of the loop over the budgets.
  pub add_view : BudgetSpend D → BudgetMonthSummary D → BudgetMonthSummary D
  add_view v out = record out {
    budget_count = suc out.budget_count;
    budgeted = d.add out.budgeted v.limit;
    carryover = d.add out.carryover v.carryover;
    spent_in_budgets = d.add out.spent_in_budgets v.spent;
  }

  pub add_views : List (BudgetSpend D) → BudgetMonthSummary D → BudgetMonthSummary D
  add_views [] out = out
  add_views (v ∷ rest) out = add_views rest (add_view v out)

  -- One turn of the loop over the spending of the month.
  pub add_spend : List ℕ → Option ℕ × D → BudgetMonthSummary D → BudgetMonthSummary D
  add_spend ids (c, spent) out =
      let out' : BudgetMonthSummary D = record out {
        total_spending = d.add out.total_spending spent;
      } in
      if includes ids c then out' else record out' {
        not_in_budget = d.add out.not_in_budget spent;
        unbudgeted = out.unbudgeted ++ ((c, spent) ∷ []);
      }

  pub add_spends : List ℕ → List (Option ℕ × D) → BudgetMonthSummary D → BudgetMonthSummary D
  add_spends ids [] out = out
  add_spends ids (c ∷ rest) out = add_spends ids rest (add_spend ids c out)

  -- The views of the monthly budgets.
  pub month_views : Book D → ℕ → ℕ → List (BudgetSpend D)
  month_views book user on =
      let budgets = list_budgets (user_owner user) book.budgets in
      map
        (λ b. spend_view book user b (coverage (list_categories user book.categories) budgets b) on)
        (select is_monthly budgets)

  -- The summary before the loop over the spending.
  pub month_totals : ℕ × ℕ → List (BudgetSpend D) → BudgetMonthSummary D
  month_totals (from, to) views =
      let start : BudgetMonthSummary D = record {
        period_start = from;
        period_end = to;
        budget_count = 0;
        budgeted = d.nought;
        carryover = d.nought;
        available = d.nought;
        spent_in_budgets = d.nought;
        remaining = d.nought;
        not_in_budget = d.nought;
        total_spending = d.nought;
        unbudgeted = [];
      } in
      let out = add_views views start in
      let available = d.add out.budgeted out.carryover in
      record out { available = available; remaining = sub available out.spent_in_budgets }

  pub month_summary : Book D → ℕ → ℕ → ℕ → Result BudgetError (BudgetMonthSummary D)
  month_summary book now user on =
      let window = period_window "monthly" on in
      let views = month_views book user on in
      if not (ltb on (now + 1))
      then err budget_date_in_future
      else ok (
          add_spends (budgeted_ids views)
            (spend_all_categories_in_range book.lines user window.0 window.1)
            (month_totals window views))
