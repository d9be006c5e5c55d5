-- ===== src/Budgets/Editing.antt =====
-- Create, Update and SoftDelete of budgets, with the writes of the repository. A unique index
-- refuses a write; nothing is kept of a database transaction that fails.
pub mod Steps
use offbook.Common.{
  ℕ, suc, Bool, true, false, not, ◌&&◌, ◌||◌, Option, none, some, List, [], ◌∷◌, ◌++◌, map, String,
  ◌==◌, str_eq, if◌then◌else◌, any, select, Decimal, is_positive, is_negative, equal, Result, ok,
  err, fail_if, ◌>>=◌, ◌>>◌, or_else, has, is_some,
}
use offbook.Calendar.Spans.{prev_start}
use offbook.Model.{Strings}
use offbook.Plans.{Category, Budget, BudgetAmount, PlanOwner, owned_by, clashes, get_visible}
use offbook.Budgets.{
  Book, BudgetError, budget_not_found, invalid_budget_period, invalid_budget_amount,
  duplicate_active_budget, invalid_rollover_start, unknown_category, span_of, period_window,
}
use offbook.Budgets.Limits.{BudgetLimitChange, upsert_budget_amount, record_change}
use offbook.Budgets.Summary.{get_budget}

pub record CreateBudgetInput (D : Type 0) : Type 0 where
  pub category_id : ℕ
  pub period : String
  pub amount : D
  pub rollover : Option Bool
  pub rollover_start : Option D
  pub is_active : Option Bool

pub record UpdateBudgetInput (D : Type 0) : Type 0 where
  pub category_id : Option ℕ
  pub period : Option String
  pub amount : Option D
  pub rollover : Option Bool
  pub rollover_start : Option D
  pub is_active : Option Bool

abbrev pub valid_budget_periods : List String
valid_budget_periods = "monthly" ∷ "weekly" ∷ "annual" ∷ []

module _ {D : Type 0} where
  -- The repository's Create and Update; an index refuses a row that clashes with another.
  unfoldable pub create_row : (ℕ → Budget D) → ℕ → Book D → Result BudgetError (Budget D × Book D)
  create_row row from book =
      let b = row book.next_budget_id in
      if any (clashes b) book.budgets
      then err duplicate_active_budget
      else ok (
        b,
        record book {
          budgets = book.budgets ++ (b ∷ []);
          amounts = upsert_budget_amount b.id b.amount from book.amounts;
          next_budget_id = suc book.next_budget_id;
        },
      )

  pub update_row :
      Budget D → Option (BudgetLimitChange D) → Book D → Result BudgetError (Budget D × Book D)
  update_row b change book =
      if any (λ x. not (x.id == b.id) && clashes b x) book.budgets
      then err duplicate_active_budget
      else ok (
        b,
        record book {
          budgets = map (λ x. if x.id == b.id then b else x) book.budgets;
          amounts = record_change b.id b.amount change book.amounts;
        },
      )

  pub soft_delete : PlanOwner → ℕ → Book D → Result BudgetError (Book D)
  soft_delete owner id book =
      if is_some (get_budget owner id book.budgets)
      then ok (record book { budgets = select (λ b. not (b.id == id)) book.budgets })
      else err budget_not_found

abbrev pub check_category : Option ℕ → Option ℕ → List Category → Result BudgetError (Unit {0})
check_category user none rows = ok tt
check_category user (some id) rows =
    fail_if (not (is_some (get_visible user id rows))) unknown_category

module _ ⦃s : Strings⦄ where
  abbrev pub check_period : String → Result BudgetError String
  check_period text =
      let period = s.trim_space text in
      if has valid_budget_periods period then ok period else err invalid_budget_period

  abbrev pub check_patch_period : Option String → String → Result BudgetError String
  check_patch_period none old = ok old
  check_patch_period (some text) old = check_period text

module _ {D : Type 0} ⦃d : Decimal D⦄ ⦃s : Strings⦄ where
  abbrev pub negative_start : Option D → Bool
  negative_start none = false
  negative_start (some x) = is_negative x

  unfoldable pub create :
      Book D → ℕ → PlanOwner → CreateBudgetInput D → Result BudgetError (Budget D × Book D)
  create book now owner input = do
    period ← check_period input.period
    fail_if (not (is_positive input.amount)) invalid_budget_amount
    fail_if (negative_start input.rollover_start) invalid_rollover_start
    check_category owner.user_id (some input.category_id) book.categories
    create_row
        (λ id. record {
          id = id;
          user_id = owner.user_id;
          household_id = owner.household_id;
          category_id = input.category_id;
          period = period;
          amount = input.amount;
          rollover = or_else input.rollover false;
          rollover_start = or_else input.rollover_start d.nought;
          is_active = or_else input.is_active true;
          created_at = now;
        })
        (period_window period now).0 book

  abbrev pub bad_amount : Option D → Bool
  bad_amount none = false
  bad_amount (some x) = not (is_positive x)

  -- A new limit applies from the current period on.
  abbrev pub limit_change : String → ℕ → D → D → Option (BudgetLimitChange D)
  limit_change period now amount prev =
      let from = (period_window period now).0 in
      if not (equal amount prev)
      then some (record { from = from; prev_from = prev_start (span_of period) from; prev = prev })
      else none

  abbrev pub patched : Budget D → UpdateBudgetInput D → String → Budget D
  patched b input period = record b {
    category_id = or_else input.category_id b.category_id;
    period = period;
    amount = or_else input.amount b.amount;
    rollover = or_else input.rollover b.rollover;
    rollover_start = or_else input.rollover_start b.rollover_start;
    is_active = or_else input.is_active b.is_active;
  }

  abbrev pub found : Option (Budget D) → Result BudgetError (Budget D)
  found none = err budget_not_found
  found (some b) = ok b

  pub update :
      Book D → ℕ → PlanOwner → ℕ → UpdateBudgetInput D → Result BudgetError (Budget D × Book D)
  update book now owner id input = do
    b ← found (get_budget owner id book.budgets)
    check_category owner.user_id input.category_id book.categories
    period ← check_patch_period input.period b.period
    fail_if (bad_amount input.amount) invalid_budget_amount
    fail_if (negative_start input.rollover_start) invalid_rollover_start
    let edited = patched b input period
    update_row edited (limit_change period now edited.amount b.amount) book
