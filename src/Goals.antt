-- ===== src/Goals.antt =====
-- Savings goals: backend/internal/service/savings_goal_service.go over
-- backend/internal/repository/savings_goal_repo.go. What an update writes is read first; between the
-- two the row may change.
pub mod Balanced
pub mod Steps
mod Tests
use offbook.Common.{
  ℕ, suc, Bool, true, false, not, ◌&&◌, Option, none, some, List, [], ◌∷◌, ◌++◌, map, String, ◌==◌,
  str_eq, if◌then◌else◌, is_some, any, select, Decimal, is_positive, is_zero, Result, ok, err,
  fail_if, ◌>>=◌, ◌>>◌, or_else,
}
use offbook.Model.{Strings}
use offbook.Households.{Account}
use offbook.Plans.{PlanOwner, owned_by}
use offbook.Valuation.{head}

pub data GoalError : Type 0 where
  savings_goal_not_found empty_goal_name invalid_target_amount zero_contribution
        goal_account_mismatch :
      GoalError

pub record SavingsGoal (D : Type 0) : Type 0 where
  pub id : ℕ
  pub user_id : Option ℕ
  pub household_id : Option ℕ
  pub name : String
  pub target_amount : D
  pub current_amount : D
  pub target_date : Option ℕ
  pub account_id : Option ℕ

pub record SavingsGoalContribution (D : Type 0) : Type 0 where
  pub goal_id : ℕ
  pub user_id : Option ℕ
  pub amount : D
  pub balance_after : D

pub record CreateGoalInput (D : Type 0) : Type 0 where
  pub name : String
  pub target_amount : D
  pub target_date : Option ℕ
  pub account_id : Option ℕ

pub record UpdateGoalInput (D : Type 0) : Type 0 where
  pub name : Option String
  pub target_amount : Option D
  pub target_date : Option ℕ
  pub clear_target_date : Bool
  pub account_id : Option ℕ
  pub clear_account_id : Bool

-- The live goals, the contributions in the order of their insertion, and the accounts.
pub record GoalBook (D : Type 0) : Type 0 where
  pub goals : List (SavingsGoal D)
  pub contributions : List (SavingsGoalContribution D)
  pub accounts : List Account
  pub next_goal_id : ℕ

abbrev pub owns_account : ℕ → ℕ → List Account → Bool
owns_account user id accounts = any (λ a. (a.user_id == user) && (a.id == id)) accounts

-- The check of a link: it is for the accounts of a personal goal's user.
abbrev pub check_account : Option ℕ → Option ℕ → List Account → Result GoalError (Unit {0})
check_account user none accounts = ok tt
check_account none (some a) accounts = err goal_account_mismatch
check_account (some user) (some a) accounts =
    fail_if (not (owns_account user a accounts)) goal_account_mismatch

abbrev pub cleared_or : Bool → Option ℕ → Option ℕ → Option ℕ
cleared_or true new old = none
cleared_or false none old = old
cleared_or false (some x) old = some x

abbrev pub trimmed : ⦃s : Strings⦄ → Option String → String → String
trimmed none old = old
trimmed ⦃s⦄ (some name) old = s.trim_space name

module _ {D : Type 0} where
  abbrev pub is_goal_of : PlanOwner → ℕ → SavingsGoal D → Bool
  is_goal_of owner id g =
      owned_by owner.user_id owner.household_id g.user_id g.household_id && (g.id == id)

  abbrev pub goal_found : Option (SavingsGoal D) → Result GoalError (SavingsGoal D)
  goal_found none = err savings_goal_not_found
  goal_found (some g) = ok g

  unfoldable pub get_goal : PlanOwner → ℕ → GoalBook D → Result GoalError (SavingsGoal D)
  get_goal owner id book = goal_found (head (select (is_goal_of owner id) book.goals))

  unfoldable pub create_goal : (ℕ → SavingsGoal D) → GoalBook D → SavingsGoal D × GoalBook D
  create_goal row book = (
    row book.next_goal_id,
    record book {
      goals = book.goals ++ (row book.next_goal_id ∷ []);
      next_goal_id = suc book.next_goal_id;
    },
  )

  abbrev pub goal_owner : SavingsGoal D → PlanOwner
  goal_owner g = record { user_id = g.user_id; household_id = g.household_id }

  -- The columns `goalMetadataColumns` of a row, from a snapshot.
  abbrev pub with_metadata : SavingsGoal D → SavingsGoal D → SavingsGoal D
  with_metadata g x =
      if is_goal_of (goal_owner g) g.id x
      then record x {
        name = g.name;
        target_amount = g.target_amount;
        target_date = g.target_date;
        account_id = g.account_id;
      }
      else x

  unfoldable pub update_goal :
      SavingsGoal D → GoalBook D → Result GoalError (SavingsGoal D × GoalBook D)
  update_goal g book =
      let after : GoalBook D = record book { goals = map (with_metadata g) book.goals } in
      get_goal (goal_owner g) g.id after >>= λ x. ok (x, after)

  unfoldable pub delete_goal : PlanOwner → ℕ → GoalBook D → Result GoalError (GoalBook D)
  delete_goal owner id book =
      if any (is_goal_of owner id) book.goals
      then ok (record book { goals = select (λ g. not (is_goal_of owner id g)) book.goals })
      else err savings_goal_not_found

  -- The rows of a goal of the owner, newest first.
  unfoldable pub list_contributions : PlanOwner → ℕ → GoalBook D → List (SavingsGoalContribution D)
  list_contributions owner id book = newest (
      select (λ c. any (λ g. is_goal_of owner id g && (g.id == c.goal_id)) book.goals)
        book.contributions)
    where
      newest : List (SavingsGoalContribution D) → List (SavingsGoalContribution D)
      newest [] = []
      newest (c ∷ rest) = newest rest ++ (c ∷ [])

  unfoldable pub contributions_of :
      PlanOwner → ℕ → GoalBook D → Result GoalError (List (SavingsGoalContribution D))
  contributions_of owner id book =
      get_goal owner id book >>= λ _. ok (list_contributions owner id book)

module _ {D : Type 0} ⦃d : Decimal D⦄ where
  abbrev pub add_amount : PlanOwner → ℕ → D → SavingsGoal D → SavingsGoal D
  add_amount owner id delta g =
      if is_goal_of owner id g
      then record g { current_amount = d.add g.current_amount delta }
      else g

  -- The update, the read of the row it left and the history row, in one transaction.
  unfoldable pub add_contribution :
      PlanOwner → ℕ → D → ℕ → GoalBook D → Result GoalError (SavingsGoal D × GoalBook D)
  add_contribution owner id delta by book =
      let raised : GoalBook D = record book {
        goals = map (add_amount owner id delta) book.goals;
      } in
      get_goal owner id raised >>= λ g. ok (
        g,
        record raised {
          contributions =
              book.contributions
              ++ (record {
                goal_id = g.id;
                user_id = some by;
                amount = delta;
                balance_after = g.current_amount;
              }
                  ∷ []);
        },
      )

  unfoldable pub contribute :
      PlanOwner → ℕ → D → ℕ → GoalBook D → Result GoalError (SavingsGoal D × GoalBook D)
  contribute owner id delta by book = do
    fail_if (is_zero delta) zero_contribution
    add_contribution owner id delta by book

  unfoldable pub validate : SavingsGoal D → List Account → Result GoalError (Unit {0})
  validate g accounts = do
    fail_if (str_eq g.name "") empty_goal_name
    fail_if (not (is_positive g.target_amount)) invalid_target_amount
    check_account g.user_id g.account_id accounts

module _ {D : Type 0} ⦃d : Decimal D⦄ ⦃s : Strings⦄ where
  unfoldable pub create_savings_goal :
      PlanOwner → CreateGoalInput D → GoalBook D → Result GoalError (SavingsGoal D × GoalBook D)
  create_savings_goal owner input book =
      validate (row 0) book.accounts >>= λ _. ok (create_goal row book)
    where
      row : ℕ → SavingsGoal D
      row id = record {
        id = id;
        user_id = owner.user_id;
        household_id = owner.household_id;
        name = s.trim_space input.name;
        target_amount = input.target_amount;
        current_amount = d.nought;
        target_date = input.target_date;
        account_id = input.account_id;
      }

  -- A sparse patch of the snapshot.
  abbrev pub patch_goal : UpdateGoalInput D → SavingsGoal D → SavingsGoal D
  patch_goal input g = record g {
    name = trimmed input.name g.name;
    target_amount = or_else input.target_amount g.target_amount;
    target_date = cleared_or input.clear_target_date input.target_date g.target_date;
    account_id = cleared_or input.clear_account_id input.account_id g.account_id;
  }

  -- Update, from a snapshot `read` of the book to the book that it writes to.
  unfoldable pub update_savings_goal :
      PlanOwner
      → ℕ
      → UpdateGoalInput D
      → GoalBook D
      → GoalBook D
      → Result GoalError (SavingsGoal D × GoalBook D)
  update_savings_goal owner id input read book = do
    g ← get_goal owner id read
    validate (patch_goal input g) read.accounts
    update_goal (patch_goal input g) book
