-- ===== src/Categories.antt =====
-- Categories of a user: backend/internal/service/category_service.go over
-- backend/internal/repository/category_repo.go. The ledger holds every table that names a category;
-- where a statement of the code reads soft-deleted rows too, those are a table of their own.
pub mod Slugs
pub mod Editing
pub mod Reassign
pub mod Taxonomy
pub mod Steps
mod Tests
use offbook.Common.{
  ℕ, Bool, not, ◌&&◌, Option, none, some, List, String, ◌==◌, str_eq, holds, is_some, any, select,
  length, Result, ok, err, ◌>>=◌, if◌then◌else◌,
}
use offbook.Model.{Transaction, CategorizationRule, Strings}
use offbook.Plans.{Category, Budget, BudgetAmount, is_visible, get_visible}

pub data CategoryError : Type 0 where
  invalid_category_name category_name_taken invalid_parent category_read_only category_not_found
        invalid_replacement :
      CategoryError

pub record TransactionSplit (D : Type 0) : Type 0 where
  pub id : ℕ
  pub transaction_id : ℕ
  pub user_id : ℕ
  pub category_id : Option ℕ
  pub amount : D

pub record RuleApplyRun : Type 0 where
  pub id : ℕ
  pub user_id : ℕ

-- What a run of the rules overwrote, for its undo; only the category is read here.
pub record RuleApplyChange : Type 0 where
  pub run_id : ℕ
  pub transaction_id : ℕ
  pub prev_category_id : Option ℕ

pub record AiCategorizationVerdict : Type 0 where
  pub user_id : ℕ
  pub merchant_key : String
  pub category_id : ℕ

pub record CategoryLedger (D : Type 0) : Type 0 where
  pub categories : List Category
  pub next_category_id : ℕ
  pub transactions : List (Transaction D)
  pub deleted_transactions : List (Transaction D)
  pub splits : List (TransactionSplit D)
  pub runs : List RuleApplyRun
  pub changes : List RuleApplyChange
  pub rules : List (CategorizationRule D)
  pub deleted_rules : List (CategorizationRule D)
  pub verdicts : List AiCategorizationVerdict
  pub budgets : List (Budget D)
  pub deleted_budgets : List (Budget D)
  pub amounts : List (BudgetAmount D)

pub record CategoryUsage : Type 0 where
  pub transactions : ℕ
  pub splits : ℕ
  pub rules : ℕ
  pub budgets : ℕ
  pub subcategories : ℕ

-- `ErrNotFound` of the repository, in the service's words.
abbrev pub required : CategoryError → Option Category → Result CategoryError Category
required e none = err e
required e (some c) = ok c

-- The user's own category, by `ownCategory`.
unfoldable pub own_category : ℕ → ℕ → List Category → Result CategoryError Category
own_category user id rows = required category_not_found (get_visible (some user) id rows) >>= λ c.
    if is_some c.user_id then ok c else err category_read_only

module _ {D : Type 0} where
  -- A split line counts while its transaction is live.
  abbrev pub is_live_split : List (Transaction D) → TransactionSplit D → Bool
  is_live_split rows s = any (λ t. t.id == s.transaction_id) rows

  unfoldable pub usage : ℕ → ℕ → CategoryLedger D → CategoryUsage
  usage user id l = record {
    transactions =
        length (select (λ t. (t.user_id == user) && holds t.category_id id) l.transactions);
    splits = length (
        select
          (λ s. (s.user_id == user) && holds s.category_id id && is_live_split l.transactions s)
          l.splits);
    rules = length (select (λ r. (r.user_id == user) && holds r.category_id id) l.rules);
    budgets = length (select (λ b. holds b.user_id user && (b.category_id == id)) l.budgets);
    subcategories =
        length (select (λ c. holds c.user_id user && holds c.parent_id id) l.categories);
  }
