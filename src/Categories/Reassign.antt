-- ===== src/Categories/Reassign.antt =====
-- Delete of a category: Reassign of category_repo.go, one function for each statement of its
-- sequence, and Delete of category_service.go. `to` is the replacement, `none` for Uncategorized.
mod Moves
pub mod Gone
pub mod Merging
use offbook.Common.{
  ℕ, Bool, true, false, not, ◌&&◌, ◌||◌, Option, none, some, List, [], ◌∷◌, ◌++◌, map, String, ltb,
  ◌==◌, str_eq, if◌then◌else◌, holds, is_some, any, select, length, Decimal, Result, ok, err, ◌>>=◌,
  Ensures, In, ◌≡◌, ◌≢◌, refl, inl, inr, Bool-cases, arith,
}
use offbook.Model.{Transaction, CategorizationRule}
use offbook.Plans.{Category, Budget, BudgetAmount, is_visible, get_visible, get_visible-In}
use offbook.Valuation.{head}
use offbook.Categories.{
  CategoryError, invalid_replacement, TransactionSplit, RuleApplyRun, RuleApplyChange,
  AiCategorizationVerdict, CategoryLedger, CategoryUsage, required, own_category, usage,
}

-- The provenance of a row that leaves `from`: it goes with the category.
abbrev pub provenance : {A : Type 0} → Option ℕ → Option A → Option A
provenance none old = none
provenance (some to) old = old

module _ {D : Type 0} where
  unfoldable pub move_transaction : ℕ → ℕ → Option ℕ → Transaction D → Transaction D
  move_transaction user from to t =
      if (t.user_id == user) && holds t.category_id from
      then record t {
        category_id = to;
        categorization_method = provenance to t.categorization_method;
        categorization_rule_id = provenance to t.categorization_rule_id;
      }
      else t

  unfoldable pub move_split : ℕ → ℕ → Option ℕ → TransactionSplit D → TransactionSplit D
  move_split user from to s =
      if (s.user_id == user) && holds s.category_id from then record s { category_id = to } else s

-- `coalesce(rename_merchant, '') <> ''`
abbrev pub is_text : Option String → Bool
is_text none = false
is_text (some t) = not (str_eq t "")

abbrev pub is_run_of : ℕ → ℕ → RuleApplyRun → Bool
is_run_of user id r = (r.id == id) && (r.user_id == user)

unfoldable pub move_change :
    ℕ → ℕ → Option ℕ → List RuleApplyRun → RuleApplyChange → RuleApplyChange
move_change user from to runs c =
    if any (is_run_of user c.run_id) runs && holds c.prev_category_id from
    then record c { prev_category_id = to }
    else c

module _ {D : Type 0} where
  -- The rule does something but set a category.
  abbrev pub has_action : CategorizationRule D → Bool
  has_action r =
      is_text r.rename_merchant || r.hide_matches || r.mark_reviewed || ltb 0 (length r.add_tags)

  unfoldable pub move_rule : ℕ → ℕ → Option ℕ → CategorizationRule D → CategorizationRule D
  move_rule user from to r =
      if (r.user_id == user) && holds r.category_id from
      then record r { category_id = to; is_active = r.is_active && (is_some to || has_action r) }
      else r

abbrev pub is_verdict_on : ℕ → ℕ → AiCategorizationVerdict → Bool
is_verdict_on user from v = (v.user_id == user) && (v.category_id == from)

unfoldable pub move_verdicts :
    ℕ → ℕ → Option ℕ → List AiCategorizationVerdict → List AiCategorizationVerdict
move_verdicts user from none rows = select (λ v. not (is_verdict_on user from v)) rows
move_verdicts user from (some to) rows =
    map (λ v. if is_verdict_on user from v then record v { category_id = to } else v) rows

module _ {D : Type 0} where
  -- The user's budgets of a category, and the active ones of a period.
  abbrev pub is_budget_on : ℕ → ℕ → Budget D → Bool
  is_budget_on user category b = holds b.user_id user && (b.category_id == category)

  abbrev pub is_active_on : ℕ → ℕ → String → Budget D → Bool
  is_active_on user category period b =
      is_budget_on user category b && b.is_active && str_eq b.period period

  -- The budget `a` of the joins, for the period of the row `b`.
  unfoldable pub source_budget : ℕ → ℕ → String → List (Budget D) → Option (Budget D)
  source_budget user from period budgets = head (select (is_active_on user from period) budgets)

  module _ ⦃d : Decimal D⦄ where
    abbrev pub plus : D → Option (Budget D) → D
    plus x none = x
    plus x (some a) = d.add x a.amount

    -- The history rows of the target's budgets gain the amount.
    abbrev pub raise_entry : ℕ → ℕ → ℕ → List (Budget D) → BudgetAmount D → BudgetAmount D
    raise_entry user from to budgets h =
        elim (head
          (select (λ b. (b.id == h.budget_id) && is_budget_on user to b && b.is_active) budgets)) [
            | none ↦ h
            | some b ↦ record h {
              amount = plus h.amount (source_budget user from b.period budgets);
            }
          ]

    abbrev pub raise_budget : ℕ → ℕ → ℕ → List (Budget D) → Budget D → Budget D
    raise_budget user from to budgets b =
        if is_budget_on user to b && b.is_active
        then record b { amount = plus b.amount (source_budget user from b.period budgets) }
        else b

  abbrev pub is_retired : ℕ → ℕ → ℕ → List (Budget D) → Budget D → Bool
  is_retired user from to budgets a =
      is_budget_on user from a && a.is_active && any (is_active_on user to a.period) budgets

  abbrev pub move_budget : ℕ → ℕ → ℕ → Budget D → Budget D
  move_budget user from to b = if is_budget_on user from b then record b { category_id = to } else b

  -- The statements on the budgets and their histories.
  unfoldable pub retire_budgets : ℕ → ℕ → CategoryLedger D → CategoryLedger D
  retire_budgets user from l = record l {
    budgets = select (λ b. not (is_budget_on user from b)) l.budgets;
    deleted_budgets = l.deleted_budgets ++ select (is_budget_on user from) l.budgets;
  }

  unfoldable pub merge_budgets : ⦃d : Decimal D⦄ → ℕ → ℕ → ℕ → CategoryLedger D → CategoryLedger D
  merge_budgets user from to l =
      let raised : List (Budget D) = map (raise_budget user from to l.budgets) l.budgets in
      record l {
        amounts = map (raise_entry user from to l.budgets) l.amounts;
        budgets =
            map (move_budget user from to)
              (select (λ b. not (is_retired user from to raised b)) raised);
        deleted_budgets =
            map (move_budget user from to)
              (l.deleted_budgets ++ select (is_retired user from to raised) raised);
      }

  unfoldable pub move_budgets :
      ⦃d : Decimal D⦄ → ℕ → ℕ → Option ℕ → CategoryLedger D → CategoryLedger D
  move_budgets user from none l = retire_budgets user from l
  move_budgets user from (some to) l = merge_budgets user from to l

-- The group that the subcategories go under: the target if it is top-level, or about to be.
abbrev pub target_group : ℕ → Option Category → Option ℕ
target_group from none = none
target_group from (some c) =
    if not (is_some c.parent_id) || holds c.parent_id from then some c.id else none

abbrev pub reparent : ℕ → ℕ → Option ℕ → Category → Category
reparent user from group c =
    if holds c.user_id user && holds c.parent_id from
    then record c { parent_id = if holds group c.id then none else group }
    else c

-- The statements on the categories: the subcategories move, and `from` is deleted.
unfoldable pub drop_category : ℕ → ℕ → Option Category → List Category → List Category
drop_category user from to rows =
    select (λ c. not (holds c.user_id user && (c.id == from)))
      (map (reparent user from (target_group from to)) rows)

abbrev pub id_of : Option Category → Option ℕ
id_of none = none
id_of (some c) = some c.id

-- The replacement of Delete.
unfoldable pub check_replacement :
    ℕ → ℕ → Option ℕ → List Category → Result CategoryError (Option Category)
check_replacement user id none rows = ok none
check_replacement user id (some r) rows =
    if r == id
    then err invalid_replacement
    else required invalid_replacement (get_visible (some user) r rows) >>= λ c. ok (some c)

-- Uncategorized, or another category that the user sees.
abbrev pub IsReplacement : ℕ → ℕ → List Category → Option Category → Type 0
IsReplacement user from rows none = Unit {0}
IsReplacement user from rows (some c) =
    In c rows × (is_visible (some user) c ≡ true) × (c.id ≢ from)

pub check_replacement-IsReplacement :
    (user from : ℕ) (replace_with : Option ℕ) (rows : List Category)
    → Ensures (IsReplacement user from rows) (check_replacement user from replace_with rows)
unfolding check_replacement
check_replacement-IsReplacement user from none rows = tt
check_replacement-IsReplacement user from (some r) rows = elim (Bool-cases (r == from)) [
  | inl e ↦ rw (e, if◌then◌else◌) tt
  | inr e ↦ rw (e, if◌then◌else◌) (go e (get_visible (some user) r rows) refl)
]
  where
    go :
        (r == from) ≡ false
        → (o : Option Category) → get_visible (some user) r rows ≡ o
        → Ensures
            (IsReplacement user from rows)
            (required invalid_replacement o >>= λ c. ok (some c))
    go e none g = tt
    go e (some c) g =
        let (m, v, i) = get_visible-In (some user) r rows c g in
        (m, v, λ q. ground (arith, e, i, q))

module _ {D : Type 0} ⦃d : Decimal D⦄ where
  unfoldable pub reassign :
      ℕ → ℕ → Option Category → CategoryLedger D → CategoryUsage × CategoryLedger D
  reassign user from to l =
      let to_id = id_of to in
      let moved = move_budgets user from to_id l in
      (
        usage user from l,
        record moved {
          transactions = map (move_transaction user from to_id) l.transactions;
          deleted_transactions = map (move_transaction user from to_id) l.deleted_transactions;
          splits = map (move_split user from to_id) l.splits;
          changes = map (move_change user from to_id l.runs) l.changes;
          rules = map (move_rule user from to_id) l.rules;
          deleted_rules = map (move_rule user from to_id) l.deleted_rules;
          verdicts = move_verdicts user from to_id l.verdicts;
          categories = drop_category user from to l.categories;
        },
      )

  unfoldable pub delete :
      ℕ → ℕ → Option ℕ → CategoryLedger D → Result CategoryError (CategoryUsage × CategoryLedger D)
  delete user id replace_with l = do
    _ ← own_category user id l.categories
    to ← check_replacement user id replace_with l.categories
    ok (reassign user id to l)
