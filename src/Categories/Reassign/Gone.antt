-- ===== src/Categories/Reassign/Gone.antt =====
-- Nothing names a deleted category.
use offbook.Common.{
  ℕ, ◌≡◌, ◌≢◌, ap, inl, inr, true, not, ◌&&◌, Option, none, some, List, arith, ◌==◌, if◌then◌else◌,
  holds, holds-some, any, select, Bool-cases, All, All-In, All-of_In, All-select, map-All,
  In-select, Decimal, Ensures-ok, after_check, after_check_of, ok,
}
use offbook.Plans.{Category, Budget}
use offbook.Categories.{CategoryLedger, CategoryUsage, own_category}
use offbook.Categories.Reassign.{
  is_run_of, raise_budget, move_budget, move_budgets, retire_budgets, merge_budgets, drop_category,
  reparent, target_group, id_of, check_replacement, check_replacement-IsReplacement, IsReplacement,
  reassign, delete, is_budget_on,
}
use offbook.Categories.Reassign.Moves.{
  passed_over, moved_transaction, moved_split, moved_rule, moved_change, moved_verdicts,
}

-- No live row names the category, nor does a transaction or a rule that may be restored.
pub record IsGone {D : Type 0} (from : ℕ) (l : CategoryLedger D) : Type 0 where
  pub categories : All (λ c. c.id ≢ from) l.categories
  pub parents : All (λ c. c.parent_id ≢ some from) l.categories
  pub transactions : All (λ t. t.category_id ≢ some from) l.transactions
  pub deleted_transactions : All (λ t. t.category_id ≢ some from) l.deleted_transactions
  pub splits : All (λ s. s.category_id ≢ some from) l.splits
  pub changes : All (λ c. c.prev_category_id ≢ some from) l.changes
  pub rules : All (λ r. r.category_id ≢ some from) l.rules
  pub deleted_rules : All (λ r. r.category_id ≢ some from) l.deleted_rules
  pub verdicts : All (λ v. v.category_id ≢ from) l.verdicts
  pub budgets : All (λ b. b.category_id ≢ from) l.budgets

-- The rows that name the category are the user's.
pub record IsOwned {D : Type 0} (user from : ℕ) (l : CategoryLedger D) : Type 0 where
  pub categories : All (λ c. c.id ≡ from → c.user_id ≡ some user) l.categories
  pub parents : All (λ c. c.parent_id ≡ some from → c.user_id ≡ some user) l.categories
  pub transactions : All (λ t. t.category_id ≡ some from → t.user_id ≡ user) l.transactions
  pub deleted_transactions :
      All (λ t. t.category_id ≡ some from → t.user_id ≡ user) l.deleted_transactions
  pub splits : All (λ s. s.category_id ≡ some from → s.user_id ≡ user) l.splits
  pub changes :
      All
        (λ c. c.prev_category_id ≡ some from → any (is_run_of user c.run_id) l.runs ≡ true)
        l.changes
  pub rules : All (λ r. r.category_id ≡ some from → r.user_id ≡ user) l.rules
  pub deleted_rules : All (λ r. r.category_id ≡ some from → r.user_id ≡ user) l.deleted_rules
  pub verdicts : All (λ v. v.category_id ≡ from → v.user_id ≡ user) l.verdicts
  pub budgets : All (λ b. b.category_id ≡ from → b.user_id ≡ some user) l.budgets

module _ (user from : ℕ) where
  module _ {D : Type 0} where
    retired_budgets :
        (rows : List (Budget D))
        → All (λ b. b.category_id ≡ from → b.user_id ≡ some user) rows
        → All (λ b. b.category_id ≢ from) (select (λ b. not (is_budget_on user from b)) rows)
    retired_budgets rows own = All-of_In _ _ λ b m q.
        let (k, t) = In-select (λ b. not (is_budget_on user from b)) b rows m in
        let o = All-In _ b rows own k q in ground (arith, t, q, holds-some user b.user_id o)

    merged_budgets :
        ⦃d : Decimal D⦄ (to : ℕ) (l : CategoryLedger D)
        → to ≢ from
        → All (λ b. b.category_id ≡ from → b.user_id ≡ some user) l.budgets
        → All (λ b. b.category_id ≢ from) (merge_budgets user from to l).budgets
    unfolding merge_budgets
    merged_budgets to l n own = map-All _ _ (move_budget user from to) moved_budget _ (
        All-select _ _ _
          (map-All _ _ (raise_budget user from to l.budgets) raised_budget l.budgets own))
      where
        raised_budget :
            (b : Budget D)
            → (b.category_id ≡ from → b.user_id ≡ some user)
            → (raise_budget user from to l.budgets b).category_id ≡ from
            → (raise_budget user from to l.budgets b).user_id ≡ some user
        raised_budget b h = elim (Bool-cases (is_budget_on user to b && b.is_active)) [
          | inl e ↦ rw (e, if◌then◌else◌) h
          | inr e ↦ rw (e, if◌then◌else◌) h
        ]

        moved_budget :
            (b : Budget D)
            → (b.category_id ≡ from → b.user_id ≡ some user)
            → (move_budget user from to b).category_id ≢ from
        moved_budget b h = elim (Bool-cases (is_budget_on user from b)) [
          | inl e ↦ rw (e, if◌then◌else◌) n
          | inr e ↦
              rw (e, if◌then◌else◌) (λ q. ground (arith, e, q, holds-some user b.user_id (h q)))
        ]

  reparented :
      (group : Option ℕ) (c : Category)
      → group ≢ some from
      → (c.parent_id ≡ some from → c.user_id ≡ some user)
      → (reparent user from group c).parent_id ≢ some from
  reparented group c n own = elim (Bool-cases (holds c.user_id user && holds c.parent_id from)) [
    | inl e ↦ rw (e, if◌then◌else◌) (ground (arith, n))
    | inr e ↦
        rw (e, if◌then◌else◌)
          (passed_over (holds c.user_id user) c.parent_id from e
            (λ q. holds-some user c.user_id (own q)))
  ]

  target_apart : (to : Option Category) → id_of to ≢ some from → target_group from to ≢ some from
  target_apart none n = n
  target_apart (some c) n = ground (arith, n)

  delete_apart :
      (to : Option Category) (rows : List Category)
      → IsReplacement user from rows to
      → id_of to ≢ some from
  delete_apart none rows h q = cc
  delete_apart (some c) rows (m, v, n) q = n (ground (arith, q))

  dropped_rows :
      (to : Option Category) (rows : List Category)
      → All (λ c. c.id ≡ from → c.user_id ≡ some user) rows
      → All (λ c. c.id ≢ from) (drop_category user from to rows)
  unfolding drop_category
  dropped_rows to rows own = All-of_In _ _ λ c m q.
      let (k, t) = In-select (λ c. not (holds c.user_id user && (c.id == from))) c _ m in
      let o =
        All-In (λ c. c.id ≡ from → c.user_id ≡ some user) c _
          (map-All _ _ (reparent user from (target_group from to)) kept_owner rows own) k q in
      ground (arith, t, q, holds-some user c.user_id o)
    where
      kept_owner :
          (c : Category)
          → (c.id ≡ from → c.user_id ≡ some user)
          → (reparent user from (target_group from to) c).id ≡ from
          → (reparent user from (target_group from to) c).user_id ≡ some user
      kept_owner c h = elim (Bool-cases (holds c.user_id user && holds c.parent_id from)) [
        | inl e ↦ rw (e, if◌then◌else◌) h
        | inr e ↦ rw (e, if◌then◌else◌) h
      ]

  dropped_parents :
      (to : Option Category) (rows : List Category)
      → id_of to ≢ some from
      → All (λ c. c.parent_id ≡ some from → c.user_id ≡ some user) rows
      → All (λ c. c.parent_id ≢ some from) (drop_category user from to rows)
  unfolding drop_category
  dropped_parents to rows n own = All-select _ _ _ (
      map-All _ _ (reparent user from (target_group from to))
        (λ c. reparented (target_group from to) c (target_apart to n)) rows own)

  module _ {D : Type 0} ⦃d : Decimal D⦄ where
    moved_budgets :
        (to : Option ℕ) (l : CategoryLedger D)
        → to ≢ some from
        → All (λ b. b.category_id ≡ from → b.user_id ≡ some user) l.budgets
        → All (λ b. b.category_id ≢ from) (move_budgets user from to l).budgets
    unfolding move_budgets retire_budgets
    moved_budgets none l n own = retired_budgets l.budgets own
    moved_budgets (some to) l n own = merged_budgets to l (λ q. n (ap some q)) own

    reassign-IsGone :
        (to : Option Category) (l : CategoryLedger D)
        → id_of to ≢ some from
        → IsOwned user from l
        → IsGone from (reassign user from to l).1
    unfolding reassign
    reassign-IsGone to l n own = record {
      categories = dropped_rows to l.categories own.categories;
      parents = dropped_parents to l.categories n own.parents;
      transactions =
          map-All _ _ _ (λ t. moved_transaction user from (id_of to) t n) l.transactions
            own.transactions;
      deleted_transactions =
          map-All _ _ _ (λ t. moved_transaction user from (id_of to) t n) l.deleted_transactions
            own.deleted_transactions;
      splits = map-All _ _ _ (λ s. moved_split user from (id_of to) s n) l.splits own.splits;
      changes =
          map-All _ _ _ (λ c. moved_change user from (id_of to) l.runs c n) l.changes own.changes;
      rules = map-All _ _ _ (λ r. moved_rule user from (id_of to) r n) l.rules own.rules;
      deleted_rules =
          map-All _ _ _ (λ r. moved_rule user from (id_of to) r n) l.deleted_rules
            own.deleted_rules;
      verdicts = moved_verdicts user from (id_of to) l.verdicts n own.verdicts;
      budgets = moved_budgets (id_of to) l n own.budgets;
    }

    -- After a deletion that succeeds nothing names the category, where the rows that named it were
    -- the user's: no live category, split line, verdict, budget or undo entry, and no transaction or
    -- rule, the soft-deleted ones included.
    pub delete-IsGone :
        (replace_with : Option ℕ) (l : CategoryLedger D) {r : CategoryUsage × CategoryLedger D}
        → IsOwned user from l
        → delete user from replace_with l ≡ ok r
        → IsGone from r.1
    unfolding delete
    delete-IsGone replace_with l {r} own e =
        Ensures-ok (λ (x : CategoryUsage × CategoryLedger D). IsGone from x.1) _ r
          (after_check _ (own_category user from l.categories) _ λ _.
            after_check_of _ _ (check_replacement user from replace_with l.categories) _
              (check_replacement-IsReplacement user from replace_with l.categories)
              λ to h. reassign-IsGone to l (delete_apart to l.categories h) own)
          e
