-- ===== src/Goals/Steps.antt =====
-- What the requests on goals reach.
use offbook.Common.{ℕ, ◌≡◌, refl, Decimal, ok, Ensures, Ensures-ok, after_check, fail_if, is_zero}
use offbook.Model.{Strings}
use offbook.Plans.{PlanOwner}
use offbook.Goals.{
  SavingsGoal, GoalBook, CreateGoalInput, UpdateGoalInput, zero_contribution, get_goal, validate,
  patch_goal, delete_goal, contribute, create_savings_goal, update_savings_goal,
}
use offbook.Goals.Balanced.{
  IsBalanced, create_goal-IsBalanced, update_goal-IsBalanced, delete_goal-IsBalanced,
  add_contribution-IsBalanced,
}

module _ {D : Type 0} ⦃d : Decimal D⦄ ⦃s : Strings⦄ where
  abbrev Keeps : SavingsGoal D × GoalBook D → Type 0
  Keeps r = IsBalanced r.1

  -- An update writes what it made of any book that it read, an earlier one for instance.
  pub data Step (book : GoalBook D) : GoalBook D → Type 0 where
    created :
        (owner : PlanOwner) (input : CreateGoalInput D) {r : SavingsGoal D × GoalBook D}
        → create_savings_goal owner input book ≡ ok r
        → Step book r.1
    updated :
        (owner : PlanOwner) (id : ℕ) (input : UpdateGoalInput D) (read : GoalBook D)
        {r : SavingsGoal D × GoalBook D}
        → update_savings_goal owner id input read book ≡ ok r
        → Step book r.1
    deleted :
        (owner : PlanOwner) (id : ℕ) {after : GoalBook D}
        → delete_goal owner id book ≡ ok after
        → Step book after
    contributed :
        (owner : PlanOwner) (id : ℕ) (delta : D) (by : ℕ) {r : SavingsGoal D × GoalBook D}
        → contribute owner id delta by book ≡ ok r
        → Step book r.1

  pub data Reach (start : GoalBook D) : GoalBook D → Type 0 where
    here : Reach start start
    next : {before after : GoalBook D} → Reach start before → Step before after → Reach start after

  create-IsBalanced :
      (owner : PlanOwner) (input : CreateGoalInput D) (book : GoalBook D)
      → IsBalanced book
      → Ensures Keeps (create_savings_goal owner input book)
  unfolding create_savings_goal
  create-IsBalanced owner input book b =
      after_check Keeps (validate _ book.accounts) _
        λ _. create_goal-IsBalanced _ book (λ id. (refl, refl)) b

  update-IsBalanced :
      (owner : PlanOwner) (id : ℕ) (input : UpdateGoalInput D) (read book : GoalBook D)
      → IsBalanced book
      → Ensures Keeps (update_savings_goal owner id input read book)
  unfolding update_savings_goal
  update-IsBalanced owner id input read book b = after_check Keeps (get_goal owner id read) _ λ g.
      after_check Keeps (validate (patch_goal input g) read.accounts) _
        λ _. update_goal-IsBalanced (patch_goal input g) book b

  contribute-IsBalanced :
      (owner : PlanOwner) (id : ℕ) (delta : D) (by : ℕ) (book : GoalBook D)
      → IsBalanced book
      → Ensures Keeps (contribute owner id delta by book)
  unfolding contribute
  contribute-IsBalanced owner id delta by book b =
      after_check Keeps (fail_if (is_zero delta) zero_contribution) _
        λ _. add_contribution-IsBalanced owner id delta by book b

  Step-IsBalanced :
      {before after : GoalBook D} → Step before after → IsBalanced before → IsBalanced after
  Step-IsBalanced {before} (created owner input {r} e) b =
      Ensures-ok Keeps _ r (create-IsBalanced owner input before b) e
  Step-IsBalanced {before} (updated owner id input read {r} e) b =
      Ensures-ok Keeps _ r (update-IsBalanced owner id input read before b) e
  Step-IsBalanced {before} (deleted owner id {after} e) b =
      Ensures-ok IsBalanced _ after (delete_goal-IsBalanced owner id before b) e
  Step-IsBalanced {before} (contributed owner id delta by {r} e) b =
      Ensures-ok Keeps _ r (contribute-IsBalanced owner id delta by before b) e

  -- In every book that creations, updates from any snapshot, deletions and contributions reach from
  -- a balanced one, the amount of a goal is the sum of its history, each entry of a history records
  -- the total behind it, and numbers are given once.
  pub reachable-IsBalanced :
      {start book : GoalBook D} → Reach start book → IsBalanced start → IsBalanced book
  reachable-IsBalanced here b = b
  reachable-IsBalanced (next r st) b = Step-IsBalanced st (reachable-IsBalanced r b)
