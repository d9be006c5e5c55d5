-- ===== src/Budgets/Editing/Steps.antt =====
-- Edits keep the budgets apart: the unique indexes as an invariant.
use offbook.Common.{ℕ, ◌<◌, ◌≡◌, ◌≢◌, ◌==◌, if◌then◌else◌, All, Pairwise, Decimal, ok}
use offbook.Model.{Strings}
use offbook.Plans.{Budget, PlanOwner, IsApart}
use offbook.Budgets.{Book}
use offbook.Budgets.Editing.{CreateBudgetInput, UpdateBudgetInput, soft_delete, create, update}

-- Numbers are given once, and no two active budgets share their owner, category and period.
pub record IsSound {D : Type 0} (book : Book D) : Type 0 where
  pub apart : Pairwise IsApart book.budgets
  pub distinct : Pairwise (λ x y. x.id ≢ y.id) book.budgets
  pub numbered : All (λ x. x.id < book.next_budget_id) book.budgets

module _ {D : Type 0} where
  abbrev put : Budget D → Budget D → Budget D
  put b x = if x.id == b.id then b else x

module _ {D : Type 0} ⦃d : Decimal D⦄ ⦃s : Strings⦄ where
  -- What a request does to the book.
  pub data Step (book : Book D) : Book D → Type 0 where
    created :
        (now : ℕ) (owner : PlanOwner) (input : CreateBudgetInput D) {r : Budget D × Book D}
        → create book now owner input ≡ ok r
        → Step book r.1
    updated :
        (now : ℕ) (owner : PlanOwner) (id : ℕ) (input : UpdateBudgetInput D) {r : Budget D × Book D}
        → update book now owner id input ≡ ok r
        → Step book r.1
    deleted :
        (owner : PlanOwner) (id : ℕ) {after : Book D}
        → soft_delete owner id book ≡ ok after
        → Step book after

  pub data Reach (start : Book D) : Book D → Type 0 where
    here : Reach start start
    next : {before after : Book D} → Reach start before → Step before after → Reach start after
