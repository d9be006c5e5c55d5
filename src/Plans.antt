-- ===== src/Plans.antt =====
-- The rows of plans and of the categories they are for: backend/internal/model/category.go and
-- budget.go, with backend/internal/repository/plan_owner.go and the reads of category_repo.go. A
-- table holds its live rows; a list that the code orders by name is in the order of the table.
use offbook.Common.{
  ℕ, Bool, false, ◌&&◌, ◌||◌, Option, none, some, List, String, ◌==◌, holds, is_some, not, select,
  str_eq, str_eq_iff, true, refl, sym, ◌≡◌, inl, [], ◌∷◌, arith, In, In-select,
}
use offbook.Valuation.{head}

pub record Category : Type 0 where
  pub id : ℕ
  pub user_id : Option ℕ
  pub parent_id : Option ℕ
  pub name : String
  pub slug : String

pub record Budget (D : Type 0) : Type 0 where
  pub id : ℕ
  pub user_id : Option ℕ
  pub household_id : Option ℕ
  pub category_id : ℕ
  pub period : String
  pub amount : D
  pub rollover : Bool
  pub rollover_start : D
  pub is_active : Bool
  pub created_at : ℕ

pub record BudgetAmount (D : Type 0) : Type 0 where
  pub budget_id : ℕ
  pub amount : D
  pub effective_from : ℕ

-- A user or a household.
pub record PlanOwner : Type 0 where
  pub user_id : Option ℕ
  pub household_id : Option ℕ

abbrev pub user_owner : ℕ → PlanOwner
user_owner user = record { user_id = some user; household_id = none }

-- The rows of an owner.
abbrev pub owned_by : Option ℕ → Option ℕ → Option ℕ → Option ℕ → Bool
owned_by (some user) household row_user row_household =
    holds row_user user && not (is_some row_household)
owned_by none (some household) row_user row_household =
    holds row_household household && not (is_some row_user)
owned_by none none row_user row_household = false

-- A system category, or one of the user.
abbrev pub is_visible : Option ℕ → Category → Bool
is_visible none c = not (is_some c.user_id)
is_visible (some user) c = not (is_some c.user_id) || holds c.user_id user

unfoldable pub get_visible : Option ℕ → ℕ → List Category → Option Category
get_visible user id rows = head (select (λ c. is_visible user c && (c.id == id)) rows)

pub head-In : {A : Type 0} (rows : List A) (x : A) → head rows ≡ some x → In x rows
head-In [] x e = cc
head-In (y ∷ rows) x e = let q : y ≡ x = grind (arith, e) in inl (sym q)

pub get_visible-In :
    (user : Option ℕ) (id : ℕ) (rows : List Category) (c : Category)
    → get_visible user id rows ≡ some c
    → In c rows × (is_visible user c ≡ true) × (c.id ≡ id)
unfolding get_visible
get_visible-In user id rows c e =
    let (m, t) = In-select (λ c. is_visible user c && (c.id == id)) c rows (head-In _ c e) in
    (m, ground (arith, t), ground (arith, t))

unfoldable pub list_categories : ℕ → List Category → List Category
list_categories user rows = select (is_visible (some user)) rows

-- The unique indexes of the active budgets of a user and of a household.
abbrev pub same_id : Option ℕ → Option ℕ → Bool
same_id (some a) (some b) = a == b
same_id _ _ = false

abbrev pub clashes : {D : Type 0} → Budget D → Budget D → Bool
clashes x y =
    x.is_active
    && y.is_active
    && (same_id x.user_id y.user_id || same_id x.household_id y.household_id)
    && (x.category_id == y.category_id)
    && str_eq x.period y.period

same_id-sym : (a b : Option ℕ) → same_id a b ≡ same_id b a
same_id-sym none none = refl
same_id-sym none (some b) = refl
same_id-sym (some a) none = refl
same_id-sym (some a) (some b) = ground arith

module _ {D : Type 0} where
  abbrev pub IsApart : Budget D → Budget D → Type 0
  IsApart x y = clashes x y ≡ false

  pub IsApart-sym : (x y : Budget D) → IsApart x y → IsApart y x
  IsApart-sym x y h = ground (
    arith,
    h,
    same_id-sym x.user_id y.user_id,
    same_id-sym x.household_id y.household_id,
    str_eq_iff x.period y.period,
    str_eq_iff y.period x.period,
  )
