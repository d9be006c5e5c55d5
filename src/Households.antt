-- ===== src/Households.antt =====
-- Households: the rows of backend/internal/model/household.go, the tables, and calls that read and
-- write them.
pub mod Tables
pub mod Calls
pub mod Sound
pub mod Counting
pub mod Updates
pub mod Writes
pub mod Service
pub mod Purge
pub mod Steps
mod Tests
use offbook.Common.{
  ℕ, suc, Bool, true, false, not, ◌&&◌, ◌||◌, Option, none, some, List, [], ◌∷◌, ◌++◌, String, ◌==◌,
  if◌then◌else◌, is_some, any, select, length, str_eq, Result, ok, err,
}

pub data Role : Type 0 where
  owner contributor view_only : Role

pub data Scope : Type 0 where
  personal household : Scope

pub record Household : Type 0 where
  pub id : ℕ
  pub name : String
  pub grace_period_days : ℕ
  pub deleted_at : Option ℕ

pub record HouseholdMember : Type 0 where
  pub id : ℕ
  pub household_id : ℕ
  pub user_id : ℕ
  pub role : Role
  pub joined_at : ℕ
  pub left_at : Option ℕ
  pub purged_at : Option ℕ

pub record HouseholdInvite : Type 0 where
  pub id : ℕ
  pub household_id : ℕ
  pub token_hash : String
  pub role : Role
  pub created_by : ℕ
  pub expires_at : ℕ
  pub accepted_at : Option ℕ
  pub accepted_by : Option ℕ
  pub created_at : ℕ

pub record AccountShare : Type 0 where
  pub id : ℕ
  pub account_id : ℕ
  pub household_id : ℕ
  pub visibility : String
  pub deleted_at : Option ℕ

-- What the services read of a user and of an account.
pub record User : Type 0 where
  pub id : ℕ
  pub last_scope : Scope

pub record Account : Type 0 where
  pub id : ℕ
  pub user_id : ℕ

-- The tables, with the next number of each sequence; `configured` is whether the row of
-- instance_config is there.
pub record Store : Type 0 where
  pub households : List Household
  pub members : List HouseholdMember
  pub invites : List HouseholdInvite
  pub shares : List AccountShare
  pub accounts : List Account
  pub users : List User
  pub configured : Bool
  pub next_household_id : ℕ
  pub next_member_id : ℕ
  pub next_invite_id : ℕ
  pub next_share_id : ℕ

-- The domain errors, `repository.ErrNotFound`, and a violated constraint of the database.
pub data HouseholdError : Type 0 where
  not_found household_not_found invite_not_found invite_expired : HouseholdError
  invite_already_accepted empty_name invalid_role invalid_grace : HouseholdError
  invalid_visibility cannot_promote_to_owner forbidden not_member : HouseholdError
  already_member last_owner account_not_owned instance_not_ready : HouseholdError
  cannot_modify_self member_not_found constraint : HouseholdError

-- A call that reads and writes the tables; what it wrote before an error stays written.
abbrev pub Op : Type 0 → Type 0
Op A = Store → Result HouseholdError A × Store

pub return : {A : Type 0} → A → Op A
return a s = (ok a, s)

pub fail : {A : Type 0} → HouseholdError → Op A
fail e s = (err e, s)

abbrev pub continue_with :
    {A B : Type 0} → Result HouseholdError A × Store → (A → Op B) → Result HouseholdError B × Store
continue_with (ok a, s) f = f a s
continue_with (err e, s) f = (err e, s)

infixl 5 ◌>>=◌ ◌>>◌
pub ◌>>=◌ : {A B : Type 0} → Op A → (A → Op B) → Op B
(m >>= f) s = continue_with (m s) f

pub ◌>>◌ : {B : Type 0} → Op (Unit {0}) → Op B → Op B
(m >> k) s = continue_with (m s) (λ _. k)

-- `if bad { return e }`
pub fail_if : Bool → HouseholdError → Op (Unit {0})
fail_if true e s = (err e, s)
fail_if false e s = (ok tt, s)

abbrev pub reword : HouseholdError → HouseholdError → HouseholdError
reword e not_found = e
reword e other = other

-- `if errors.Is(err, repository.ErrNotFound) { return e }`
abbrev pub or_error :
    {A : Type 0} → HouseholdError → Result HouseholdError A → Result HouseholdError A
or_error e (ok a) = ok a
or_error e (err x) = err (reword e x)

abbrev pub reworded :
    {A : Type 0}
    → HouseholdError
    → Result HouseholdError A × Store
    → Result HouseholdError A × Store
reworded e (r, s) = (or_error e r, s)

pub or_error_of : {A : Type 0} → HouseholdError → Op A → Op A
or_error_of e m s = reworded e (m s)

-- `db.Transaction`: an error undoes the writes.
abbrev pub roll_back :
    {A : Type 0} → Store → Result HouseholdError A × Store → Result HouseholdError A × Store
roll_back before (ok a, s) = (ok a, s)
roll_back before (err e, s) = (err e, before)

pub transaction : {A : Type 0} → Op A → Op A
transaction m s = roll_back s (m s)

-- A read of the tables.
pub read : {A : Type 0} → (Store → Result HouseholdError A) → Op A
read f s = (f s, s)

module _ {A : Type 0} where
  -- `First`: the row of lowest id that passes, which is the first of the list.
  abbrev pub first : (A → Bool) → List A → Result HouseholdError A
  first p [] = err not_found
  first p (x ∷ xs) = if p x then ok x else first p xs

  -- `UPDATE ... WHERE`
  abbrev pub update_where : (A → Bool) → (A → A) → List A → List A
  update_where p f [] = []
  update_where p f (x ∷ xs) = (if p x then f x else x) ∷ update_where p f xs

abbrev pub is_owner : Role → Bool
is_owner owner = true
is_owner _ = false

abbrev pub unpurged : HouseholdMember → Bool
unpurged m = not (is_some m.purged_at)

-- `left_at IS NULL AND purged_at IS NULL`
abbrev pub is_active : HouseholdMember → Bool
is_active m = not (is_some m.left_at) && not (is_some m.purged_at)
