-- ===== src/Households/Service.antt =====
-- The household service, backend/internal/service/household/service.go: one operation per method.
-- `now` is what the service's clock reads.
pub mod Keeps
pub mod Creating
pub mod Transferring
pub mod Settings
pub mod Dissolving
pub mod Invites
use offbook.Common.{
  ℕ, ◌+◌, ◌*◌, ◌<◌, Bool, true, false, not, ◌&&◌, ◌||◌, Option, none, some, List, [], ◌∷◌, String,
  ltb, leb, ◌==◌, if◌then◌else◌, is_some, any, select, holds, str_eq, Result, ok, err,
}
use offbook.Common.Integers.{ℤ, pos, negsuc}
use offbook.Common.Sort.{sort}
use offbook.Model.{Strings}
use offbook.Households.{
  Role, owner, contributor, view_only, Scope, household, Household, HouseholdMember,
  HouseholdInvite, AccountShare, Store, HouseholdError, not_found, household_not_found,
  invite_not_found, invite_expired, invite_already_accepted, empty_name, invalid_role,
  invalid_grace, invalid_visibility, cannot_promote_to_owner, forbidden, not_member, already_member,
  last_owner, account_not_owned, instance_not_ready, cannot_modify_self, member_not_found, Op,
  return, fail, ◌>>=◌, ◌>>◌, fail_if, or_error, or_error_of, transaction, read, is_owner, is_active,
  unpurged,
}
use offbook.Households.Tables.{
  get_household, create_household, save_household, soft_delete_household, get_active,
  get_membership_for_user, count_active_owners, create_member, mark_left, clear_left, update_role,
  create_invite_row, get_by_token_hash, mark_accepted, upsert_share, soft_delete_share,
  update_last_scope, get_account, is_live_share,
}

pub record HouseholdDetail : Type 0 where
  pub household_row : Household
  pub members : List HouseholdMember
  pub role : Role

-- `CASE role WHEN 'owner' THEN 0 WHEN 'contributor' THEN 1 ELSE 2 END`
abbrev pub role_rank : Role → ℕ
role_rank owner = 0
role_rank contributor = 1
role_rank view_only = 2

abbrev pub by_role : HouseholdMember → HouseholdMember → Bool
by_role x y =
    ltb (role_rank x.role) (role_rank y.role)
    || ((role_rank x.role == role_rank y.role) && leb x.id y.id)

pub list_active : ℕ → Store → List HouseholdMember
list_active household_id s =
    sort by_role (select (λ m. (m.household_id == household_id) && is_active m) s.members)

-- The text of a role, or none for a text that is no role.
unfoldable pub valid_role : String → Option Role
valid_role r =
    if str_eq r "owner"
    then some owner
    else if str_eq r "contributor"
    then some contributor
    else if str_eq r "view_only"
    then some view_only
    else none

-- The grace period that was given, where it is not negative.
abbrev pub check_grace : ℕ → Option ℤ → Op ℕ
check_grace default none = return default
check_grace default (some (pos n)) = return n
check_grace default (some (negsuc n)) = fail invalid_grace

-- `GetMembershipForUser` found a row that is not purged.
abbrev pub is_free : Result HouseholdError HouseholdMember → Op (Unit {0})
is_free (ok m) = fail already_member
is_free (err not_found) = return tt
is_free (err e) = fail e

unfoldable pub require_free : ℕ → Op (Unit {0})
require_free user s = is_free (get_membership_for_user user s) s

unfoldable pub require_owner : ℕ → ℕ → Op (Unit {0})
require_owner user household_id = do
  mem ← read (λ s. or_error not_member (get_active household_id user s))
  fail_if (not (is_owner mem.role)) forbidden

pub require_account_owner : ℕ → ℕ → Op (Unit {0})
require_account_owner user account_id = do
  acc ← read (λ s. or_error account_not_owned (get_account user account_id s))
  fail_if (not (acc.user_id == user)) account_not_owned

unfoldable pub default_scope_to_household : ℕ → Op (Unit {0})
default_scope_to_household user = update_last_scope user household

-- A row of the household, left or not, that is not purged is taken up again.
unfoldable pub try_resume : ℕ → ℕ → Op HouseholdMember
try_resume user household_id = do
  mem ← read (get_membership_for_user user)
  fail_if (not (mem.household_id == household_id)) not_found
  if not (is_some mem.left_at)
      then return mem
      else (clear_left mem.id >> return (record mem { left_at = none }))

-- The guard of the last owner.
unfoldable pub keep_an_owner : HouseholdMember → ℕ → Op (Unit {0})
keep_an_owner mem household_id s =
    fail_if (is_owner mem.role && leb (count_active_owners household_id s) 1) last_owner s

pub dissolve : ℕ → ℕ → ℕ → Op (Unit {0})
dissolve now user household_id = do
  require_owner user household_id
  or_error_of household_not_found (soft_delete_household now household_id)

unfoldable pub leave : ℕ → ℕ → ℕ → Op (Unit {0})
leave now user household_id = do
  mem ← read (λ s. or_error not_member (get_active household_id user s))
  keep_an_owner mem household_id
  mark_left mem.id now

pub get : ℕ → ℕ → Op HouseholdDetail
get user household_id = do
  mem ← read (λ s. or_error not_member (get_active household_id user s))
  h ← read (λ s. or_error household_not_found (get_household household_id s))
  read (λ s.
      ok (record { household_row = h; members = list_active household_id s; role = mem.role }))

pub remove_member : ℕ → ℕ → ℕ → ℕ → Op (Unit {0})
remove_member now user household_id target_user = do
  require_owner user household_id
  fail_if (target_user == user) cannot_modify_self
  target ← read (λ s. or_error member_not_found (get_active household_id target_user s))
  keep_an_owner target household_id
  mark_left target.id now

-- Demotes the caller, then promotes the target, in one transaction.
unfoldable pub transfer_owner : ℕ → ℕ → ℕ → Op (Unit {0})
transfer_owner caller_id household_id target_user = do
  require_owner caller_id household_id
  fail_if (target_user == caller_id) cannot_modify_self
  target ← read (λ s. or_error member_not_found (get_active household_id target_user s))
  caller ← read (get_active household_id caller_id)
  transaction
      (update_role caller.id contributor forbidden >> update_role target.id owner member_not_found)

-- `UpdateMemberRole` once the text of the role is read.
pub change_role : Option Role → ℕ → ℕ → ℕ → Op HouseholdMember
change_role none user household_id target_user = fail invalid_role
change_role (some role) user household_id target_user = do
  fail_if (is_owner role) cannot_promote_to_owner
  fail_if (target_user == user) cannot_modify_self
  target ← read (λ s. or_error member_not_found (get_active household_id target_user s))
  keep_an_owner target household_id
  update_role target.id role not_found
  return (record target { role = role })

pub update_member_role : ⦃strings : Strings⦄ → ℕ → ℕ → ℕ → String → Op HouseholdMember
update_member_role ⦃strings⦄ user household_id target_user role = do
  require_owner user household_id
  change_role (valid_role (strings.trim_space role)) user household_id target_user

pub record MembersListing : Type 0 where
  pub active : List HouseholdMember
  pub in_grace : List HouseholdMember

pub list_members : ℕ → ℕ → Bool → Op MembersListing
list_members user household_id include_in_grace = do
  _ ← read (λ s. or_error not_member (get_active household_id user s))
  read (λ s.
      if not include_in_grace
      then ok (record { active = list_active household_id s; in_grace = [] })
      else (let all =
            sort by_role (select (λ m. (m.household_id == household_id) && unpurged m) s.members) in
          ok (record {
            active = select (λ m. not (is_some m.left_at)) all;
            in_grace = select (λ m. is_some m.left_at) all;
          })))

pub list_shares : ℕ → ℕ → Op (List AccountShare)
list_shares user account_id = do
  require_account_owner user account_id
  read (λ s. ok (select (λ x. (x.account_id == account_id) && is_live_share x) s.shares))

-- A share that is private already stays so.
abbrev pub ignore_missing :
    Result HouseholdError (Unit {0}) × Store → Result HouseholdError (Option AccountShare) × Store
ignore_missing (ok _, s) = (ok none, s)
ignore_missing (err not_found, s) = (ok none, s)
ignore_missing (err e, s) = (err e, s)

pub set_visibility : ℕ → ℕ → ℕ → String → Op (Option AccountShare)
set_visibility now account_id household_id visibility s =
    if str_eq visibility "private"
    then ignore_missing (soft_delete_share now account_id household_id s)
    else if str_eq visibility "balance_only" || str_eq visibility "balance_and_txns"
    then (upsert_share account_id household_id visibility >>= λ share. return (some share)) s
    else (err invalid_visibility, s)

pub set_share : ℕ → ℕ → ℕ → ℕ → String → Op (Option AccountShare)
set_share now user account_id household_id visibility = do
  require_account_owner user account_id
  _ ← read (λ s. or_error household_not_found (get_household household_id s))
  set_visibility now account_id household_id visibility

module _ ⦃strings : Strings⦄ where
  unfoldable pub create : ℕ → ℕ → String → Option ℤ → Op Household
  create now user name grace_period_days = do
    fail_if (str_eq (strings.trim_space name) "") empty_name
    grace ← check_grace 30 grace_period_days
    require_free user
    h ← create_household (strings.trim_space name) grace
    _ ← create_member h.id user owner now
    default_scope_to_household user
    return h

  abbrev pub new_name : String → Option String → Op String
  new_name old none = return old
  new_name old (some n) =
      fail_if (str_eq (strings.trim_space n) "") empty_name >> return (strings.trim_space n)

  pub update : ℕ → ℕ → Option String → Option ℤ → Op Household
  update user household_id name grace_period_days = do
    require_owner user household_id
    h ← read (λ s. or_error household_not_found (get_household household_id s))
    n ← new_name h.name name
    grace ← check_grace h.grace_period_days grace_period_days
    save_household (record h { name = n; grace_period_days = grace })
    return (record h { name = n; grace_period_days = grace })
