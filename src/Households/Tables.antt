-- ===== src/Households/Tables.antt =====
-- The repositories of households, members, invites, shares and users: household_repo.go,
-- user_repo.go and account_repo.go of backend/internal/repository, with the unique indexes of the
-- schema.
use offbook.Common.{
  ℕ, suc, Bool, not, ◌&&◌, ◌||◌, none, some, [], ◌∷◌, ◌++◌, String, ◌==◌, if◌then◌else◌, is_some,
  any, select, length, str_eq, Result, ok, err,
}
use offbook.Households.{
  first, update_where, Role, Scope, Household, HouseholdMember, HouseholdInvite, AccountShare,
  Account, Store, HouseholdError, Op, is_owner, unpurged, is_active, not_found, constraint,
}

-- Households: a live row is not deleted.

abbrev pub is_live : Household → Bool
is_live h = not (is_some h.deleted_at)

unfoldable pub get_household : ℕ → Store → Result HouseholdError Household
get_household id s = first (λ h. (h.id == id) && is_live h) s.households

unfoldable pub create_household : String → ℕ → Op Household
create_household name grace s =
    let h : Household = record {
      id = s.next_household_id;
      name = name;
      grace_period_days = grace;
      deleted_at = none;
    } in
    (
      ok h,
      record s {
        households = s.households ++ (h ∷ []);
        next_household_id = suc s.next_household_id;
      },
    )

unfoldable pub save_household : Household → Op (Unit {0})
save_household h s =
    (ok tt, record s { households = update_where (λ x. x.id == h.id) (λ _. h) s.households })

unfoldable pub soft_delete_household : ℕ → ℕ → Op (Unit {0})
soft_delete_household now id s =
    if any (λ h. (h.id == id) && is_live h) s.households
    then (
      ok tt,
      record s {
        households =
            update_where (λ h. (h.id == id) && is_live h) (λ h. record h { deleted_at = some now })
              s.households;
      },
    )
    else (err not_found, s)

-- Members

unfoldable pub get_active : ℕ → ℕ → Store → Result HouseholdError HouseholdMember
get_active household_id user s =
    first (λ m. (m.household_id == household_id) && (m.user_id == user) && is_active m) s.members

unfoldable pub get_membership_for_user : ℕ → Store → Result HouseholdError HouseholdMember
get_membership_for_user user s = first (λ m. (m.user_id == user) && unpurged m) s.members

unfoldable pub count_active_owners : ℕ → Store → ℕ
count_active_owners household_id s =
    length
      (select (λ m. (m.household_id == household_id) && is_owner m.role && is_active m) s.members)

-- The rows that `uq_household_members_active` and `uq_household_single_owner` compare.
abbrev pub owns : ℕ → HouseholdMember → Bool
owns household_id m = (m.household_id == household_id) && is_owner m.role && unpurged m

unfoldable pub create_member : ℕ → ℕ → Role → ℕ → Op HouseholdMember
create_member household_id user role now s =
    let m : HouseholdMember = record {
      id = s.next_member_id;
      household_id = household_id;
      user_id = user;
      role = role;
      joined_at = now;
      left_at = none;
      purged_at = none;
    } in
    if any (λ x. (x.household_id == household_id) && (x.user_id == user) && unpurged x) s.members
      || (is_owner role && any (owns household_id) s.members)
    then (err constraint, s)
    else (ok m, record s { members = s.members ++ (m ∷ []); next_member_id = suc s.next_member_id })

abbrev pub is_active_id : ℕ → HouseholdMember → Bool
is_active_id id m = (m.id == id) && is_active m

-- An update of the rows that pass, or `RowsAffected == 0`.
abbrev pub update_members :
    (HouseholdMember → Bool) → (HouseholdMember → HouseholdMember) → HouseholdError → Op (Unit {0})
update_members p f e s =
    if any p s.members
    then (ok tt, record s { members = update_where p f s.members })
    else (err e, s)

abbrev pub mark_left : ℕ → ℕ → Op (Unit {0})
mark_left id now = update_members (is_active_id id) (λ m. record m { left_at = some now }) not_found

abbrev pub clear_left : ℕ → Op (Unit {0})
clear_left id =
    update_members (λ m. (m.id == id) && unpurged m) (λ m. record m { left_at = none }) not_found

-- An update to owner meets `uq_household_single_owner`.
unfoldable pub update_role : ℕ → Role → HouseholdError → Op (Unit {0})
update_role id role e s =
    if is_owner role
      && any
          (λ m.
            is_active_id id m && any (λ x. owns m.household_id x && not (x.id == m.id)) s.members)
          s.members
    then (err constraint, s)
    else update_members (is_active_id id) (λ m. record m { role = role }) e s

-- Invites

unfoldable pub create_invite_row : ℕ → String → Role → ℕ → ℕ → ℕ → Op HouseholdInvite
create_invite_row household_id token_hash role created_by expires_at now s =
    let i : HouseholdInvite = record {
      id = s.next_invite_id;
      household_id = household_id;
      token_hash = token_hash;
      role = role;
      created_by = created_by;
      expires_at = expires_at;
      accepted_at = none;
      accepted_by = none;
      created_at = now;
    } in
    if any (λ x. str_eq x.token_hash token_hash) s.invites
    then (err constraint, s)
    else (ok i, record s { invites = s.invites ++ (i ∷ []); next_invite_id = suc s.next_invite_id })

unfoldable pub get_by_token_hash : String → Store → Result HouseholdError HouseholdInvite
get_by_token_hash token_hash s = first (λ i. str_eq i.token_hash token_hash) s.invites

unfoldable pub mark_accepted : ℕ → ℕ → ℕ → Op (Unit {0})
mark_accepted id user now s =
    let open_one : HouseholdInvite → Bool = λ i. (i.id == id) && not (is_some i.accepted_at) in
    if any open_one s.invites
    then (
      ok tt,
      record s {
        invites =
            update_where open_one
              (λ i. record i { accepted_at = some now; accepted_by = some user }) s.invites;
      },
    )
    else (err not_found, s)

-- Shares

abbrev pub is_share_of : ℕ → ℕ → AccountShare → Bool
is_share_of account_id household_id x =
    (x.account_id == account_id) && (x.household_id == household_id)

abbrev pub is_live_share : AccountShare → Bool
is_live_share x = not (is_some x.deleted_at)

-- A row that is there, deleted or not, is taken up again.
unfoldable pub upsert_share : ℕ → ℕ → String → Op AccountShare
upsert_share account_id household_id visibility s =
    elim (first (is_share_of account_id household_id) s.shares) [
      | ok old ↦
          let new : AccountShare = record old { visibility = visibility; deleted_at = none } in
          (ok new, record s { shares = update_where (λ x. x.id == old.id) (λ _. new) s.shares })
      | err _ ↦
          let new : AccountShare = record {
            id = s.next_share_id;
            account_id = account_id;
            household_id = household_id;
            visibility = visibility;
            deleted_at = none;
          } in
          (
            ok new,
            record s { shares = s.shares ++ (new ∷ []); next_share_id = suc s.next_share_id },
          )
    ]

unfoldable pub soft_delete_share : ℕ → ℕ → ℕ → Op (Unit {0})
soft_delete_share now account_id household_id s =
    let live : AccountShare → Bool =
      λ x. is_share_of account_id household_id x && is_live_share x in
    if any live s.shares
    then (
      ok tt,
      record s { shares = update_where live (λ x. record x { deleted_at = some now }) s.shares },
    )
    else (err not_found, s)

-- Users and accounts

unfoldable pub update_last_scope : ℕ → Scope → Op (Unit {0})
update_last_scope id scope s =
    if any (λ u. u.id == id) s.users
    then (
      ok tt,
      record s {
        users = update_where (λ u. u.id == id) (λ u. record u { last_scope = scope }) s.users;
      },
    )
    else (err not_found, s)

unfoldable pub get_account : ℕ → ℕ → Store → Result HouseholdError Account
get_account user id s = first (λ a. (a.id == id) && (a.user_id == user)) s.accounts
