-- ===== src/Households/Purge.antt =====
-- The purge runner, backend/internal/service/household/purge.go: it seals the members whose grace
-- has elapsed. Times are seconds.
pub mod Sealing
pub mod Settled
use offbook.Common.{
  ℕ, suc, ◌+◌, ◌-◌, ◌*◌, Bool, true, false, not, ◌&&◌, ◌||◌, Option, none, some, List, [], ◌∷◌, map,
  ltb, leb, ◌==◌, if◌then◌else◌, is_some, any, select, length,
}
use offbook.Common.Sort.{sort}
use offbook.Households.{
  Household, HouseholdMember, AccountShare, Account, Store, unpurged, update_where,
}
use offbook.Households.Tables.{is_live}

pub record PurgeResult : Type 0 where
  pub members_purged : ℕ
  pub shares_deleted : ℕ

pub record ExpiredRow : Type 0 where
  pub member_id : ℕ
  pub user_id : ℕ
  pub household_id : ℕ

-- `left_at + grace_period_days * INTERVAL '1 day' < now`, not for a member who has not left.
abbrev pub elapsed : ℕ → ℕ → Option ℕ → Bool
elapsed now grace none = false
elapsed now grace (some left) = ltb (left + grace * 86400) now

-- The join with the live household and the WHERE clause.
pub is_expired : ℕ → List Household → HouseholdMember → Bool
is_expired now households m =
    unpurged m
    && any (λ h. (h.id == m.household_id) && is_live h && elapsed now h.grace_period_days m.left_at)
        households

abbrev pub expired_row : HouseholdMember → ExpiredRow
expired_row m = record { member_id = m.id; user_id = m.user_id; household_id = m.household_id }

-- The expired members, by id.
pub expired : ℕ → Store → List ExpiredRow
expired now s =
    map expired_row (sort (λ x y. leb x.id y.id) (select (is_expired now s.households) s.members))

-- The shares of the member's accounts in the household.
abbrev pub shares_of : ExpiredRow → List Account → AccountShare → Bool
shares_of e accounts x =
    (x.household_id == e.household_id)
    && any (λ a. (a.id == x.account_id) && (a.user_id == e.user_id)) accounts

-- One transaction: the shares are deleted, then the membership is sealed.
pub purge_member : ℕ → ExpiredRow → PurgeResult × Store → PurgeResult × Store
purge_member now e (res, s) =
    let kept = select (λ x. not (shares_of e s.accounts x)) s.shares in
    let sealing : HouseholdMember → Bool = λ m. (m.id == e.member_id) && unpurged m in
    if any sealing s.members
    then (
      record {
        members_purged = suc res.members_purged;
        shares_deleted = res.shares_deleted + length (select (shares_of e s.accounts) s.shares);
      },
      record s {
        shares = kept;
        members = update_where sealing (λ m. record m { purged_at = some now }) s.members;
      },
    )
    else (res, record s { shares = kept })

pub purge_all : ℕ → List ExpiredRow → PurgeResult × Store → PurgeResult × Store
purge_all now [] r = r
purge_all now (e ∷ rest) r = purge_all now rest (purge_member now e r)

pub run_purge : ℕ → Store → PurgeResult × Store
run_purge now s =
    purge_all now (expired now s) (record { members_purged = 0; shares_deleted = 0 }, s)
