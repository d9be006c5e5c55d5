-- ===== src/Households/Service/Invites.antt =====
-- Invites of the household service, backend/internal/service/household/service.go. `hash_token`
-- is the keyed hash of package auth.
pub mod Accepting
use offbook.Common.{
  ℕ, ◌+◌, ◌*◌, Bool, true, false, not, Option, none, some, String, ltb, if◌then◌else◌, is_some,
  holds, str_eq, Result, ok, err,
}
use offbook.Model.{Strings}
use offbook.Households.{
  Role, contributor, Household, HouseholdMember, HouseholdInvite, Store, HouseholdError, not_found,
  invite_not_found, invite_expired, invite_already_accepted, invalid_role, instance_not_ready, Op,
  return, fail, ◌>>=◌, ◌>>◌, fail_if, or_error, read,
}
use offbook.Households.Tables.{
  get_household, create_member, create_invite_row, get_by_token_hash, mark_accepted,
}
use offbook.Households.Service.{
  require_owner, require_free, valid_role, try_resume, default_scope_to_household,
}

pub record AcceptResult : Type 0 where
  pub household_row : Household
  pub member : HouseholdMember
  pub resumed : Bool

abbrev pub invite_ttl : ℕ
invite_ttl = 7 * 24 * 3600

module _ ⦃strings : Strings⦄ where
  -- The role that an invite names; a blank one is a contributor's.
  unfoldable pub invited_role : String → Option Role
  invited_role r =
      let role = strings.trim_space r in
      if str_eq role "" then some contributor else valid_role role

module _ (hash_token : String → String) where
  unfoldable pub mint_invite : ℕ → ℕ → ℕ → Option Role → String → Op HouseholdInvite
  mint_invite now user household_id none token = fail invalid_role
  mint_invite now user household_id (some role) token =
      create_invite_row household_id (hash_token token) role user (now + invite_ttl) now

  -- `token` is what `auth.NewToken` draws.
  unfoldable pub create_invite :
      ⦃strings : Strings⦄ → ℕ → ℕ → ℕ → String → String → Op HouseholdInvite
  create_invite now user household_id role token = do
    require_owner user household_id
    configured ← read (λ s. ok s.configured)
    fail_if (not configured) instance_not_ready
    mint_invite now user household_id (invited_role role) token

  -- The invite of a token that has not expired.
  unfoldable pub find_invite : ℕ → String → Op HouseholdInvite
  find_invite now raw_token = do
    fail_if (str_eq raw_token "") invite_not_found
    inv ← read (λ s. or_error invite_not_found (get_by_token_hash (hash_token raw_token) s))
    fail_if (not (ltb now inv.expires_at)) invite_expired
    return inv

  pub validate_invite : ℕ → String → Op (Unit {0})
  validate_invite now raw_token = do
    inv ← find_invite now raw_token
    fail_if (is_some inv.accepted_at) invite_already_accepted

-- The end of every way to accept: the household is read and the scope is set.
unfoldable pub finish : ℕ → ℕ → HouseholdMember → Bool → Op AcceptResult
finish user household_id member resumed = do
  h ← read (get_household household_id)
  default_scope_to_household user
  return (record { household_row = h; member = member; resumed = resumed })

-- A token that this user accepted before lets them resume.
abbrev pub resume_or_refuse :
    ℕ
    → ℕ
    → Result HouseholdError HouseholdMember × Store
    → Result HouseholdError AcceptResult × Store
resume_or_refuse user household_id (ok member, s) = finish user household_id member true s
resume_or_refuse user household_id (err _, s) = (err invite_already_accepted, s)

pub accept_again : ℕ → HouseholdInvite → Op AcceptResult
accept_again user inv s =
    if holds inv.accepted_by user
    then resume_or_refuse user inv.household_id (try_resume user inv.household_id s)
    else (err invite_already_accepted, s)

unfoldable pub join : ℕ → ℕ → HouseholdInvite → Op AcceptResult
join now user inv = do
  require_free user
  m ← create_member inv.household_id user inv.role now
  mark_accepted inv.id user now
  finish user inv.household_id m false

abbrev pub resume_or_join :
    ℕ
    → ℕ
    → HouseholdInvite
    → Result HouseholdError HouseholdMember × Store
    → Result HouseholdError AcceptResult × Store
resume_or_join now user inv (ok member, s) =
    (mark_accepted inv.id user now >> finish user inv.household_id member true) s
resume_or_join now user inv (err not_found, s) = join now user inv s
resume_or_join now user inv (err e, s) = (err e, s)

unfoldable pub accept_first : ℕ → ℕ → HouseholdInvite → Op AcceptResult
accept_first now user inv s = resume_or_join now user inv (try_resume user inv.household_id s)

unfoldable pub accept_invite : (String → String) → ℕ → ℕ → String → Op AcceptResult
accept_invite hash_token now user raw_token = do
  inv ← find_invite hash_token now raw_token
  if is_some inv.accepted_at then accept_again user inv else accept_first now user inv
