-- ===== src/Households/Tests.antt =====
-- A household of two: user 7 creates it, user 8 joins by invite and becomes its owner, user 7 leaves.
use offbook.Common.{ℕ, ◌≡◌, ◌≤◌, refl, true, none, List, [], ◌∷◌, map, String, All, str_eq}
use offbook.Samples.{plain_strings}
use offbook.Households.{
  return, fail, ◌>>=◌, ◌>>◌, fail_if, or_error_of, transaction, read, Store, User, personal, owner,
  contributor, HouseholdMember, unpurged, is_owner,
}
use offbook.Households.Tables.{
  get_household, create_household, get_active, count_active_owners, create_member, update_role,
  create_invite_row, get_by_token_hash, mark_accepted, update_last_scope, get_membership_for_user,
}
use offbook.Households.Sound.{memberships, owners}
use offbook.Households.Steps.{
  Reachable, starts, steps, creates, invites, accepts, transfers, leaves, reachable_one_owner,
}
use offbook.Households.Service.{
  create, leave, transfer_owner, require_owner, require_free, keep_an_owner, try_resume,
  default_scope_to_household, valid_role,
}
use offbook.Households.Service.Invites.{
  create_invite, mint_invite, invited_role, find_invite, accept_invite, accept_first, join, finish,
}
use offbook.Households.Purge.{run_purge}
use offbook.Households.Purge.Settled.{run_purge_idem}
use offbook.Households.Steps.{start}

abbrev users : List User
users = (record { id = 7; last_scope = personal }) ∷ (record { id = 8; last_scope = personal }) ∷ []

abbrev hash : String → String
hash t = t

abbrev created : Store
created = (create 100 7 "Home" none (start users [] true)).1

abbrev invited : Store
invited = (create_invite hash 200 7 1 "" "token" created).1

abbrev joined : Store
joined = (accept_invite hash 300 8 "token" invited).1

abbrev handed_over : Store
handed_over = (transfer_owner 7 1 8 joined).1

abbrev left : Store
left = (leave 400 7 1 handed_over).1

abbrev history : Reachable hash left
history =
    steps handed_over left
      (steps joined handed_over
        (steps invited joined
          (steps created invited
            (steps (start users [] true) created (starts users [] true)
              (creates (start users [] true) 100 7 "Home" none))
            (invites created 200 7 1 "" "token"))
          (accepts invited 300 8 "token"))
        (transfers joined 7 1 8))
      (leaves handed_over 400 7 1)

roles : map (λ m. m.role) left.members ≡ contributor ∷ owner ∷ []
unfolding return fail ◌>>=◌ ◌>>◌ fail_if or_error_of transaction read get_household create_household
    get_active get_membership_for_user count_active_owners create_member update_role
    create_invite_row get_by_token_hash mark_accepted update_last_scope create leave transfer_owner
    require_owner require_free keep_an_owner try_resume default_scope_to_household valid_role
    create_invite mint_invite invited_role find_invite accept_invite accept_first join finish str_eq
roles = refl

reachable_one_owner_example :
    ((user : ℕ) → memberships user left.members ≤ 1)
    × All (λ h. owners h.id left.members ≡ 1) left.households
    × All (λ m. is_owner m.role ≡ true → unpurged m ≡ true → m.left_at ≡ none) left.members
reachable_one_owner_example = reachable_one_owner hash left history

run_purge_idem_example :
    run_purge 9999999 (run_purge 9999999 left).1
    ≡ (record { members_purged = 0; shares_deleted = 0 }, (run_purge 9999999 left).1)
run_purge_idem_example = run_purge_idem 9999999 left

abbrev founder : HouseholdMember
founder = record {
  id = 1;
  household_id = 1;
  user_id = 7;
  role = owner;
  joined_at = 100;
  left_at = none;
  purged_at = none;
}
