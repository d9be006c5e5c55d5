-- ===== src/Households/Steps.antt =====
-- The household operations as steps on the tables, in any order and by any user.
use offbook.Common.{ℕ, arith, ◌≡◌, ◌≤◌, Bool, true, Option, none, List, [], String, All}
use offbook.Common.Integers.{ℤ}
use offbook.Model.{Strings}
use offbook.Households.{User, Account, Store, is_owner, unpurged}
use offbook.Households.Sound.{Inv, memberships, owners}
use offbook.Households.Service.{
  create, update, dissolve, leave, remove_member, update_member_role, transfer_owner, set_share,
}
use offbook.Households.Service.Keeps.{
  leave-Inv, remove_member-Inv, update_member_role-Inv, dissolve-Inv,
}
use offbook.Households.Service.Creating.{create-Inv}
use offbook.Households.Service.Transferring.{transfer_owner-Inv}
use offbook.Households.Service.Settings.{update-Inv, set_share-Inv}
use offbook.Households.Service.Invites.{create_invite, accept_invite}
use offbook.Households.Service.Invites.Accepting.{create_invite-Inv, accept_invite-Inv}
use offbook.Households.Purge.{run_purge}
use offbook.Households.Purge.Sealing.{run_purge-Inv}

-- Tables without a household, on an instance with some users and accounts.
abbrev pub start : List User → List Account → Bool → Store
start users accounts configured = record {
  households = [];
  members = [];
  invites = [];
  shares = [];
  accounts = accounts;
  users = users;
  configured = configured;
  next_household_id = 1;
  next_member_id = 1;
  next_invite_id = 1;
  next_share_id = 1;
}

module _ ⦃strings : Strings⦄ (hash_token : String → String) where
  -- One call of the service, whatever it returns, one run of the purge, or a change of the users,
  -- accounts and configuration by another part of the program.
  pub data Step : Store → Store → Type 0 where
    creates :
        (s : Store) (now user : ℕ) (name : String) (grace : Option ℤ)
        → Step s (create now user name grace s).1
    updates :
        (s : Store) (user h : ℕ) (name : Option String) (grace : Option ℤ)
        → Step s (update user h name grace s).1
    dissolves : (s : Store) (now user h : ℕ) → Step s (dissolve now user h s).1
    invites :
        (s : Store) (now user h : ℕ) (role token : String)
        → Step s (create_invite hash_token now user h role token s).1
    accepts :
        (s : Store) (now user : ℕ) (token : String)
        → Step s (accept_invite hash_token now user token s).1
    leaves : (s : Store) (now user h : ℕ) → Step s (leave now user h s).1
    removes : (s : Store) (now user h target : ℕ) → Step s (remove_member now user h target s).1
    changes_role :
        (s : Store) (user h target : ℕ) (role : String)
        → Step s (update_member_role user h target role s).1
    transfers : (s : Store) (user h target : ℕ) → Step s (transfer_owner user h target s).1
    shares :
        (s : Store) (now user account h : ℕ) (visibility : String)
        → Step s (set_share now user account h visibility s).1
    purges : (s : Store) (now : ℕ) → Step s (run_purge now s).1
    others :
        (s : Store) (users : List User) (accounts : List Account) (configured : Bool)
        → Step s (record s { users = users; accounts = accounts; configured = configured })

  pub data Reachable : Store → Type 0 where
    starts :
        (users : List User) (accounts : List Account) (configured : Bool)
        → Reachable (start users accounts configured)
    steps : (s s' : Store) → Reachable s → Step s s' → Reachable s'

  Step-Inv : (s s' : Store) → Inv s → Step s s' → Inv s'
  Step-Inv s _ inv (creates _ now user name grace) = create-Inv s inv now user name grace
  Step-Inv s _ inv (updates _ user h name grace) = update-Inv s inv user h name grace
  Step-Inv s _ inv (dissolves _ now user h) = dissolve-Inv s inv now user h
  Step-Inv s _ inv (invites _ now user h role token) =
      create_invite-Inv hash_token s inv now user h role token
  Step-Inv s _ inv (accepts _ now user token) = accept_invite-Inv hash_token s inv now user token
  Step-Inv s _ inv (leaves _ now user h) = leave-Inv s inv now user h
  Step-Inv s _ inv (removes _ now user h target) = remove_member-Inv s inv now user h target
  Step-Inv s _ inv (changes_role _ user h target role) =
      update_member_role-Inv s inv 0 user h target role
  Step-Inv s _ inv (transfers _ user h target) = transfer_owner-Inv s inv user h target
  Step-Inv s _ inv (shares _ now user account h visibility) =
      set_share-Inv s inv now user account h visibility
  Step-Inv s _ inv (purges _ now) = run_purge-Inv s inv now
  Step-Inv s _ inv (others _ users accounts configured) = record { sound = inv.sound }

  pub Reachable-Inv : (s : Store) → Reachable s → Inv s
  Reachable-Inv _ (starts users accounts configured) = record {
    sound = record {
      one_household = λ _. omega arith;
      one_owner = λ _. omega arith;
      owned = tt;
      owners_stay = tt;
      distinct = λ _. omega arith;
      member_known = tt;
      household_known = tt;
      households_known = tt;
      invites_known = tt;
    };
  }
  Reachable-Inv _ (steps s s' r t) = Step-Inv s s' (Reachable-Inv s r) t

  -- In every state that the operations reach, no user has two memberships that are not purged, and
  -- every household has exactly one owner that is not purged, who has not left it.
  pub reachable_one_owner :
      (s : Store)
      → Reachable s
      → ((user : ℕ) → memberships user s.members ≤ 1)
        × All (λ h. owners h.id s.members ≡ 1) s.households
        × All (λ m. is_owner m.role ≡ true → unpurged m ≡ true → m.left_at ≡ none) s.members
  reachable_one_owner s r =
      let inv = Reachable-Inv s r in
      (inv.sound.one_household, inv.sound.owned, inv.sound.owners_stay)
