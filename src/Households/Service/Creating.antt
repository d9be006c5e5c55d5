-- ===== src/Households/Service/Creating.antt =====
-- A new household keeps the tables sound, and its creator owns it.
use offbook.Common.{
  ℕ, suc, ◌<◌, ◌≡◌, refl, sym, subst, inl, inr, false, ◌&&◌, ◌||◌, Option, none, some, List, [],
  ◌∷◌, ◌++◌, String, arith, ◌==◌, ==_refl, if◌then◌else◌, any, All, All-map, All-append, Bool-cases,
  Result, ok, err,
}
use offbook.Common.Integers.{ℤ, pos, negsuc}
use offbook.Model.{Strings}
use offbook.Households.{
  Role, owner, Household, HouseholdMember, Store, HouseholdError, not_found, Op, fail, return,
  first, is_owner, unpurged, ◌>>◌,
}
use offbook.Households.Tables.{
  owns, get_membership_for_user, create_household, create_member, update_last_scope,
}
use offbook.Households.Calls.{after_guard, after_call, after_ok, after_step}
use offbook.Households.Sound.{IsSound, Inv, memberships, owners, weigh-append}
use offbook.Households.Updates.{create_member-IsSound}
use offbook.Households.Service.{require_free, check_grace, create, default_scope_to_household}

-- A user without a membership that is not purged.
pub not_found-free :
    (user : ℕ) (s : Store)
    → get_membership_for_user user s ≡ err not_found
    → memberships user s.members ≡ 0
unfolding get_membership_for_user
not_found-free user s = none_found s.members
  where
    none_found :
        (rows : List HouseholdMember)
        → first (λ m. (m.user_id == user) && unpurged m) rows ≡ err not_found
        → memberships user rows ≡ 0
    none_found [] h = refl
    none_found (x ∷ rows) h = ground (arith, none_found rows)

none_owned : (h : ℕ) (rows : List HouseholdMember) → any (owns h) rows ≡ false → owners h rows ≡ 0
none_owned h [] e = refl
none_owned h (x ∷ rows) e = ground (arith, none_owned h rows)

-- Past `require_free` the user is in no household.
pub after_free :
    {B : Type 0} (P : Store → Type 0) (s : Store) (user : ℕ) (k : Op B)
    → P s
    → (memberships user s.members ≡ 0 → P (k s).1)
    → P ((require_free user >> k) s).1
unfolding require_free ◌>>◌ fail return
after_free P s user k before rest = go (get_membership_for_user user s) refl
  where
    go :
        (r : Result HouseholdError HouseholdMember)
        → get_membership_for_user user s ≡ r
        → P ((require_free user >> k) s).1
    go (ok m) q = rw q before
    go (err not_found) q = rw q (rest (not_found-free user s q))
    go (err e) q = rw q before

-- A member of a household of the table for a user who is in none.
pub create_member-Inv :
    (s : Store) (inv : Inv s) (h user : ℕ) (role : Role) (now : ℕ)
    → h < s.next_household_id
    → memberships user s.members ≡ 0
    → Inv (create_member h user role now s).1
unfolding create_member
create_member-Inv s inv h user role now k free =
    elim (Bool-cases (
      any (λ x. (x.household_id == h) && (x.user_id == user) && unpurged x) s.members
      || (is_owner role && any (owns h) s.members))) [
        | inl t ↦ rw t inv
        | inr t ↦ rw t (record {
          sound =
              create_member-IsSound s.members s.households s.invites _ _ inv.sound _ refl k refl
                free (λ o. none_owned h s.members (ground (arith, o, t)));
        })
      ]

-- No row names the household to come.
unseen :
    (h user : ℕ) (rows : List HouseholdMember)
    → All (λ m. m.household_id < h) rows
    → (any (λ x. (x.household_id == h) && (x.user_id == user) && unpurged x) rows ≡ false)
      × (any (owns h) rows ≡ false)
unseen h user [] a = (refl, refl)
unseen h user (x ∷ rows) (q, qs) =
    ground (arith, q, (unseen h user rows qs).0, (unseen h user rows qs).1)

module _ (s : Store) (inv : Inv s) (user : ℕ) (name : String) (grace now : ℕ) where
  abbrev new_household : Household
  new_household = record {
    id = s.next_household_id;
    name = name;
    grace_period_days = grace;
    deleted_at = none;
  }

  abbrev new_member : HouseholdMember
  new_member = record {
    id = s.next_member_id;
    household_id = s.next_household_id;
    user_id = user;
    role = owner;
    joined_at = now;
    left_at = none;
    purged_at = none;
  }

  abbrev with_household : Store
  with_household = record s {
    households = s.households ++ (new_household ∷ []);
    next_household_id = suc s.next_household_id;
  }

  abbrev with_member : Store
  with_member = record with_household {
    members = s.members ++ (new_member ∷ []);
    next_member_id = suc s.next_member_id;
  }

  pub create_household-ok : create_household name grace s ≡ (ok new_household, with_household)
  unfolding create_household
  create_household-ok = refl

  pub create_member-ok :
      create_member s.next_household_id user owner now with_household ≡ (ok new_member, with_member)
  unfolding create_member
  create_member-ok =
      rw
        (
          (unseen s.next_household_id user s.members inv.sound.household_known).0,
          (unseen s.next_household_id user s.members inv.sound.household_known).1,
        )
        refl

  with_member-Inv : memberships user s.members ≡ 0 → Inv with_member
  with_member-Inv free = record {
    sound = record {
      one_household = joined.one_household;
      one_owner = joined.one_owner;
      owned = All-append _ s.households _ joined.owned (owns_one, tt);
      owners_stay = joined.owners_stay;
      distinct = joined.distinct;
      member_known = joined.member_known;
      household_known = joined.household_known;
      households_known = All-append _ s.households _ joined.households_known (omega arith, tt);
      invites_known = joined.invites_known;
    };
  }
    where
      none_yet : owners s.next_household_id s.members ≡ 0
      none_yet =
          none_owned s.next_household_id s.members
            (unseen s.next_household_id user s.members inv.sound.household_known).1

      grown : IsSound s.members s.households s.invites (suc s.next_household_id) s.next_member_id
      grown = record {
        one_household = inv.sound.one_household;
        one_owner = inv.sound.one_owner;
        owned = inv.sound.owned;
        owners_stay = inv.sound.owners_stay;
        distinct = inv.sound.distinct;
        member_known = inv.sound.member_known;
        household_known = All-map _ _ (λ m q. omega arith) s.members inv.sound.household_known;
        households_known = All-map _ _ (λ h q. omega arith) s.households inv.sound.households_known;
        invites_known = All-map _ _ (λ i q. omega arith) s.invites inv.sound.invites_known;
      }

      joined :
          IsSound
            (s.members ++ (new_member ∷ []))
            s.households
            s.invites
            (suc s.next_household_id)
            (suc s.next_member_id)
      joined =
          create_member-IsSound s.members s.households s.invites _ _ grown new_member refl
            (omega arith) refl free (λ _. none_yet)

      owns_one : owners s.next_household_id (s.members ++ (new_member ∷ [])) ≡ 1
      owns_one =
          rw
            (
              weigh-append (λ m. if owns s.next_household_id m then 1 else 0) s.members,
              none_yet,
              ==_refl s.next_household_id,
            )
            refl

pub update_last_scope-Inv :
    (s : Store) (inv : Inv s) (user : ℕ) → Inv (default_scope_to_household user s).1
unfolding default_scope_to_household update_last_scope
update_last_scope-Inv s inv user = elim (Bool-cases (any (λ u. u.id == user) s.users)) [
  | inl t ↦ rw t (record { sound = inv.sound })
  | inr t ↦ rw t inv
]

pub check_grace-same :
    (default : ℕ) (given : Option ℤ) (s : Store) → (check_grace default given s).1 ≡ s
unfolding return fail
check_grace-same default none s = refl
check_grace-same default (some (pos n)) s = refl
check_grace-same default (some (negsuc n)) s = refl

pub create-Inv :
    ⦃strings : Strings⦄ (s : Store) (inv : Inv s) (now user : ℕ) (name : String) (given : Option ℤ)
    → Inv (create now user name given s).1
unfolding create return
create-Inv s inv now user name given = after_guard Inv s _ _ _ inv (λ _.
    after_call Inv s _ _ (subst Inv (sym (check_grace-same 30 given s)) inv) (λ grace s' _ inv'.
      after_free Inv s' user _ inv' (λ free.
        after_ok Inv s' _ _ _ _ (create_household-ok s' inv' user _ grace now) (
          after_ok Inv (with_household s' inv' user _ grace now) _ _ _ _
            (create_member-ok s' inv' user _ grace now)
            (after_step Inv _ _ _
              (update_last_scope-Inv _ (with_member-Inv s' inv' user _ grace now free) user)
              (λ _ _ i. i))))))
