-- ===== src/Households/Service/Invites/Accepting.antt =====
-- Minting and accepting invites keeps the tables sound.
use offbook.Common.{
  ℕ, ◌<◌, ◌≡◌, refl, sym, subst, inl, inr, Bool, true, false, not, ◌&&◌, Option, none, some, List,
  String, arith, ltb, ◌==◌, is_some, holds, any, All, All-In, All-append, In, Bool-cases, Result,
  ok, err, str_eq,
}
use offbook.Model.{Strings}
use offbook.Households.{
  Role, HouseholdMember, HouseholdInvite, Store, HouseholdError, not_found, invite_not_found,
  invite_expired, fail_if, fail, return, unpurged, or_error, read, continue_with, is_active, ◌>>=◌,
  ◌>>◌,
}
use offbook.Households.Tables.{get_by_token_hash, create_invite_row, mark_accepted, clear_left}
use offbook.Households.Calls.{after_read, after_guard, after_call, after_step}
use offbook.Households.Sound.{Inv, All-update, first-In}
use offbook.Households.Writes.{get_active-row, or_error-ok}
use offbook.Households.Service.{try_resume}
use offbook.Households.Service.Keeps.{after_owner, try_resume-Inv}
use offbook.Households.Service.Creating.{after_free, create_member-Inv, update_last_scope-Inv}
use offbook.Households.Service.Invites.{
  mint_invite, create_invite, find_invite, finish, resume_or_refuse, accept_again, join,
  resume_or_join, accept_first, accept_invite,
}

-- Invites name known households.
with_invites :
    (s : Store) (inv : Inv s) (invites : List HouseholdInvite) (n : ℕ)
    → All (λ i. i.household_id < s.next_household_id) invites
    → Inv (record s { invites = invites; next_invite_id = n })
with_invites s inv invites n known = record {
  sound = record {
    one_household = inv.sound.one_household;
    one_owner = inv.sound.one_owner;
    owned = inv.sound.owned;
    owners_stay = inv.sound.owners_stay;
    distinct = inv.sound.distinct;
    member_known = inv.sound.member_known;
    household_known = inv.sound.household_known;
    households_known = inv.sound.households_known;
    invites_known = known;
  };
}

mint_invite-Inv :
    (hash : String → String) (s : Store) (inv : Inv s) (now user h : ℕ) (role : Option Role)
    (token : String)
    → h < s.next_household_id
    → Inv (mint_invite hash now user h role token s).1
unfolding mint_invite create_invite_row fail
mint_invite-Inv hash s inv now user h none token k = inv
mint_invite-Inv hash s inv now user h (some role) token k =
    elim (Bool-cases (any (λ x. str_eq x.token_hash (hash token)) s.invites)) [
      | inl e ↦ rw e inv
      | inr e ↦
          rw e (with_invites s inv _ _ (All-append _ s.invites _ inv.sound.invites_known (k, tt)))
    ]

pub create_invite-Inv :
    ⦃strings : Strings⦄ (hash : String → String) (s : Store) (inv : Inv s) (now user h : ℕ)
    (role token : String)
    → Inv (create_invite hash now user h role token s).1
unfolding create_invite
create_invite-Inv hash s inv now user h role token = after_owner Inv s user h _ inv (λ mem q _.
    after_read Inv s _ _ inv (λ _ _. after_guard Inv s _ _ _ inv (λ _.
      mint_invite-Inv hash s inv now user h _ token
        (known mem (get_active-row s inv h user mem q)))))
  where
    known :
        (m : HouseholdMember)
        → In m s.members × (((m.household_id == h) && (m.user_id == user) && is_active m) ≡ true)
        → h < s.next_household_id
    known m (i, e) = ground (arith, e, All-In _ m s.members inv.sound.household_known i)

mark_accepted-Inv :
    (s : Store) (inv : Inv s) (id user now : ℕ) → Inv (mark_accepted id user now s).1
unfolding mark_accepted
mark_accepted-Inv s inv id user now =
    elim (Bool-cases (any (λ i. (i.id == id) && not (is_some i.accepted_at)) s.invites)) [
      | inl e ↦ rw e (
          with_invites s inv _ _ (
            All-update (λ i. i.household_id < s.next_household_id) _
              (λ (i : HouseholdInvite). record i {
                accepted_at = some now;
                accepted_by = some user;
              })
              s.invites (λ _ _ q. q) inv.sound.invites_known))
      | inr e ↦ rw e inv
    ]

finish-Inv :
    (s : Store) (inv : Inv s) (user h : ℕ) (m : HouseholdMember) (resumed : Bool)
    → Inv (finish user h m resumed s).1
unfolding finish return
finish-Inv s inv user h m resumed =
    after_read Inv s _ _ inv
      (λ _ _. after_step Inv s _ _ (update_last_scope-Inv s inv user) (λ _ _ i. i))

module _ (s : Store) (inv : Inv s) (now user : ℕ) (i : HouseholdInvite)
    (known : i.household_id < s.next_household_id) where
  accept_again-Inv : Inv (accept_again user i s).1
  unfolding accept_again
  accept_again-Inv = elim (Bool-cases (holds i.accepted_by user)) [
    | inl e ↦
        rw e (
          resumed (try_resume user i.household_id s) (try_resume-Inv s inv now user i.household_id))
    | inr e ↦ rw e inv
  ]
    where
      resumed :
          (r : Result HouseholdError HouseholdMember × Store)
          → Inv r.1
          → Inv (resume_or_refuse user i.household_id r).1
      resumed (ok m, s') h = finish-Inv s' h user i.household_id m true
      resumed (err x, s') h = h

  join-Inv : Inv (join now user i s).1
  unfolding join
  join-Inv = after_free Inv s user _ inv (λ free.
      after_call Inv s _ _ (create_member-Inv s inv i.household_id user i.role now known free)
        (λ m s1 _ inv1.
          after_step Inv s1 _ _ (mark_accepted-Inv s1 inv1 i.id user now)
            (λ s2 _ inv2. finish-Inv s2 inv2 user i.household_id m false)))

-- Looking for a membership to resume leaves the numbers of the households.
try_resume-next :
    (s : Store) (user h : ℕ) → (try_resume user h s).1.next_household_id ≡ s.next_household_id
unfolding try_resume return
try_resume-next s user h = after_read Same s _ _ refl (λ m _. after_guard Same s _ _ _ refl (λ _.
    elim (Bool-cases (not (is_some m.left_at))) [
      | inl a ↦ rw a refl
      | inr a ↦ rw a (after_step Same s _ _ (cleared m.id) (λ _ _ q. q))
    ]))
  where
    Same : Store → Type 0
    Same x = x.next_household_id ≡ s.next_household_id

    cleared : (id : ℕ) → Same (clear_left id s).1
    cleared id = elim (Bool-cases (any (λ m. (m.id == id) && unpurged m) s.members)) [
      | inl e ↦ rw e refl
      | inr e ↦ rw e refl
    ]

accept_first-Inv :
    (s : Store) (inv : Inv s) (now user : ℕ) (i : HouseholdInvite)
    → i.household_id < s.next_household_id
    → Inv (accept_first now user i s).1
unfolding accept_first
accept_first-Inv s inv now user i known =
    tried (try_resume user i.household_id s) (try_resume-Inv s inv now user i.household_id)
      (subst (λ n. i.household_id < n) (sym (try_resume-next s user i.household_id)) known)
  where
    tried :
        (r : Result HouseholdError HouseholdMember × Store)
        → Inv r.1
        → i.household_id < r.1.next_household_id
        → Inv (resume_or_join now user i r).1
    tried (ok m, s') h k =
        after_step Inv s' _ _ (mark_accepted-Inv s' h i.id user now)
          (λ s2 _ inv2. finish-Inv s2 inv2 user i.household_id m true)
    tried (err not_found, s') h k = join-Inv s' h now user i k
    tried (err x, s') h k = h

-- The invite of a token is one of the table, and the tables are as before.
find_invite-known :
    (hash : String → String) (now : ℕ) (token : String) (s : Store) (inv : Inv s)
    → let (r, s') = find_invite hash now token s in
      Inv s' × ((i : HouseholdInvite) → r ≡ ok i → i.household_id < s'.next_household_id)
unfolding find_invite ◌>>◌ ◌>>=◌ fail_if read return get_by_token_hash
find_invite-known hash now token s inv = elim (Bool-cases (str_eq token "")) [
  | inl a ↦ rw a (inv, λ i q. cc)
  | inr a ↦ rw a (found (or_error invite_not_found (get_by_token_hash (hash token) s)) refl)
]
  where
    chosen :
        (x i : HouseholdInvite)
        → In x s.invites
        → ◌≡◌ {A = Result HouseholdError HouseholdInvite} (ok x) (ok i)
        → i.household_id < s.next_household_id
    chosen x i m q = ground (arith, q, All-In _ x s.invites inv.sound.invites_known m)

    found :
        (r : Result HouseholdError HouseholdInvite)
        → or_error invite_not_found (get_by_token_hash (hash token) s) ≡ r
        → let (r, s') =
            (continue_with
              (r, s)
              (λ i. fail_if (not (ltb now i.expires_at)) invite_expired >> return i)) in
          Inv s' × ((i : HouseholdInvite) → r ≡ ok i → i.household_id < s'.next_household_id)
    found (err x) e = (inv, λ i q. cc)
    found (ok x) e = elim (Bool-cases (not (ltb now x.expires_at))) [
      | inl b ↦ rw b (inv, λ i q. cc)
      | inr b ↦ rw b (inv, λ i q. chosen x i (first-In _ s.invites x (or_error-ok _ _ _ e)).0 q)
    ]

pub accept_invite-Inv :
    (hash : String → String) (s : Store) (inv : Inv s) (now user : ℕ) (token : String)
    → Inv (accept_invite hash now user token s).1
unfolding accept_invite
accept_invite-Inv hash s inv now user token =
    let (inv', known) = find_invite-known hash now token s inv in
    after_call Inv s _ _ inv' (λ i s' e h. elim (Bool-cases (is_some i.accepted_at)) [
      | inl a ↦ rw a (
          accept_again-Inv s' h now user i (
            subst (λ (x : Store). i.household_id < x.next_household_id) (λ j. (e j).1)
              (known i (λ j. (e j).0))))
      | inr a ↦ rw a (
          accept_first-Inv s' h now user i (
            subst (λ (x : Store). i.household_id < x.next_household_id) (λ j. (e j).1)
              (known i (λ j. (e j).0))))
    ])
