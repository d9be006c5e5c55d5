-- ===== src/Households/Service/Transferring.antt =====
-- A transfer of ownership keeps the tables sound: no household gains or loses an owner.
use mathlib.Core.Bool.{false≢true}
use offbook.Common.{
  ℕ, ◌+◌, ◌≤◌, ◌<◌, ◌≡◌, ◌≢◌, ◌∙◌, refl, sym, ap, subst, inl, inr, ◌⊎◌, Bool, true, false, not,
  ◌&&◌, none, List, arith, ◌==◌, if◌then◌else◌, any, weigh, All, All-map, All-of_In, In, Bool-cases,
  Result, ok,
}
use offbook.Households.{
  Role, owner, contributor, Household, HouseholdMember, HouseholdInvite, Store, HouseholdError,
  forbidden, member_not_found, is_owner, is_active, unpurged, update_where, transaction, ◌>>◌,
}
use offbook.Households.Tables.{is_active_id, owns, update_role, get_active}
use offbook.Households.Calls.{after_guard, after_read}
use offbook.Households.Counting.{weigh-one, In-update}
use offbook.Households.Sound.{
  IsSound, Inv, owners, counts, numbered, weigh-update, In-weigh, All-update, distinct-eq,
}
use offbook.Households.Writes.{get_active-row, or_error-ok}
use offbook.Households.Service.{transfer_owner}
use offbook.Households.Service.Keeps.{after_owner}

abbrev pub as_contributor : HouseholdMember → HouseholdMember
as_contributor m = record m { role = contributor }

abbrev pub as_owner : HouseholdMember → HouseholdMember
as_owner m = record m { role = owner }

-- The members once `c` is demoted, and once `t` is promoted after it.
abbrev pub demote : HouseholdMember → List HouseholdMember → List HouseholdMember
demote c = update_where (is_active_id c.id) as_contributor

abbrev pub promote : HouseholdMember → List HouseholdMember → List HouseholdMember
promote t = update_where (is_active_id t.id) as_owner

module _ (members : List HouseholdMember) (households : List Household)
    (invites : List HouseholdInvite) (nh nm : ℕ) (sound : IsSound members households invites nh nm)
    (h user : ℕ) (c t : HouseholdMember) (in_c : In c members) (in_t : In t members)
    (at_c : ((c.household_id == h) && (c.user_id == user) && is_active c) ≡ true)
    (at_t : ((t.household_id == h) && is_active t) ≡ true) (owns_c : is_owner c.role ≡ true)
    (users_differ : t.user_id ≢ user) where
  abbrev demoted : List HouseholdMember
  demoted = demote c members

  abbrev promoted : List HouseholdMember
  promoted = promote t demoted

  ids_differ : t.id ≢ c.id
  ids_differ e = users_differ (
      ap (λ (m : HouseholdMember). m.user_id) (distinct-eq members t c sound.distinct in_t in_c e)
      ∙ user_c)
    where
      user_c : c.user_id ≡ user
      user_c = ground arith

  kept :
      (w : HouseholdMember → ℕ)
      → ((m : HouseholdMember) (r : Role) → w (record m { role = r }) ≡ w m)
      → weigh w promoted ≡ weigh w members
  kept w e =
      weigh-update w _ _ demoted (All-of_In _ demoted (λ m _ _. e m owner))
      ∙ weigh-update w _ _ members (All-of_In _ members (λ m _ _. e m contributor))

  In-demoted : In t demoted
  In-demoted = In-update _ c.id members t in_t (ground (arith, ids_differ))

  -- Demoting the owner leaves the household without one.
  owners-demoted : (k : ℕ) → owners k demoted + counts k c ≡ owners k members
  owners-demoted k =
      weigh-one as_contributor c.id (λ m. if owns k m then 1 else 0) members c (sound.distinct c.id)
        in_c active_c
      ∙ omega (arith, gone)
    where
      active_c : is_active_id c.id c ≡ true
      active_c = ground arith

      gone : counts k (as_contributor c) ≡ 0
      gone = ground arith

  pub none_left : owners h demoted ≡ 0
  none_left = omega (arith, owners-demoted h, sound.one_owner h, counted)
    where
      counted : counts h c ≡ 1
      counted = ground arith

  owners-promoted : (k : ℕ) → owners k promoted ≡ owners k members
  owners-promoted k = omega (arith, owners-demoted k, no_owner (Bool-cases (owns k t)), same, one)
    where
      active_t : is_active_id t.id t ≡ true
      active_t = ground arith

      in_h : t.household_id ≡ h
      in_h = ground arith

      numbered_demoted : numbered t.id demoted ≤ 1
      numbered_demoted =
          subst (λ n. n ≤ 1)
            (sym (
              weigh-update (λ m. if m.id == t.id then 1 else 0) _ as_contributor members
                (All-of_In _ members (λ m _ _. refl))))
            (sound.distinct t.id)

      one : owners k promoted + counts k t ≡ owners k demoted + counts k (as_owner t)
      one =
          weigh-one as_owner t.id (λ m. if owns k m then 1 else 0) demoted t numbered_demoted
            In-demoted active_t

      owner_t : owns k t ≡ true → owns h t ≡ true
      owner_t o = ground arith

      no_owner : (owns k t ≡ true) ⊎ (owns k t ≡ false) → counts k t ≡ 0
      no_owner (inl o) = absurd (
          ground (
            arith,
            none_left,
            owner_t o,
            In-weigh (λ m. if owns h m then 1 else 0) demoted t In-demoted,
          ))
      no_owner (inr o) = rw o refl

      same : counts k (as_owner t) ≡ counts k c
      same = ground arith

  pub promoted-IsSound : IsSound promoted households invites nh nm
  promoted-IsSound = record {
    one_household = λ u.
        subst (λ n. n ≤ 1)
          (sym (kept (λ m. if (m.user_id == u) && unpurged m then 1 else 0) (λ _ _. refl)))
          (sound.one_household u);
    one_owner = λ k. subst (λ n. n ≤ 1) (sym (owners-promoted k)) (sound.one_owner k);
    owned = All-map _ _ (λ x e. owners-promoted x.id ∙ e) households sound.owned;
    owners_stay =
        All-update IsHere (is_active_id t.id) as_owner demoted (λ m a _ _ _. stays m a)
          (All-update IsHere (is_active_id c.id) as_contributor members
            (λ m _ _ o. absurd (false≢true o)) sound.owners_stay);
    distinct = λ k.
        subst (λ n. n ≤ 1) (sym (kept (λ m. if m.id == k then 1 else 0) (λ _ _. refl)))
          (sound.distinct k);
    member_known = twice_known (λ m. m.id < nm) (λ _ _ q. q) sound.member_known;
    household_known = twice_known (λ m. m.household_id < nh) (λ _ _ q. q) sound.household_known;
    households_known = sound.households_known;
    invites_known = sound.invites_known;
  }
    where
      IsHere : HouseholdMember → Type 0
      IsHere m = is_owner m.role ≡ true → unpurged m ≡ true → m.left_at ≡ none

      twice_known :
          (P : HouseholdMember → Type 0)
          → ((m : HouseholdMember) (r : Role) → P m → P (record m { role = r }))
          → All P members
          → All P promoted
      twice_known P k a =
          All-update P (is_active_id t.id) as_owner demoted (λ m _ q. k m owner q)
            (All-update P (is_active_id c.id) as_contributor members (λ m _ q. k m contributor q) a)

      stays : (m : HouseholdMember) → is_active_id t.id m ≡ true → m.left_at ≡ none
      stays m a = ground arith

-- The tables after the transaction: both updates, or none.
transferred :
    (P : Store → Type 0) (c t : HouseholdMember) (s : Store)
    → P s
    → P (record s { members = promote t (demote c s.members) })
    → P
        (transaction
          (update_role c.id contributor forbidden >> update_role t.id owner member_not_found)
          s).1
unfolding transaction ◌>>◌ update_role
transferred P c t s before both = elim (Bool-cases (any (is_active_id c.id) s.members)) [
  | inl a ↦ rw a (elim (Bool-cases (any (is_active_id t.id) (demote c s.members))) [
    | inl b ↦ elim (Bool-cases (clash (demote c s.members))) [
      | inl k ↦ rw k before
      | inr k ↦ rw (k, b) both
    ]
    | inr b ↦ elim (Bool-cases (clash (demote c s.members))) [
      | inl k ↦ rw k before
      | inr k ↦ rw (k, b) before
    ]
  ])
  | inr a ↦ rw a before
]
  where
    clash : List HouseholdMember → Bool
    clash rows =
        any
          (λ m. is_active_id t.id m && any (λ x. owns m.household_id x && not (x.id == m.id)) rows)
          rows

pub transfer_owner-Inv :
    (s : Store) (inv : Inv s) (caller h target : ℕ) → Inv (transfer_owner caller h target s).1
unfolding transfer_owner
transfer_owner-Inv s inv caller h target = after_owner Inv s caller h _ inv (λ mem q o.
    after_guard Inv s _ _ _ inv (λ g. after_read Inv s _ _ inv (λ t qt.
      after_read Inv s _ _ inv (λ c qc. transferred Inv c t s inv (record {
        sound =
            promoted-IsSound s.members s.households s.invites _ _ inv.sound h caller c t
              (row c caller qc).0 (row t target (or_error-ok _ _ _ qt)).0 (row c caller qc).1
              (here t (row t target (or_error-ok _ _ _ qt)).1) (same mem c o (sym q ∙ qc))
              (other t g (row t target (or_error-ok _ _ _ qt)).1);
      })))))
  where
    row :
        (m : HouseholdMember) (user : ℕ)
        → get_active h user s ≡ ok m
        → In m s.members × (((m.household_id == h) && (m.user_id == user) && is_active m) ≡ true)
    row m user e = get_active-row s inv h user m e

    here :
        (m : HouseholdMember)
        → ((m.household_id == h) && (m.user_id == target) && is_active m) ≡ true
        → ((m.household_id == h) && is_active m) ≡ true
    here m e = ground arith

    other :
        (m : HouseholdMember)
        → (target == caller) ≡ false
        → ((m.household_id == h) && (m.user_id == target) && is_active m) ≡ true
        → m.user_id ≢ caller
    other m g e = ground arith

    same :
        (a b : HouseholdMember)
        → is_owner a.role ≡ true
        → ◌≡◌ {A = Result HouseholdError HouseholdMember} (ok a) (ok b)
        → is_owner b.role ≡ true
    same a b o e = ground (arith, o, e)
