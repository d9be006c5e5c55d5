-- ===== src/Households/Purge/Sealing.antt =====
-- The purge keeps the tables sound: no owner is sealed.
use mathlib.Core.Bool.{false≢true}
use offbook.Common.{
  ℕ, ◌≤◌, ◌<◌, ◌≡◌, ◌∙◌, refl, sym, subst, inl, inr, Bool, true, false, ◌&&◌, none, some, List, [],
  ◌∷◌, map, arith, leb, ◌==◌, if◌then◌else◌, any, select, weigh, All, All-In, All-map, All-of_In,
  In, In-select, Bool-cases,
}
use offbook.Common.Sort.{sort, In-sort}
use offbook.Households.{Household, HouseholdMember, Store, unpurged, is_owner, update_where}
use offbook.Households.Tables.{is_live, owns}
use offbook.Households.Sound.{IsSound, Inv, owners, counts, weigh-update, All-update, distinct-eq}
use offbook.Households.Purge.{
  PurgeResult, ExpiredRow, elapsed, is_expired, expired_row, expired, purge_member, purge_all,
  run_purge,
}

-- No row of the number is an owner's.
abbrev NoOwner : ℕ → List HouseholdMember → Type 0
NoOwner id rows = All (λ m. m.id ≡ id → is_owner m.role ≡ false) rows

weigh-update_le :
    (w : HouseholdMember → ℕ) (p : HouseholdMember → Bool) (f : HouseholdMember → HouseholdMember)
    (rows : List HouseholdMember)
    → ((m : HouseholdMember) → w (f m) ≤ w m)
    → weigh w (update_where p f rows) ≤ weigh w rows
weigh-update_le w p f [] h = omega arith
weigh-update_le w p f (x ∷ rows) h = elim (Bool-cases (p x)) [
  | inl e ↦ rw e (omega (arith, h x, weigh-update_le w p f rows h))
  | inr e ↦ rw e (omega (arith, weigh-update_le w p f rows h))
]

purge_member-Inv :
    (now : ℕ) (e : ExpiredRow) (res : PurgeResult) (s : Store)
    → Inv s
    → NoOwner e.member_id s.members
    → Inv (purge_member now e (res, s)).1
unfolding purge_member
purge_member-Inv now e res s inv none_owns = elim (Bool-cases (any sealing s.members)) [
  | inl a ↦ rw a (record { sound = sealed })
  | inr a ↦ rw a (record { sound = inv.sound })
]
  where
    sealing : HouseholdMember → Bool
    sealing m = (m.id == e.member_id) && unpurged m

    seal : HouseholdMember → HouseholdMember
    seal m = record m { purged_at = some now }

    fewer :
        (u : ℕ) (m : HouseholdMember)
        → (if (m.user_id == u) && false then 1 else 0)
          ≤ (if (m.user_id == u) && unpurged m then 1 else 0)
    fewer u m = ground arith

    same :
        (k : ℕ) (m : HouseholdMember)
        → (m.id ≡ e.member_id → is_owner m.role ≡ false)
        → sealing m ≡ true
        → counts k (seal m) ≡ counts k m
    same k m h t = ground (arith, h)

    owners-same : (k : ℕ) → owners k (update_where sealing seal s.members) ≡ owners k s.members
    owners-same k =
        weigh-update (λ m. if owns k m then 1 else 0) sealing seal s.members
          (All-map _ _ (λ m h t. same k m h t) s.members none_owns)

    IsHere : HouseholdMember → Type 0
    IsHere m = is_owner m.role ≡ true → unpurged m ≡ true → m.left_at ≡ none

    sealed :
        IsSound
          (update_where sealing seal s.members)
          s.households
          s.invites
          s.next_household_id
          s.next_member_id
    sealed = record {
      one_household = λ u. omega (
        arith,
        inv.sound.one_household u,
        weigh-update_le (λ m. if (m.user_id == u) && unpurged m then 1 else 0) sealing seal
            s.members (fewer u),
      );
      one_owner = λ k. subst (λ n. n ≤ 1) (sym (owners-same k)) (inv.sound.one_owner k);
      owned = All-map _ _ (λ x q. owners-same x.id ∙ q) s.households inv.sound.owned;
      owners_stay =
          All-update IsHere sealing seal s.members (λ m _ _ _ u. absurd (false≢true u))
            inv.sound.owners_stay;
      distinct = λ k.
          subst (λ n. n ≤ 1)
            (sym (
              weigh-update (λ m. if m.id == k then 1 else 0) sealing seal s.members
                (All-of_In _ s.members (λ m _ _. refl))))
            (inv.sound.distinct k);
      member_known =
          All-update (λ m. m.id < s.next_member_id) sealing seal s.members (λ _ _ q. q)
            inv.sound.member_known;
      household_known =
          All-update (λ m. m.household_id < s.next_household_id) sealing seal s.members (λ _ _ q. q)
            inv.sound.household_known;
      households_known = inv.sound.households_known;
      invites_known = inv.sound.invites_known;
    }

-- Sealing one member gives no number an owner.
purge_member-NoOwner :
    (now : ℕ) (e : ExpiredRow) (res : PurgeResult) (s : Store) (id : ℕ)
    → NoOwner id s.members
    → NoOwner id (purge_member now e (res, s)).1.members
unfolding purge_member
purge_member-NoOwner now e res s id h =
    elim (Bool-cases (any (λ m. (m.id == e.member_id) && unpurged m) s.members)) [
      | inl a ↦ rw a (
          All-update (λ m. m.id ≡ id → is_owner m.role ≡ false) _
            (λ (m : HouseholdMember). record m { purged_at = some now }) s.members (λ _ _ q. q) h)
      | inr a ↦ rw a h
    ]

purge_all-Inv :
    (now : ℕ) (rows : List ExpiredRow) (r : PurgeResult × Store)
    → Inv r.1
    → All (λ e. NoOwner e.member_id r.1.members) rows
    → Inv (purge_all now rows r).1
unfolding purge_all
purge_all-Inv now [] r inv h = inv
purge_all-Inv now (e ∷ rows) (res, s) inv (h, hs) =
    purge_all-Inv now rows (purge_member now e (res, s)) (purge_member-Inv now e res s inv h)
      (All-map _ _ (λ x q. purge_member-NoOwner now e res s x.member_id q) rows hs)

All-mapped :
    {A B : Type 0} (P : B → Type 0) (f : A → B) (xs : List A)
    → All (λ a. P (f a)) xs
    → All P (map f xs)
All-mapped P f [] h = tt
All-mapped P f (x ∷ xs) (q, qs) = (q, All-mapped P f xs qs)

present :
    (now : ℕ) (households : List Household) (m : HouseholdMember)
    → m.left_at ≡ none
    → any
        (λ h. (h.id == m.household_id) && is_live h && elapsed now h.grace_period_days m.left_at)
        households
      ≡ false
present now [] m e = refl
present now (h ∷ rest) m e = ground (arith, e, present now rest m e)

expired_left :
    (now : ℕ) (households : List Household) (m : HouseholdMember)
    → is_expired now households m ≡ true
    → (is_owner m.role ≡ true → unpurged m ≡ true → m.left_at ≡ none)
    → is_owner m.role ≡ false
unfolding is_expired
expired_left now households m t stays = elim (Bool-cases (is_owner m.role)) [
  | inl o ↦ absurd (false≢true (sym (present now households m (stays o (live t))) ∙ due t))
  | inr o ↦ o
]
  where
    live : is_expired now households m ≡ true → unpurged m ≡ true
    live t = ground arith

    due :
        is_expired now households m ≡ true
        → any
            (λ h.
              (h.id == m.household_id) && is_live h && elapsed now h.grace_period_days m.left_at)
            households
          ≡ true
    due t = ground arith

-- A member whose grace has elapsed has left, and owners do not leave.
expired-NoOwner :
    (now : ℕ) (s : Store) (inv : Inv s) → All (λ e. NoOwner e.member_id s.members) (expired now s)
unfolding expired
expired-NoOwner now s inv =
    All-mapped _ expired_row _ (All-of_In _ _ (λ m i. not_owned m (here m i)))
  where
    here :
        (m : HouseholdMember)
        → In m (sort (λ x y. leb x.id y.id) (select (is_expired now s.households) s.members))
        → In m s.members × (is_expired now s.households m ≡ true)
    here m i = In-select (is_expired now s.households) m s.members (In-sort _ m _ i)

    not_owned :
        (m : HouseholdMember)
        → In m s.members × (is_expired now s.households m ≡ true)
        → NoOwner m.id s.members
    not_owned m (i, t) = All-of_In _ s.members (λ y j e.
        subst (λ (x : HouseholdMember). is_owner x.role ≡ false)
          (sym (distinct-eq s.members y m inv.sound.distinct j i e))
          (expired_left now s.households m t (All-In _ m s.members inv.sound.owners_stay i)))

pub run_purge-Inv : (s : Store) (inv : Inv s) (now : ℕ) → Inv (run_purge now s).1
unfolding run_purge
run_purge-Inv s inv now = purge_all-Inv now (expired now s) _ inv (expired-NoOwner now s inv)
