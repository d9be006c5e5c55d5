-- ===== src/Households/Updates.antt =====
-- The updates of the members table that keep it sound.
use offbook.Common.{
  ℕ, suc, ◌≤◌, ◌<◌, ◌≡◌, ◌∙◌, refl, sym, subst, inl, inr, Bool, true, false, ◌&&◌, Option, none,
  List, [], ◌∷◌, ◌++◌, arith, ◌==◌, if◌then◌else◌, weigh, All, All-of_In, All-map, All-append,
  Bool-cases,
}
use offbook.Households.{
  Role, Household, HouseholdMember, HouseholdInvite, update_where, is_owner, unpurged,
}
use offbook.Households.Tables.{owns}
use offbook.Households.Sound.{
  IsSound, memberships, owners, numbered, weigh-update, weigh-append, All-update,
}

-- Counts when one row comes behind the others.
count_snoc :
    (t : HouseholdMember → Bool) (rows : List HouseholdMember) (m : HouseholdMember)
    → weigh (λ x. if t x then 1 else 0) rows ≤ 1
    → (t m ≡ true → weigh (λ x. if t x then 1 else 0) rows ≡ 0)
    → weigh (λ x. if t x then 1 else 0) (rows ++ (m ∷ [])) ≤ 1
count_snoc t rows m a b = rw (weigh-append (λ x. if t x then 1 else 0) rows) (ground (arith, a, b))

count_other :
    (t : HouseholdMember → Bool) (rows : List HouseholdMember) (m : HouseholdMember)
    → t m ≡ false
    → weigh (λ x. if t x then 1 else 0) (rows ++ (m ∷ [])) ≡ weigh (λ x. if t x then 1 else 0) rows
count_other t rows m f = rw (weigh-append (λ x. if t x then 1 else 0) rows, f) (omega arith)

unnumbered : (n : ℕ) (rows : List HouseholdMember) → All (λ m. m.id < n) rows → numbered n rows ≡ 0
unnumbered n [] h = refl
unnumbered n (x ∷ rows) (q, qs) = ground (arith, q, unnumbered n rows qs)

module _ (members : List HouseholdMember) (households : List Household)
    (invites : List HouseholdInvite) (nh nm : ℕ)
    (sound : IsSound members households invites nh nm) where
  -- Setting `left_at` of the rows that pass, none of which is an owner unless it is cleared.
  pub update_left-IsSound :
      (p : HouseholdMember → Bool) (left : Option ℕ)
      → All (λ m. p m ≡ true → is_owner m.role ≡ true → left ≡ none) members
      → IsSound (update_where p (λ m. record m { left_at = left }) members) households invites nh nm
  update_left-IsSound p left h = record {
    one_household = λ u.
        subst (λ n. n ≤ 1)
          (sym (kept (λ m. if (m.user_id == u) && unpurged m then 1 else 0) (λ m. refl)))
          (sound.one_household u);
    one_owner = λ k. subst (λ n. n ≤ 1) (sym (owned k)) (sound.one_owner k);
    owned = All-map _ _ (λ x e. owned x.id ∙ e) households sound.owned;
    owners_stay = stay members h sound.owners_stay;
    distinct = λ k.
        subst (λ n. n ≤ 1) (sym (kept (λ m. if m.id == k then 1 else 0) (λ m. refl)))
          (sound.distinct k);
    member_known = All-update _ p _ members (λ m _ q. q) sound.member_known;
    household_known = All-update _ p _ members (λ m _ q. q) sound.household_known;
    households_known = sound.households_known;
    invites_known = sound.invites_known;
  }
    where
      f : HouseholdMember → HouseholdMember
      f m = record m { left_at = left }

      kept :
          (w : HouseholdMember → ℕ)
          → ((m : HouseholdMember) → w (f m) ≡ w m)
          → weigh w (update_where p f members) ≡ weigh w members
      kept w e = weigh-update w p f members (All-of_In _ members (λ m _ _. e m))

      owned : (k : ℕ) → owners k (update_where p f members) ≡ owners k members
      owned k = kept (λ m. if owns k m then 1 else 0) (λ m. refl)

      stay :
          (rows : List HouseholdMember)
          → All (λ m. p m ≡ true → is_owner m.role ≡ true → left ≡ none) rows
          → All (λ m. is_owner m.role ≡ true → unpurged m ≡ true → m.left_at ≡ none) rows
          → All
              (λ m. is_owner m.role ≡ true → unpurged m ≡ true → m.left_at ≡ none)
              (update_where p f rows)
      stay [] a b = tt
      stay (x ∷ rows) (a, as') (b, bs) = elim (Bool-cases (p x)) [
        | inl e ↦ rw e ((λ o _. a e o), stay rows as' bs)
        | inr e ↦ rw e (b, stay rows as' bs)
      ]

  -- A member of a household for a user who is in none; an owner only where there is none.
  pub create_member-IsSound :
      (m : HouseholdMember)
      → m.id ≡ nm
      → m.household_id < nh
      → m.left_at ≡ none
      → memberships m.user_id members ≡ 0
      → (is_owner m.role ≡ true → owners m.household_id members ≡ 0)
      → IsSound (members ++ (m ∷ [])) households invites nh (suc nm)
  create_member-IsSound m i k l free o = record {
    one_household = λ u.
        count_snoc (λ x. (x.user_id == u) && unpurged x) members m (sound.one_household u)
          (λ t. subst (λ v. memberships v members ≡ 0) (same_user u t) free);
    one_owner = λ h. count_snoc (owns h) members m (sound.one_owner h) (λ t. unowned h t);
    owned = All-map _ _ (λ h e. still h.id e) households sound.owned;
    owners_stay = All-append _ members _ sound.owners_stay ((λ _ _. l), tt);
    distinct = λ n.
        count_snoc (λ x. x.id == n) members m (sound.distinct n)
          (λ t.
            subst (λ v. numbered v members ≡ 0) (same_id n t)
              (unnumbered nm members sound.member_known));
    member_known =
        All-append _ members _ (All-map _ _ (λ x q. omega arith) members sound.member_known)
          (omega arith, tt);
    household_known = All-append _ members _ sound.household_known (k, tt);
    households_known = sound.households_known;
    invites_known = sound.invites_known;
  }
    where
      same_user : (u : ℕ) → ((m.user_id == u) && unpurged m) ≡ true → m.user_id ≡ u
      same_user u t = ground arith

      same_id : (n : ℕ) → (m.id == n) ≡ true → nm ≡ n
      same_id n t = ground arith

      same_household : (h : ℕ) → owns h m ≡ true → m.household_id ≡ h
      same_household h t = ground arith

      owning : (h : ℕ) → owns h m ≡ true → is_owner m.role ≡ true
      owning h t = ground arith

      unowned : (h : ℕ) → owns h m ≡ true → owners h members ≡ 0
      unowned h t = subst (λ v. owners v members ≡ 0) (same_household h t) (o (owning h t))

      still : (h : ℕ) → owners h members ≡ 1 → owners h (members ++ (m ∷ [])) ≡ 1
      still h e = elim (Bool-cases (owns h m)) [
        | inl t ↦ absurd (omega (arith, unowned h t))
        | inr f ↦ count_other (owns h) members m f ∙ e
      ]

  -- Another role for the rows that pass, none of which changes from or to an owner.
  pub update_role-IsSound :
      (p : HouseholdMember → Bool) (role : Role)
      → All (λ m. p m ≡ true → is_owner role ≡ is_owner m.role) members
      → IsSound (update_where p (λ m. record m { role = role }) members) households invites nh nm
  update_role-IsSound p role h = record {
    one_household = λ u.
        subst (λ n. n ≤ 1)
          (sym (kept (λ m. if (m.user_id == u) && unpurged m then 1 else 0) (λ m. refl)))
          (sound.one_household u);
    one_owner = λ k. subst (λ n. n ≤ 1) (sym (owned k)) (sound.one_owner k);
    owned = All-map _ _ (λ x e. owned x.id ∙ e) households sound.owned;
    owners_stay = stay members h sound.owners_stay;
    distinct = λ k.
        subst (λ n. n ≤ 1) (sym (kept (λ m. if m.id == k then 1 else 0) (λ m. refl)))
          (sound.distinct k);
    member_known = All-update _ p _ members (λ m _ q. q) sound.member_known;
    household_known = All-update _ p _ members (λ m _ q. q) sound.household_known;
    households_known = sound.households_known;
    invites_known = sound.invites_known;
  }
    where
      f : HouseholdMember → HouseholdMember
      f m = record m { role = role }

      kept :
          (w : HouseholdMember → ℕ)
          → ((m : HouseholdMember) → w (f m) ≡ w m)
          → weigh w (update_where p f members) ≡ weigh w members
      kept w e = weigh-update w p f members (All-of_In _ members (λ m _ _. e m))

      owned : (k : ℕ) → owners k (update_where p f members) ≡ owners k members
      owned k =
          weigh-update (λ m. if owns k m then 1 else 0) p f members
            (All-map _ _
              (λ m q t. (λ i. if (m.household_id == k) && q t i && unpurged m then 1 else 0))
              members h)

      stay :
          (rows : List HouseholdMember)
          → All (λ m. p m ≡ true → is_owner role ≡ is_owner m.role) rows
          → All (λ m. is_owner m.role ≡ true → unpurged m ≡ true → m.left_at ≡ none) rows
          → All
              (λ m. is_owner m.role ≡ true → unpurged m ≡ true → m.left_at ≡ none)
              (update_where p f rows)
      stay [] a b = tt
      stay (x ∷ rows) (a, as') (b, bs) = elim (Bool-cases (p x)) [
        | inl e ↦ rw e ((λ o. b (sym (a e) ∙ o)), stay rows as' bs)
        | inr e ↦ rw e (b, stay rows as' bs)
      ]
