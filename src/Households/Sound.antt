-- ===== src/Households/Sound.antt =====
-- What every state of the household tables meets, and which updates keep it.
use offbook.Common.{
  ℕ, ◌+◌, ◌≤◌, ◌<◌, ◌≡◌, ◌∙◌, refl, sym, ap, inl, inr, Bool, true, ◌&&◌, none, List, [], ◌∷◌, ◌++◌,
  arith, ◌==◌, ==_refl, if◌then◌else◌, weigh, All, In, Bool-cases, ok,
}
use offbook.Households.{
  Household, HouseholdMember, HouseholdInvite, Store, first, update_where, is_owner, unpurged,
}
use offbook.Households.Tables.{owns}

-- The memberships of a user and the owners of a household that are not purged, and the rows of an id.
abbrev pub memberships : ℕ → List HouseholdMember → ℕ
memberships user rows = weigh (λ m. if (m.user_id == user) && unpurged m then 1 else 0) rows

abbrev pub owners : ℕ → List HouseholdMember → ℕ
owners household_id rows = weigh (λ m. if owns household_id m then 1 else 0) rows

abbrev pub counts : ℕ → HouseholdMember → ℕ
counts household_id m = if owns household_id m then 1 else 0

abbrev pub numbered : ℕ → List HouseholdMember → ℕ
numbered id rows = weigh (λ m. if m.id == id then 1 else 0) rows

-- No user is in two households, every household has exactly one owner, who has not left it, and
-- numbers are fresh.
pub record IsSound (members : List HouseholdMember) (households : List Household)
    (invites : List HouseholdInvite) (next_household next_member : ℕ) : Type 0 where
  pub one_household : (user : ℕ) → memberships user members ≤ 1
  pub one_owner : (household_id : ℕ) → owners household_id members ≤ 1
  pub owned : All (λ h. owners h.id members ≡ 1) households
  pub owners_stay : All (λ m. is_owner m.role ≡ true → unpurged m ≡ true → m.left_at ≡ none) members
  pub distinct : (id : ℕ) → numbered id members ≤ 1
  pub member_known : All (λ m. m.id < next_member) members
  pub household_known : All (λ m. m.household_id < next_household) members
  pub households_known : All (λ h. h.id < next_household) households
  pub invites_known : All (λ i. i.household_id < next_household) invites

pub record Inv (s : Store) : Type 0 where
  pub sound : IsSound s.members s.households s.invites s.next_household_id s.next_member_id

module _ {A : Type 0} where
  pub first-In : (p : A → Bool) (xs : List A) (a : A) → first p xs ≡ ok a → In a xs × (p a ≡ true)
  first-In p [] a = λ h. ground arith
  first-In p (x ∷ xs) a = elim (Bool-cases (p x)) [
    | inl e ↦ rw e (λ h. ground (arith, e, h))
    | inr e ↦ rw e (λ h. let (m, q) = first-In p xs a h in (inr m, q))
  ]

  -- An update that keeps the weight of the rows it changes.
  pub weigh-update :
      (w : A → ℕ) (p : A → Bool) (f : A → A) (xs : List A)
      → All (λ a. p a ≡ true → w (f a) ≡ w a) xs
      → weigh w (update_where p f xs) ≡ weigh w xs
  weigh-update w p f [] h = refl
  weigh-update w p f (x ∷ xs) (h, hs) = elim (Bool-cases (p x)) [
    | inl e ↦ rw (e, h e, weigh-update w p f xs hs) refl
    | inr e ↦ rw (e, weigh-update w p f xs hs) refl
  ]

  pub weigh-append : (w : A → ℕ) (xs ys : List A) → weigh w (xs ++ ys) ≡ weigh w xs + weigh w ys
  weigh-append w [] ys = omega arith
  weigh-append w (x ∷ xs) ys = omega (arith, weigh-append w xs ys)

  pub In-weigh : (w : A → ℕ) (xs : List A) (a : A) → In a xs → w a ≤ weigh w xs
  In-weigh w [] a m = absurd m
  In-weigh w (x ∷ xs) a (inl e) = rw e (omega arith)
  In-weigh w (x ∷ xs) a (inr m) = omega (arith, In-weigh w xs a m)

  pub All-update {κ} :
      (P : A → Type κ) (p : A → Bool) (f : A → A) (xs : List A)
      → ((a : A) → p a ≡ true → P a → P (f a))
      → All P xs
      → All P (update_where p f xs)
  All-update P p f [] h a = tt
  All-update P p f (x ∷ xs) h (q, qs) = elim (Bool-cases (p x)) [
    | inl e ↦ rw e (h x e q, All-update P p f xs h qs)
    | inr e ↦ rw e (q, All-update P p f xs h qs)
  ]

numbered_twice :
    (z y : HouseholdMember) (rows : List HouseholdMember)
    → z.id ≡ y.id
    → In y rows
    → numbered y.id (z ∷ rows) ≤ 1
    → ⊥
numbered_twice z y rows e m h =
    ground (arith, e, ==_refl y.id, In-weigh (λ m. if m.id == y.id then 1 else 0) rows y m)

-- Rows of one number are one row.
pub distinct-eq :
    (rows : List HouseholdMember) (x y : HouseholdMember)
    → ((id : ℕ) → numbered id rows ≤ 1)
    → In x rows
    → In y rows
    → x.id ≡ y.id
    → x ≡ y
distinct-eq [] x y d a b e = absurd a
distinct-eq (z ∷ rows) x y d (inl a) (inl b) e = a ∙ sym b
distinct-eq (z ∷ rows) x y d (inl a) (inr b) e =
    absurd (numbered_twice z y rows (ap (λ (m : HouseholdMember). m.id) (sym a) ∙ e) b (d y.id))
distinct-eq (z ∷ rows) x y d (inr a) (inl b) e =
    absurd (numbered_twice z x rows (ap (λ (m : HouseholdMember). m.id) (sym b) ∙ sym e) a (d x.id))
distinct-eq (z ∷ rows) x y d (inr a) (inr b) e =
    distinct-eq rows x y (λ id. omega (arith, d id)) a b e
