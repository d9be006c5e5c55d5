-- ===== src/Households/Writes.antt =====
-- The writes of the members table, one call each, keep it sound.
use mathlib.Core.Bool.{false≢true}
use offbook.Common.{
  ℕ, ◌≤◌, ◌≡◌, ◌∙◌, refl, sym, ap, inl, inr, Bool, true, false, ◌&&◌, none, some, List, [], ◌∷◌,
  arith, leb, ◌==◌, any, length, select, All, All-of_In, All-map, In, Bool-cases, Result, ok, err,
}
use offbook.Households.{
  Role, HouseholdMember, Store, HouseholdError, update_where, is_owner, is_active, or_error,
}
use offbook.Households.Tables.{
  update_members, mark_left, clear_left, update_role, is_active_id, get_active, count_active_owners,
}
use offbook.Households.Sound.{Inv, IsSound, owners, first-In, distinct-eq}
use offbook.Households.Updates.{update_left-IsSound, update_role-IsSound}

pub update_members-Inv :
    (s : Store) (p : HouseholdMember → Bool) (f : HouseholdMember → HouseholdMember)
    (e : HouseholdError)
    → Inv s
    → IsSound
        (update_where p f s.members)
        s.households
        s.invites
        s.next_household_id
        s.next_member_id
    → Inv (update_members p f e s).1
update_members-Inv s p f e a b = elim (Bool-cases (any p s.members)) [
  | inl t ↦ rw t (record { sound = b })
  | inr t ↦ rw t a
]

pub or_error-ok :
    {A : Type 0} (e : HouseholdError) (r : Result HouseholdError A) (a : A)
    → or_error e r ≡ ok a
    → r ≡ ok a
or_error-ok e (ok x) a h = h
or_error-ok e (err x) a h = ground arith

module _ (s : Store) (inv : Inv s) where
  pub get_active-row :
      (h u : ℕ) (m : HouseholdMember)
      → get_active h u s ≡ ok m
      → In m s.members × ((m.household_id == h) && (m.user_id == u) && is_active m ≡ true)
  unfolding get_active
  get_active-row h u m e = first-In _ s.members m e

  -- Rows of the number of a member that does not own.
  same_role :
      (mem : HouseholdMember) (p : HouseholdMember → Bool)
      → ((m : HouseholdMember) → p m ≡ true → m.id ≡ mem.id)
      → In mem s.members
      → All (λ m. p m ≡ true → is_owner m.role ≡ is_owner mem.role) s.members
  same_role mem p numbered_by i = All-of_In _ s.members (λ m j t.
      ap (λ (x : HouseholdMember). is_owner x.role)
        (distinct-eq s.members m mem inv.sound.distinct j i (numbered_by m t)))

  active_id : (id : ℕ) (m : HouseholdMember) → is_active_id id m ≡ true → m.id ≡ id
  active_id id m t = ground arith

  pub mark_left-Inv :
      (mem : HouseholdMember) (now : ℕ)
      → In mem s.members
      → is_owner mem.role ≡ false
      → Inv (mark_left mem.id now s).1
  mark_left-Inv mem now i o = update_members-Inv s _ _ _ inv (
      update_left-IsSound s.members s.households s.invites _ _ inv.sound (is_active_id mem.id)
        (some now)
        (All-map _ _ (λ m q t w. absurd (false≢true (sym o ∙ sym (q t) ∙ w))) s.members
          (same_role mem (is_active_id mem.id) (active_id mem.id) i)))

  pub clear_left-Inv : (id : ℕ) → Inv (clear_left id s).1
  clear_left-Inv id = update_members-Inv s _ _ _ inv (
      update_left-IsSound s.members s.households s.invites _ _ inv.sound _ none
        (All-of_In _ s.members (λ m _ _ _. refl)))

  pub update_role-Inv :
      (mem : HouseholdMember) (role : Role) (e : HouseholdError)
      → In mem s.members
      → is_owner mem.role ≡ false
      → is_owner role ≡ false
      → Inv (update_role mem.id role e s).1
  unfolding update_role
  update_role-Inv mem role e i o r = rw r (
      update_members-Inv s _ _ _ inv (
        update_role-IsSound s.members s.households s.invites _ _ inv.sound (is_active_id mem.id)
          role
          (All-map _ _ (λ m q t. r ∙ sym o ∙ sym (q t)) s.members
            (same_role mem (is_active_id mem.id) (active_id mem.id) i))))

  -- No household has a second active owner, so that the guard lets no owner through.
  count_owners :
      (h : ℕ) (rows : List HouseholdMember)
      → length (select (λ m. (m.household_id == h) && is_owner m.role && is_active m) rows)
        ≤ owners h rows
  count_owners h [] = omega arith
  count_owners h (m ∷ rows) = ground (arith, count_owners h rows)

  pub guarded :
      (mem : HouseholdMember) (h : ℕ)
      → (is_owner mem.role && leb (count_active_owners h s) 1) ≡ false
      → is_owner mem.role ≡ false
  unfolding count_active_owners
  guarded mem h g = ground (arith, g, count_owners h s.members, inv.sound.one_owner h)
