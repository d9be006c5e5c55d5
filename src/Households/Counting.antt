-- ===== src/Households/Counting.antt =====
-- Weights of the members table when one row is updated.
use offbook.Common.{
  ℕ, ◌+◌, ◌≤◌, ◌≡◌, refl, subst, inl, inr, true, false, List, [], ◌∷◌, arith, ◌==◌, if◌then◌else◌,
  weigh, In,
}
use offbook.Households.{HouseholdMember, update_where}
use offbook.Households.Tables.{is_active_id}
use offbook.Households.Sound.{numbered, In-weigh}

module _ (f : HouseholdMember → HouseholdMember) (id : ℕ) where
  pub update-none :
      (rows : List HouseholdMember)
      → numbered id rows ≡ 0
      → update_where (is_active_id id) f rows ≡ rows
  update-none [] h = refl
  update-none (x ∷ rows) h = rw (other, update-none rows (ground (arith, h))) refl
    where
      other : is_active_id id x ≡ false
      other = ground (arith, h)

  -- The weight of one row changes.
  pub weigh-one :
      (w : HouseholdMember → ℕ) (rows : List HouseholdMember) (x : HouseholdMember)
      → numbered id rows ≤ 1
      → In x rows
      → is_active_id id x ≡ true
      → weigh w (update_where (is_active_id id) f rows) + w x ≡ weigh w rows + w (f x)
  weigh-one w [] x d i p = absurd i
  weigh-one w (z ∷ rows) x d (inl e) p =
      rw (e, active, update-none rows (ground (arith, d, active))) (omega arith)
    where
      active : is_active_id id z ≡ true
      active = subst (λ y. is_active_id id y ≡ true) e p
  weigh-one w (z ∷ rows) x d (inr i) p = rw other (omega (arith, weigh-one w rows x rest i p))
    where
      present : 1 ≤ numbered id rows
      present = ground (arith, p, In-weigh (λ m. if m.id == id then 1 else 0) rows x i)

      other : is_active_id id z ≡ false
      other = ground (arith, d, present)

      rest : numbered id rows ≤ 1
      rest = omega (arith, d)

  pub In-update :
      (rows : List HouseholdMember) (x : HouseholdMember)
      → In x rows
      → is_active_id id x ≡ false
      → In x (update_where (is_active_id id) f rows)
  In-update [] x i p = absurd i
  In-update (z ∷ rows) x (inl e) p = inl (rw (← e, p) refl)
  In-update (z ∷ rows) x (inr i) p = inr (In-update rows x i p)
