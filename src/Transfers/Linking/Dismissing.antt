-- ===== src/Transfers/Linking/Dismissing.antt =====
-- A pair that the user dismissed is not proposed again.
use mathlib.Core.Bool.{false≢true}
use offbook.Common.{
  ℕ, sym, ◌∙◌, ◌≡◌, refl, ◌⊎◌, inl, inr, true, List, [], ◌∷◌, ◌++◌, arith, All, All-map, Bool-cases,
  Decimal, IsDecimal, ok,
}
use offbook.Transfers.{
  Store, Candidate, Dismissal, is_dismissed, ordered_pair, list_transfer_candidates,
}
use offbook.Transfers.Proposals.{IsTransfer, proposals-IsTransfer}
use offbook.Transfers.Linking.{dismiss}

is_dismissed-swap :
    (user : ℕ) (ds : List Dismissal) (x y : ℕ) → is_dismissed user ds x y ≡ is_dismissed user ds y x
unfolding is_dismissed
is_dismissed-swap user [] x y = refl
is_dismissed-swap user (p ∷ ds) x y = ground (arith, is_dismissed-swap user ds x y)

is_dismissed-add :
    (user : ℕ) (ds : List Dismissal) (x y : ℕ)
    → let (low, high) = ordered_pair x y in
      is_dismissed user (ds ++ (record { user_id = user; low_id = low; high_id = high } ∷ [])) x y
      ≡ true
unfolding is_dismissed
is_dismissed-add user [] x y = ground arith
is_dismissed-add user (p ∷ ds) x y = ground (arith, is_dismissed-add user ds x y)

module _ {D : Type 0} (user id_a id_b : ℕ) (st : Store D) where
  dismiss_records :
      (after : Store D)
      → dismiss user id_a id_b st ≡ ok after
      → (is_dismissed user after.dismissals id_a id_b ≡ true)
        × (after.transactions ≡ st.transactions)
  unfolding dismiss
  dismiss_records after h = elim (Bool-cases (is_dismissed user st.dismissals id_a id_b)) [
    | inl old ↦ ground arith
    | inr new ↦ ground (arith, is_dismissed-add user st.dismissals id_a id_b)
  ]

  -- The two rows of a proposal, in either order.
  abbrev pub IsOf : Candidate D → Type 0
  IsOf c = ((c.a.id ≡ id_a) × (c.b.id ≡ id_b)) ⊎ ((c.a.id ≡ id_b) × (c.b.id ≡ id_a))

  -- After `Dismiss` returns no error, no list of proposals for the user has that pair, in any
  -- window, and the transactions are as before.
  pub dismiss_ends_proposal :
      ⦃d : Decimal D⦄ (laws : IsDecimal D) (after : Store D)
      → dismiss user id_a id_b st ≡ ok after
      → ((window : ℕ) → All (λ c. ¬ IsOf c) (list_transfer_candidates user window after))
        × (after.transactions ≡ st.transactions)
  dismiss_ends_proposal laws after h = (λ window. never window, (dismiss_records after h).1)
    where
      recorded : is_dismissed user after.dismissals id_a id_b ≡ true
      recorded = (dismiss_records after h).0

      not_of : (window : ℕ) (c : Candidate D) → IsTransfer user window after c → ¬ IsOf c
      not_of window c t (inl (p, q)) =
          false≢true
            (sym t.not_dismissed ∙ (λ i. is_dismissed user after.dismissals (p i) (q i)) ∙ recorded)
      not_of window c t (inr (p, q)) = false≢true (
          sym t.not_dismissed
          ∙ (λ i. is_dismissed user after.dismissals (p i) (q i))
          ∙ is_dismissed-swap user after.dismissals id_b id_a
          ∙ recorded)

      never : (window : ℕ) → All (λ c. ¬ IsOf c) (list_transfer_candidates user window after)
      never window = All-map _ _ (not_of window) _ (proposals-IsTransfer user window after laws)
