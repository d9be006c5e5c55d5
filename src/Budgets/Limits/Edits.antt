-- ===== src/Budgets/Limits/Edits.antt =====
-- What an edit of the limit changes: the current period and those after it.
use offbook.Common.{
  ℕ, ◌≡◌, ◌≢◌, refl, ◌∙◌, subst, inl, inr, ◌⊎◌, List, [], ◌∷◌, map, arith, if◌then◌else◌, any,
  Bool-cases, In, In-append, In-append_left, In-append_right, In-map, map-In, not_any-In, any_there,
}
use offbook.Plans.{BudgetAmount}
use offbook.Budgets.Limits.{is_entry, upsert_budget_amount}

module _ {D : Type 0} (b : ℕ) where
  abbrev pub row : D → ℕ → BudgetAmount D
  row amount from = record { budget_id = b; amount = amount; effective_from = from }

  abbrev put : D → ℕ → BudgetAmount D → BudgetAmount D
  put amount from h = if is_entry b from h then record h { amount = amount } else h

  -- An entry after an upsert is the new one, or an old one of another day.
  pub upsert-In :
      (amount : D) (from : ℕ) (rows : List (BudgetAmount D)) (e : BudgetAmount D)
      → e.budget_id ≡ b
      → In e (upsert_budget_amount b amount from rows)
      → ((e.effective_from ≡ from) × (e.amount ≡ amount)) ⊎ ((e.effective_from ≢ from) × In e rows)
  unfolding upsert_budget_amount
  upsert-In amount from rows e o m = elim (Bool-cases (any (is_entry b from) rows)) [
    | inl t ↦
        let (x, n, q) = In-map (put amount from) e rows (subst (In e) (rw t refl) m) in
        changed x n q
    | inr t ↦ elim (In-append e rows (row amount from ∷ []) (subst (In e) (rw t refl) m)) [
      | inl n ↦
          let f = not_any-In (is_entry b from) e rows t n in inr ((λ q. ground (arith, f, o, q)), n)
      | inr n ↦ elim n [ inl q ↦ inl (rw q refl, rw q refl) | inr z ↦ absurd z ]
    ]
  ]
    where
      changed :
          (x : BudgetAmount D)
          → In x rows
          → e ≡ put amount from x
          → ((e.effective_from ≡ from) × (e.amount ≡ amount))
            ⊎ ((e.effective_from ≢ from) × In e rows)
      changed x n q = elim (Bool-cases (is_entry b from x)) [
        | inl t ↦
            let s : e ≡ record x { amount = amount } = q ∙ rw t refl in
            inl (rw s (ground (arith, t)), rw s refl)
        | inr t ↦ let s : e ≡ x = q ∙ rw t refl in inr ((λ z. ground (arith, t, o, z, s)), rw s n)
      ]

  pub In-upsert :
      (amount : D) (from : ℕ) (rows : List (BudgetAmount D)) (e : BudgetAmount D)
      → e.effective_from ≢ from
      → In e rows
      → In e (upsert_budget_amount b amount from rows)
  unfolding upsert_budget_amount
  In-upsert amount from rows e n m = elim (Bool-cases (any (is_entry b from) rows)) [
    | inl t ↦
        rw t
          (subst (λ x. In x (map (put amount from) rows)) kept (map-In (put amount from) e rows m))
    | inr t ↦ rw t (In-append_left e rows (row amount from ∷ []) m)
  ]
    where
      kept : put amount from e ≡ e
      kept = elim (Bool-cases (is_entry b from e)) [
        | inl t ↦ absurd (n (ground (arith, t)))
        | inr t ↦ rw t refl
      ]

  pub upsert_new :
      (amount : D) (from : ℕ) (rows : List (BudgetAmount D))
      → (e : BudgetAmount D) × In e (upsert_budget_amount b amount from rows)
        × (e.budget_id ≡ b)
        × (e.effective_from ≡ from)
        × (e.amount ≡ amount)
  unfolding upsert_budget_amount
  upsert_new amount from rows = elim (Bool-cases (any (is_entry b from) rows)) [
    | inl t ↦
        let (x, m, q) = any_there (is_entry b from) rows t in
        let same : put amount from x ≡ record x { amount = amount } = rw q refl in
        (
          record x { amount = amount },
          rw t (
              subst (λ y. In y (map (put amount from) rows)) same
                (map-In (put amount from) x rows m)),
          ground (arith, q),
          ground (arith, q),
          refl,
        )
    | inr t ↦ (
      row amount from,
      rw t (In-append_right (row amount from) rows _ (inl refl)),
      refl,
      refl,
      refl,
    )
  ]
