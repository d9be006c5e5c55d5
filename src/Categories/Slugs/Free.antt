-- ===== src/Categories/Slugs/Free.antt =====
-- The slug that freeSlug takes.
use offbook.Common.{
  ℕ, zero, suc, ◌+◌, ◌<◌, ◌≡◌, ◌⊎◌, refl, sym, ap, subst, ◌∙◌, Bool, inl, inr, true, false, List,
  String, arith, Bool-cases, Result, ok, err,
}
use offbook.Model.{Strings}
use offbook.Plans.{Category}
use offbook.Categories.{CategoryError, category_name_taken}
use offbook.Categories.Slugs.{Runes, slug_taken, slug_of_round, free_slug_from, free_slug, slugify}

-- The outcome of the rounds from `i` on, `left` of them.
abbrev pub IsOutcome : ℕ → String → ℕ → ℕ → List Category → Result CategoryError String → Type 0
IsOutcome user base left i rows r =
    ((k : ℕ) × (k < left)
      × (r ≡ ok (slug_of_round base (i + k)))
      × (slug_taken user (slug_of_round base (i + k)) rows ≡ false)
      × ((j : ℕ) → j < k → slug_taken user (slug_of_round base (i + j)) rows ≡ true))
    ⊎ ((r ≡ err category_name_taken)
        × ((j : ℕ) → j < left → slug_taken user (slug_of_round base (i + j)) rows ≡ true))

module _ (user : ℕ) (base : String) (rows : List Category) where
  -- The slug_of_round of a round is taken.
  abbrev taken : ℕ → Bool
  taken i = slug_taken user (slug_of_round base i) rows

  taken_on :
      (left i : ℕ)
      → taken i ≡ true
      → free_slug_from user base (suc left) i rows ≡ free_slug_from user base left (i + 1) rows
  unfolding free_slug_from
  taken_on left i e = rw (e, free_slug_from) refl

  free_stop :
      (left i : ℕ)
      → taken i ≡ false
      → free_slug_from user base (suc left) i rows ≡ ok (slug_of_round base i)
  unfolding free_slug_from
  free_stop left i e = rw (e, free_slug_from) refl

  taken_before :
      (i n : ℕ)
      → taken i ≡ true
      → ((j : ℕ) → j < n → taken (i + 1 + j) ≡ true)
      → (j : ℕ) → j < n + 1
      → taken (i + j) ≡ true
  taken_before i n e h zero l = let q : i ≡ i + 0 = omega arith in subst (λ m. taken m ≡ true) q e
  taken_before i n e h (suc j) l =
      let q : i + 1 + j ≡ i + suc j = omega arith in
      subst (λ m. taken m ≡ true) q (h j (omega (arith, l)))

  free_slug_from_lem :
      (left i : ℕ) → IsOutcome user base left i rows (free_slug_from user base left i rows)
  unfolding free_slug_from
  free_slug_from_lem zero i = inr (refl, λ j h. absurd (omega (arith, h)))
  free_slug_from_lem (suc left) i = elim (Bool-cases (taken i)) [
    | inr e ↦
        let q : i ≡ i + 0 = omega arith in
        inl (
          0,
          omega arith,
          free_stop left i e ∙ ap (λ m. ok (slug_of_round base m)) q,
          subst (λ m. taken m ≡ false) q e,
          λ j h. absurd (omega (arith, h)),
        )
    | inl e ↦
        subst (IsOutcome user base (suc left) i rows) (sym (taken_on left i e))
          (later e (free_slug_from user base left (i + 1) rows) (free_slug_from_lem left (i + 1)))
  ]
    where
      later :
          taken i ≡ true
          → (r : Result CategoryError String) → IsOutcome user base left (i + 1) rows r
          → IsOutcome user base (suc left) i rows r
      later e r (inl (k, h, f, g, t)) =
          let q : i + 1 + k ≡ i + (k + 1) = omega arith in
          inl (
            k + 1,
            omega (arith, h),
            f ∙ ap (λ m. ok (slug_of_round base m)) q,
            subst (λ m. taken m ≡ false) q g,
            taken_before i k e t,
          )
      later e r (inr (f, t)) = inr (f, λ j h. taken_before i left e t j (omega (arith, h)))

-- The slug of a new category is the first of its fifty candidates that the user has not taken, the
-- slug of the name itself and then that slug with a number from 2 to 50 behind it; when all fifty
-- are taken the name counts as taken.
pub free_slug_lem :
    ⦃s : Strings⦄ ⦃u : Runes⦄ (user : ℕ) (name : String) (rows : List Category)
    → IsOutcome user (slugify name) 50 1 rows (free_slug user name rows)
unfolding free_slug
free_slug_lem user name rows = free_slug_from_lem user (slugify name) rows 50 1
