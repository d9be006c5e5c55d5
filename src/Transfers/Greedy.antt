-- ===== src/Transfers/Greedy.antt =====
-- The greedy assignment of transfer_matching.go: no row in two pairs, and the best pair first.
use offbook.Common.{
  ℕ, ◌+◌, ◌≤◌, ◌<◌, ◌≡◌, refl, sym, subst, ◌⊎◌, inl, inr, Bool, true, ◌||◌, List, [], ◌∷◌, arith,
  ◌==◌, if◌then◌else◌, has_id, weigh, All, All-In, In, Bool-cases,
}
use offbook.Common.Sort.{IsSorted}
use offbook.Transfers.{Candidate, assign, by_rank}

module _ {D : Type 0} where
  -- How often the row with index `k` stands in a pair.
  abbrev pub uses : ℕ → Candidate D → ℕ
  uses k c = (if c.i == k then 1 else 0) + (if c.j == k then 1 else 0)

  -- Two pairs have a row in common.
  abbrev pub shares : Candidate D → Candidate D → Bool
  shares x y = (x.i == y.i) || (x.i == y.j) || (x.j == y.i) || (x.j == y.j)

  pub In-assign :
      (c : Candidate D) (used : List ℕ) (cs : List (Candidate D)) → In c (assign used cs) → In c cs
  unfolding assign
  In-assign c used [] = λ h. h
  In-assign c used (x ∷ rest) = elim (Bool-cases (has_id used x.i || has_id used x.j)) [
    | inl e ↦ rw (e, assign) (λ h. inr (In-assign c used rest h))
    | inr e ↦
        rw (e, assign)
          (λ h. elim h [ inl p ↦ inl p | inr q ↦ inr (In-assign c (x.i ∷ x.j ∷ used) rest q) ])
  ]

  -- A row that is taken is not used again, and any other at most once.
  pub assign_once :
      (k : ℕ) (used : List ℕ) (cs : List (Candidate D))
      → All (λ c. c.i < c.j) cs
      → weigh (uses k) (assign used cs) ≤ (if has_id used k then 0 else 1)
  unfolding assign
  assign_once k used [] h = ground arith
  assign_once k used (x ∷ rest) (p, h) =
      ground (arith, assign_once k used rest h, assign_once k (x.i ∷ x.j ∷ used) rest h)

  -- A chosen pair that stands in the way of `c`: it has a row of `c` and ranks no lower.
  abbrev pub Preferred : Candidate D → List (Candidate D) → Type 0
  Preferred c chosen = (x : Candidate D) × In x chosen × (shares x c ≡ true) × (by_rank x c ≡ true)

  by_rank_refl : (c : Candidate D) → by_rank c c ≡ true
  unfolding by_rank
  by_rank_refl c = ground arith

  shares_refl : (c : Candidate D) → shares c c ≡ true
  shares_refl c = ground arith

  -- Taken before, or now by `x`.
  taken_by :
      (used : List ℕ) (x c : Candidate D)
      → (has_id (x.i ∷ x.j ∷ used) c.i || has_id (x.i ∷ x.j ∷ used) c.j) ≡ true
      → ((has_id used c.i || has_id used c.j) ≡ true) ⊎ (shares x c ≡ true)
  taken_by used x c h = ground arith

  pub assign_prefers :
      (c : Candidate D) (used : List ℕ) (cs : List (Candidate D))
      → IsSorted by_rank cs
      → In c cs
      → ((has_id used c.i || has_id used c.j) ≡ true) ⊎ Preferred c (assign used cs)
  unfolding assign
  assign_prefers c used [] s m = absurd m
  assign_prefers c used (x ∷ rest) (first, s) m =
      elim (Bool-cases (has_id used x.i || has_id used x.j)) [
        | inl e ↦
            rw (e, assign)
              (elim m [
                | inl p ↦ inl (subst (λ y. (has_id used y.i || has_id used y.j) ≡ true) (sym p) e)
                | inr q ↦ assign_prefers c used rest s q
              ])
        | inr e ↦
            rw (e, assign)
              (elim m [
                | inl p ↦ inr (
                    subst (λ y. Preferred y (x ∷ assign (x.i ∷ x.j ∷ used) rest)) (sym p)
                      (x, inl refl, shares_refl x, by_rank_refl x))
                | inr q ↦ elim (assign_prefers c (x.i ∷ x.j ∷ used) rest s q) [
                  | inl t ↦ elim (taken_by used x c t) [
                    | inl old ↦ inl old
                    | inr sh ↦ inr (x, inl refl, sh, All-In _ c rest first q)
                  ]
                  | inr (y, my, sh, r) ↦ inr (y, inr my, sh, r)
                ]
              ])
      ]
