-- ===== src/Budgets/Rollover/Periods.antt =====
-- The periods that rollover walks through, by their numbers.
use offbook.Common.{
  ℕ, zero, suc, ◌-◌, ◌≤◌, ◌<◌, ◌≡◌, refl, ◌∙◌, ap, inl, inr, Bool, true, false, ◌&&◌, List, [], ◌∷◌,
  map, arith, ltb, leb, ◌==◌, if◌then◌else◌, select, Bool-cases, Decimal, total,
}
use offbook.Calendar.Spans.{
  Span, week, month, year, index, bound, index-below, index-above, index_unique, index-bound,
  bound_le, bound_grows, prev_start, prev_start-bound,
}
use offbook.Budgets.{SpendLine, window_start, outflow, spend_by_period, current_period_spend}
use offbook.Budgets.Rollover.{walk_back}

pub window_start-bound : (s : Span) (day : ℕ) → window_start s day ≡ bound s (index s day)
unfolding window_start
window_start-bound week day = omega arith
window_start-bound month day = refl
window_start-bound year day = refl

pub ltb-bound : (s : Span) (j k : ℕ) → ltb (bound s j) (bound s k) ≡ ltb j k
ltb-bound s j k = ground (arith, bound_le s (suc j) k, bound_le s k j, bound_grows s j)

walk_back-stop :
    (span : Span) (start i e : ℕ) → ltb start e ≡ false → walk_back span start (suc i) e ≡ e
unfolding walk_back
walk_back-stop span start i e h = rw (h, walk_back) refl

walk_back-step :
    (span : Span) (start i e : ℕ)
    → ltb start e ≡ true
    → walk_back span start (suc i) e ≡ walk_back span start i (prev_start span e)
unfolding walk_back
walk_back-step span start i e h = rw (h, walk_back) refl

-- The start of the walk, or as many periods back as it has rounds.
pub walk_back-bound :
    (span : Span) (s n k : ℕ)
    → s ≤ k
    → walk_back span (bound span s) n (bound span k)
      ≡ bound span (if leb (k - s) n then s else k - n)
unfolding walk_back
walk_back-bound span s zero k h =
    let e : k ≡ (if leb (k - s) 0 then s else k - 0) = ground arith in ap (bound span) e
walk_back-bound span s (suc n) zero h =
    let none_left : ltb (bound span s) (bound span 0) ≡ false = ltb-bound span s 0 ∙ ground arith in
    let e : 0 ≡ (if leb (0 - s) (suc n) then s else 0 - suc n) = ground arith in
    walk_back-stop span (bound span s) n (bound span 0) none_left ∙ ap (bound span) e
walk_back-bound span s (suc n) (suc k) h = elim (Bool-cases (ltb s (suc k))) [
  | inl more ↦
      let e : (if leb (k - s) n then s else k - n)
          ≡ (if leb (suc k - s) (suc n) then s else suc k - suc n) =
        ground arith in
      walk_back-step span (bound span s) n (bound span (suc k)) (ltb-bound span s (suc k) ∙ more)
      ∙ ap (walk_back span (bound span s) n) (prev_start-bound span k)
      ∙ walk_back-bound span s n k (ground arith)
      ∙ ap (bound span) e
  | inr done ↦
      let e : suc k ≡ (if leb (suc k - s) (suc n) then s else suc k - suc n) = ground arith in
      walk_back-stop span (bound span s) n (bound span (suc k)) (ltb-bound span s (suc k) ∙ done)
      ∙ ap (bound span) e
]

module _ {A : Type 0} where
  pub select-same :
      (p q : A → Bool) (xs : List A) → ((x : A) → p x ≡ q x) → select p xs ≡ select q xs
  select-same p q [] h = refl
  select-same p q (x ∷ xs) h = rw (h x, select-same p q xs h) refl

module _ {D : Type 0} ⦃d : Decimal D⦄ (lines : List (SpendLine D)) (user : ℕ) (categories : List ℕ)
    (span : Span) where
  in_window :
      (e j k day : ℕ)
      → e ≤ j
      → j < k
      → ((leb (bound span e) day && ltb day (bound span k))
          && (window_start span day == bound span j))
        ≡ (leb (bound span j) day && ltb day (bound span (suc j)))
  in_window e j k day h l = ground (
    arith,
    window_start-bound span day,
    index-below span day,
    index-above span day,
    index_unique span j day,
    bound_le span e j h,
    bound_le span (suc j) k l,
    index-bound span j,
    index-bound span (index span day),
  )

  -- The sum that rollover reads for a period is the spend of its window.
  pub spend_by_period-window :
      (e j k : ℕ)
      → e ≤ j
      → j < k
      → spend_by_period lines user categories span (bound span e) (bound span k) (bound span j)
        ≡ current_period_spend lines user categories (bound span j) (bound span (suc j))
  unfolding spend_by_period current_period_spend
  spend_by_period-window e j k h l =
      ap (λ rows. total (map outflow rows))
        (select-same _ _ lines λ x. ground (arith, in_window e j k x.transaction_date h l))
