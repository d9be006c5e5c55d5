-- ===== src/Budgets/Limits/Places.antt =====
-- Which entry of a history is the limit of a day.
use offbook.Common.{
  ℕ, zero, suc, ◌-◌, ◌≤◌, ◌<◌, ◌≡◌, ◌≢◌, refl, sym, ◌∙◌, ap, inl, inr, true, false, some, List, [],
  ◌∷◌, arith, ltb, ◌==◌, if◌then◌else◌, length, Bool-cases, All, All-In, All-map, In,
}
use offbook.Common.Sort.{IsSorted}
use offbook.Plans.{BudgetAmount}
use offbook.Budgets.Limits.{oldest_first, entry, is_after, step_back, amount_or, limit_at}

module _ {D : Type 0} where
  step_back_stop :
      (h : List (BudgetAmount D)) (day i : ℕ)
      → is_after day (entry h i) ≡ false
      → step_back h day (suc i) ≡ suc i
  unfolding step_back
  step_back_stop h day i e = rw (e, step_back) refl

  step_back_more :
      (h : List (BudgetAmount D)) (day i : ℕ)
      → is_after day (entry h i) ≡ true
      → step_back h day (suc i) ≡ step_back h day i
  unfolding step_back
  step_back_more h day i e = rw (e, step_back) refl

  -- One more entry in front.
  abbrev shifted : BudgetAmount D → ℕ → ℕ → ℕ
  shifted x day zero = if ltb day x.effective_from then 0 else 1
  shifted x day (suc n) = suc (suc n)

  step_back-shifted :
      (x : BudgetAmount D) (h : List (BudgetAmount D)) (day k : ℕ)
      → step_back (x ∷ h) day (suc k) ≡ shifted x day (step_back h day k)
  unfolding step_back
  step_back-shifted x h day zero = ground arith
  step_back-shifted x h day (suc k) = elim (Bool-cases (is_after day (entry h k))) [
    | inl e ↦
        step_back_more (x ∷ h) day (suc k) e
        ∙ step_back-shifted x h day k
        ∙ ap (shifted x day) (sym (step_back_more h day k e))
    | inr e ↦
        step_back_stop (x ∷ h) day (suc k) e ∙ ap (shifted x day) (sym (step_back_stop h day k e))
  ]

  -- The place that the loop stops at: nothing is through the day, or the entry there is the latest
  -- that is, and it is the last of all where every entry is.
  abbrev pub IsPlace : List (BudgetAmount D) → ℕ → ℕ → Type 0
  IsPlace h day zero = All (λ x. day < x.effective_from) h
  IsPlace h day (suc i) =
      (e : BudgetAmount D) × (entry h i ≡ some e)
      × In e h
      × (e.effective_from ≤ day)
      × All (λ x. x.effective_from ≤ day → x.effective_from ≤ e.effective_from) h
      × (suc i ≡ length h → All (λ x. x.effective_from ≤ day) h)
      × (suc i ≢ length h → (x : BudgetAmount D) × In x h × (day < x.effective_from))

  none_there : (P : BudgetAmount D → Type 0) (h : List (BudgetAmount D)) → length h ≡ 0 → All P h
  none_there P [] e = tt
  none_there P (x ∷ h) e = absurd (omega arith)

  some_there :
      (P : BudgetAmount D → Type 0) (h : List (BudgetAmount D))
      → All P h
      → length h ≢ 0
      → (x : BudgetAmount D) × In x h × P x
  some_there P [] a n = absurd (n refl)
  some_there P (x ∷ h) (p, a) n = (x, inl refl, p)

  pub step_back-IsPlace :
      (h : List (BudgetAmount D)) (day : ℕ)
      → IsSorted oldest_first h
      → IsPlace h day (step_back h day (length h))
  unfolding step_back
  step_back-IsPlace [] day s = tt
  step_back-IsPlace (x ∷ h) day (first, s) =
      rw (step_back-shifted x h day (length h))
        (go (step_back h day (length h)) (step_back-IsPlace h day s))
    where
      later : (y : BudgetAmount D) → In y h → x.effective_from ≤ y.effective_from
      later y m = let t = All-In _ y h first m in ground arith

      go : (i : ℕ) → IsPlace h day i → IsPlace (x ∷ h) day (shifted x day i)
      go zero all = elim (Bool-cases (ltb day x.effective_from)) [
        | inl e ↦ rw e (ground arith, all)
        | inr e ↦ rw e (
          x,
          refl,
          inl refl,
          ground arith,
          ((λ _. omega arith), All-map _ _ (λ y k l. absurd (omega arith)) h all),
          (λ q. (ground arith, none_there _ h (omega arith))),
          (λ q. let (y, m, l) = some_there _ h all (λ z. q (omega arith)) in (y, inr m, l)),
        )
      ]
      go (suc i) (e, at, m, through, top, every, some_later) = (
        e,
        at,
        inr m,
        through,
        ((λ _. later e m), top),
        (λ q. (omega (arith, later e m), every (omega arith))),
        (λ q. let (y, my, l) = some_later (λ z. q (ap suc z)) in (y, inr my, l)),
      )

  -- The limit of a day: the current amount, where every entry is through the day; the amount of the
  -- latest entry through the day, where a later one follows; the oldest amount, where none is.
  pub data IsLimit (h : List (BudgetAmount D)) (current : D) (day : ℕ) (v : D) : Type 0 where
    newest : All (λ x. x.effective_from ≤ day) h → v ≡ current → IsLimit h current day v
    past :
        (e : BudgetAmount D)
        → In e h
        → e.effective_from ≤ day
        → All (λ x. x.effective_from ≤ day → x.effective_from ≤ e.effective_from) h
        → (l : BudgetAmount D) → In l h
        → day < l.effective_from
        → v ≡ e.amount
        → IsLimit h current day v
    oldest :
        (e : BudgetAmount D)
        → In e h
        → All (λ x. day < x.effective_from) h
        → All (λ x. e.effective_from ≤ x.effective_from) h
        → v ≡ e.amount
        → IsLimit h current day v

  pub limit_at-IsLimit :
      (h : List (BudgetAmount D)) (current : D) (day : ℕ)
      → IsSorted oldest_first h
      → IsLimit h current day (limit_at h current day)
  unfolding limit_at
  limit_at-IsLimit [] current day s = newest tt refl
  limit_at-IsLimit (x ∷ h) current day (first, s) =
      let filled : (suc (length h) == 0) ≡ false = ground arith in
      rw filled
        (go (step_back (x ∷ h) day (suc (length h))) (step_back-IsPlace (x ∷ h) day (first, s)))
    where
      later : All (λ y. x.effective_from ≤ y.effective_from) h
      later = All-map _ _ (λ y q. ground arith) h first

      go :
          (i : ℕ)
          → IsPlace (x ∷ h) day i
          → IsLimit
              (x ∷ h)
              current
              day
              (if i == suc (length h) then current else amount_or current (entry (x ∷ h) (i - 1)))
      go zero all =
          let before : (0 == suc (length h)) ≡ false = ground arith in
          rw before (oldest x (inl refl) all (omega arith, later) refl)
      go (suc i) (e, at, m, through, top, every, some_later) =
          elim (Bool-cases (suc i == suc (length h))) [
            | inl q ↦ rw q (newest (every (ground arith)) refl)
            | inr q ↦ rw q (
                let (l, ml, after) = some_later (λ z. ground (arith, q, z)) in
                past e m through top l ml after
                  (let k : suc i - 1 ≡ i = omega arith in rw (k, at) refl))
          ]
