-- ===== src/Budgets/Summary/Balances.antt =====
-- The figures of a month against the lines of the month.
use offbook.Common.{
  ℕ, ◌≡◌, refl, sym, ◌∙◌, ap, inl, inr, Bool, true, false, not, ◌&&◌, ◌||◌, Option, none, some,
  List, [], ◌∷◌, ◌++◌, map, arith, if◌then◌else◌, select, All, has_id, Bool-cases, Decimal,
  IsDecimal, total, is_zero, eq_of_is_zero, nought_add, total-sort, total-select_light,
  total-select, total-same, total-add, total-nought, total-append,
}
use mathlib.Core.List.{map-append}
use offbook.Common.Sort.{sort}
use offbook.Budgets.{
  SpendLine, counts_in, is_in, outflow, same_category, add_to, group_by_category, spends_more,
  current_period_spend, spend_all_categories_in_range, includes,
}
use offbook.Budgets.Summary.{
  BudgetSpend, BudgetMonthSummary, add_view, add_views, budgeted_ids, add_spend, add_spends,
}

same_category-eq : (c b : Option ℕ) → same_category c b ≡ true → c ≡ b
same_category-eq none none h = refl
same_category-eq none (some b) h = cc
same_category-eq (some a) none h = cc
same_category-eq (some a) (some b) h = ap (λ n. some n) (ground arith)

-- The test of the groups that stand in no budget.
abbrev pub outside : List ℕ → Option ℕ → Bool
outside ids c = not (includes ids c)

module _ {D : Type 0} ⦃d : Decimal D⦄ where
  -- The weight of a group whose category passes a test.
  abbrev pub kept : (Option ℕ → Bool) → Option ℕ × D → D
  kept p g = if p g.0 then g.1 else d.nought

  abbrev pub kept_line : (Option ℕ → Bool) → SpendLine D → D
  kept_line p l = if p l.category_id then outflow l else d.nought

module _ {D : Type 0} ⦃d : Decimal D⦄ (laws : IsDecimal D) where
  kept-add_to :
      (p : Option ℕ → Bool) (c : Option ℕ) (v : D) (groups : List (Option ℕ × D))
      → total (map (kept p) (add_to c v groups))
        ≡ d.add (kept p (c, v)) (total (map (kept p) groups))
  unfolding add_to
  kept-add_to p c v [] = refl
  kept-add_to p c v ((b, u) ∷ rest) = elim (Bool-cases (same_category c b)) [
    | inl e ↦ rw (e, same_category-eq c b e) (merged p b (total (map (kept p) rest)))
    | inr e ↦ rw e (
        ap (d.add (kept p (b, u))) (kept-add_to p c v rest)
        ∙ sym (laws.add_assoc (kept p (b, u)) (kept p (c, v)) _)
        ∙ ap (λ x. d.add x (total (map (kept p) rest)))
            (laws.add_comm (kept p (b, u)) (kept p (c, v)))
        ∙ laws.add_assoc (kept p (c, v)) (kept p (b, u)) _)
  ]
    where
      merged :
          (p : Option ℕ → Bool) (b : Option ℕ) (rest : D)
          → d.add (kept p (b, d.add v u)) rest ≡ d.add (kept p (b, v)) (d.add (kept p (b, u)) rest)
      merged p b rest = elim (Bool-cases (p b)) [
        | inl e ↦ rw e (laws.add_assoc v u rest)
        | inr e ↦ rw e (sym (nought_add laws (d.add d.nought rest)))
      ]

  kept-group :
      (p : Option ℕ → Bool) (lines : List (SpendLine D))
      → total (map (kept p) (group_by_category lines)) ≡ total (map (kept_line p) lines)
  unfolding group_by_category
  kept-group p [] = refl
  kept-group p (l ∷ rest) =
      kept-add_to p l.category_id (outflow l) (group_by_category rest)
      ∙ ap (d.add (kept_line p l)) (kept-group p rest)

  -- The spending of the categories that pass a test is that of their lines.
  pub kept-spend_all :
      (p : Option ℕ → Bool) (lines : List (SpendLine D)) (user from to : ℕ)
      → total (map (kept p) (spend_all_categories_in_range lines user from to))
        ≡ total (map (kept_line p) (select (counts_in user from to) lines))
  unfolding spend_all_categories_in_range
  kept-spend_all p lines user from to =
      total-select_light laws (kept p) (λ g. not (is_zero g.1)) (sort spends_more groups) light
      ∙ total-sort laws (kept p) spends_more groups
      ∙ kept-group p (select (counts_in user from to) lines)
    where
      groups : List (Option ℕ × D)
      groups = group_by_category (select (counts_in user from to) lines)

      light : (g : Option ℕ × D) → not (is_zero g.1) ≡ false → kept p g ≡ d.nought
      light g h = elim (Bool-cases (p g.0)) [
        | inl e ↦ rw e (eq_of_is_zero laws g.1 (ground (arith, h)))
        | inr e ↦ rw e refl
      ]

  add_spend-totals :
      (ids : List ℕ) (g : Option ℕ × D) (out : BudgetMonthSummary D)
      → ((add_spend ids g out).total_spending ≡ d.add out.total_spending g.1)
        × ((add_spend ids g out).not_in_budget ≡ d.add out.not_in_budget (kept (outside ids) g))
        × ((add_spend ids g out).spent_in_budgets ≡ out.spent_in_budgets)
  unfolding add_spend
  add_spend-totals ids (c, v) out = elim (Bool-cases (includes ids c)) [
    | inl e ↦ rw (e, not, if◌then◌else◌) (refl, sym (laws.add_nought out.not_in_budget), refl)
    | inr e ↦ rw (e, not, if◌then◌else◌) (refl, refl, refl)
  ]

  pub add_spends-totals :
      (ids : List ℕ) (groups : List (Option ℕ × D)) (out : BudgetMonthSummary D)
      → ((add_spends ids groups out).total_spending
          ≡ d.add out.total_spending (total (map (λ g. g.1) groups)))
        × ((add_spends ids groups out).not_in_budget
            ≡ d.add out.not_in_budget (total (map (kept (outside ids)) groups)))
        × ((add_spends ids groups out).spent_in_budgets ≡ out.spent_in_budgets)
  unfolding add_spends
  add_spends-totals ids [] out = (sym (laws.add_nought _), sym (laws.add_nought _), refl)
  add_spends-totals ids (g ∷ rest) out =
      let (a, b, c) = add_spends-totals ids rest (add_spend ids g out) in
      let (x, y, z) = add_spend-totals ids g out in
      (
        a ∙ ap (λ q. d.add q (total (map (λ h. h.1) rest))) x ∙ laws.add_assoc _ _ _,
        b ∙ ap (λ q. d.add q (total (map (kept (outside ids)) rest))) y ∙ laws.add_assoc _ _ _,
        c ∙ z,
      )

  pub add_spends-unbudgeted :
      (ids : List ℕ) (groups : List (Option ℕ × D)) (out : BudgetMonthSummary D)
      → total (map (λ g. g.1) (add_spends ids groups out).unbudgeted)
        ≡ d.add (total (map (λ g. g.1) out.unbudgeted)) (total (map (kept (outside ids)) groups))
  unfolding add_spends add_spend
  add_spends-unbudgeted ids [] out = sym (laws.add_nought _)
  add_spends-unbudgeted ids ((c, v) ∷ rest) out =
      add_spends-unbudgeted ids rest (add_spend ids (c, v) out)
      ∙ ap (λ q. d.add q (total (map (kept (outside ids)) rest))) one
      ∙ laws.add_assoc _ _ _
    where
      one :
          total (map (λ g. g.1) (add_spend ids (c, v) out).unbudgeted)
          ≡ d.add (total (map (λ g. g.1) out.unbudgeted)) (kept (outside ids) (c, v))
      one = elim (Bool-cases (includes ids c)) [
        | inl e ↦ rw (e, not, if◌then◌else◌) (sym (laws.add_nought _))
        | inr e ↦
            rw (e, not, if◌then◌else◌)
              (ap total (map-append (λ (g : Option ℕ × D). g.1) out.unbudgeted ((c, v) ∷ []))
                ∙ total-append laws (map (λ g. g.1) out.unbudgeted) (v ∷ [])
                ∙ ap (d.add (total (map (λ g. g.1) out.unbudgeted))) (laws.add_nought v))
      ]

  pub add_views-spent :
      (views : List (BudgetSpend D)) (out : BudgetMonthSummary D)
      → ((add_views views out).spent_in_budgets
          ≡ d.add out.spent_in_budgets (total (map (λ v. v.spent) views)))
        × ((add_views views out).not_in_budget ≡ out.not_in_budget)
        × ((add_views views out).total_spending ≡ out.total_spending)
  unfolding add_views add_view
  add_views-spent [] out = (sym (laws.add_nought _), refl, refl)
  add_views-spent (v ∷ rest) out =
      let (a, b, c) = add_views-spent rest (add_view v out) in
      (a ∙ laws.add_assoc out.spent_in_budgets v.spent _, b, c)

  pub add_views-unbudgeted :
      (views : List (BudgetSpend D)) (out : BudgetMonthSummary D)
      → (add_views views out).unbudgeted ≡ out.unbudgeted
  unfolding add_views add_view
  add_views-unbudgeted [] out = refl
  add_views-unbudgeted (v ∷ rest) out = add_views-unbudgeted rest (add_view v out)

pub has_id-append : (xs ys : List ℕ) (k : ℕ) → has_id (xs ++ ys) k ≡ (has_id xs k || has_id ys k)
has_id-append [] ys k = refl
has_id-append (x ∷ xs) ys k = ground (arith, has_id-append xs ys k)

includes-append :
    (xs ys : List ℕ) (c : Option ℕ) → includes (xs ++ ys) c ≡ (includes xs c || includes ys c)
includes-append xs ys none = refl
includes-append xs ys (some c) = has_id-append xs ys c

select-select :
    {A : Type 0} (p q : A → Bool) (xs : List A)
    → select q (select p xs) ≡ select (λ x. p x && q x) xs
select-select p q [] = refl
select-select p q (x ∷ xs) = elim (Bool-cases (p x)) [
  | inl e ↦ rw (e, ◌&&◌, select-select p q xs) refl
  | inr e ↦ rw (e, ◌&&◌, select-select p q xs) refl
]

module _ {D : Type 0} where
  -- No category stands in two views.
  abbrev pub Apart : List (BudgetSpend D) → Type 0
  Apart [] = Unit {0}
  Apart (v ∷ rest) =
      ((c : ℕ) → has_id v.category_ids c ≡ true → has_id (budgeted_ids rest) c ≡ false) × Apart rest

module _ {D : Type 0} ⦃d : Decimal D⦄ (lines : List (SpendLine D)) (user from to : ℕ) where
  abbrev pub month_lines : List (SpendLine D)
  month_lines = select (counts_in user from to) lines

  -- A view with the spend of its categories in the month.
  abbrev pub IsOfMonth : BudgetSpend D → Type 0
  IsOfMonth v = v.spent ≡ current_period_spend lines user v.category_ids from to

module _ {D : Type 0} ⦃d : Decimal D⦄ (laws : IsDecimal D) (lines : List (SpendLine D))
    (user from to : ℕ) where
  spent_as_weight :
      (ids : List ℕ)
      → current_period_spend lines user ids from to
        ≡ total (map (kept_line (includes ids)) (month_lines lines user from to))
  unfolding current_period_spend
  spent_as_weight ids =
      ap (λ rows. total (map outflow rows))
        (sym (select-select (counts_in user from to) (is_in ids) lines))
      ∙ total-select laws outflow (is_in ids) (month_lines lines user from to)

  apart_weights :
      (ids rest : List ℕ) (l : SpendLine D)
      → ((c : ℕ) → has_id ids c ≡ true → has_id rest c ≡ false)
      → d.add (kept_line (includes ids) l) (kept_line (includes rest) l)
        ≡ kept_line (includes (ids ++ rest)) l
  apart_weights ids rest l h = go l.category_id (outflow l)
    where
      go :
          (c : Option ℕ) (w : D)
          → d.add (if includes ids c then w else d.nought) (if includes rest c then w else d.nought)
            ≡ (if includes (ids ++ rest) c then w else d.nought)
      go none w = laws.add_nought d.nought
      go (some c) w = elim (Bool-cases (has_id ids c)) [
        | inl e ↦ rw (has_id-append ids rest c, e, h c e) (laws.add_nought w)
        | inr e ↦ rw (has_id-append ids rest c, e) (nought_add laws _)
      ]

  pub views-spent :
      (views : List (BudgetSpend D))
      → All (IsOfMonth lines user from to) views
      → Apart views
      → total (map (λ v. v.spent) views)
        ≡ total (map (kept_line (includes (budgeted_ids views))) (month_lines lines user from to))
  unfolding budgeted_ids
  views-spent [] h a = sym (
      total-nought laws _ (month_lines lines user from to)
        (λ l. none_included l.category_id (outflow l)))
    where
      none_included : (c : Option ℕ) (w : D) → (if includes [] c then w else d.nought) ≡ d.nought
      none_included none w = refl
      none_included (some c) w = refl
  views-spent (v ∷ rest) (h, hs) (a, apart) =
      ap (λ x. d.add x (total (map (λ u. u.spent) rest))) (h ∙ spent_as_weight v.category_ids)
      ∙ ap (d.add _) (views-spent rest hs apart)
      ∙ sym (
          total-add laws (kept_line (includes v.category_ids))
            (kept_line (includes (budgeted_ids rest))) (month_lines lines user from to))
      ∙ total-same laws _ _ (month_lines lines user from to)
          (λ l. apart_weights v.category_ids (budgeted_ids rest) l a)
