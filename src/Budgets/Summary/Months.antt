-- ===== src/Budgets/Summary/Months.antt =====
-- The summary of a month adds up.
use offbook.Common.{
  ℕ, ◌+◌, ◌≤◌, ◌≡◌, refl, sym, ◌∙◌, ap, Bool, true, false, not, Option, List, map, arith, ltb,
  if◌then◌else◌, In, Pairwise, Pairwise-one, ◌≢◌, Decimal, IsDecimal, total, nought_add, total-same,
  total-add, ok,
}
use offbook.Plans.{Category, IsApart}
use offbook.Budgets.{
  SpendLine, Book, period_window, counts_in, spent_on, outflow, includes,
  spend_all_categories_in_range,
}
use offbook.Budgets.Summary.{
  BudgetMonthSummary, budgeted_ids, add_spends, month_views, month_totals, month_summary,
}
use offbook.Budgets.Summary.Balances.{
  outside, kept, kept_line, month_lines, kept-spend_all, add_spends-totals, add_spends-unbudgeted,
  add_views-spent, add_views-unbudgeted, views-spent,
}
use offbook.Budgets.Summary.Disjoint.{month_views-Apart, month_views-IsOfMonth}

module _ {D : Type 0} ⦃d : Decimal D⦄ (laws : IsDecimal D) where
  -- A month's lines are inside budgets or outside.
  split_lines :
      (ids : List ℕ) (lines : List (SpendLine D))
      → d.add
          (total (map (kept_line (includes ids)) lines))
          (total (map (kept_line (outside ids)) lines))
        ≡ total (map outflow lines)
  split_lines ids lines =
      sym (total-add laws (kept_line (includes ids)) (kept_line (outside ids)) lines)
      ∙ total-same laws _ outflow lines (λ l. either (includes ids l.category_id) (outflow l))
    where
      either :
          (b : Bool) (w : D) → d.add (if b then w else d.nought) (if not b then w else d.nought) ≡ w
      either true w = laws.add_nought w
      either false w = nought_add laws w

  module _ (book : Book D) (user on : ℕ)
      (distinct : Pairwise (λ (p q : Category). p.id ≢ q.id) book.categories)
      (unique : Pairwise IsApart book.budgets) where
    one : (p q : Category) → In p book.categories → In q book.categories → p.id ≡ q.id → p ≡ q
    one p q m n e = Pairwise-one (λ (c : Category). c.id) book.categories distinct p q m n e

    abbrev from : ℕ
    from = (period_window "monthly" on).0

    abbrev to : ℕ
    to = (period_window "monthly" on).1

    abbrev ids : List ℕ
    ids = budgeted_ids (month_views book user on)

    abbrev groups : List (Option ℕ × D)
    groups = spend_all_categories_in_range book.lines user from to

    abbrev out : BudgetMonthSummary D
    out =
        add_spends ids groups (month_totals (period_window "monthly" on) (month_views book user on))

    spent_inside :
        out.spent_in_budgets
        ≡ total (map (kept_line (includes ids)) (month_lines book.lines user from to))
    unfolding month_totals
    spent_inside =
        (add_spends-totals laws ids groups _).2
        ∙ (add_views-spent laws (month_views book user on) _).0
        ∙ nought_add laws _
        ∙ views-spent laws book.lines user from to (month_views book user on)
            (month_views-IsOfMonth book user on one unique)
            (month_views-Apart book user on one unique)

    spent_outside :
        out.not_in_budget
        ≡ total (map (kept_line (outside ids)) (month_lines book.lines user from to))
    unfolding month_totals
    spent_outside =
        (add_spends-totals laws ids groups _).1
        ∙ ap (λ q. d.add q (total (map (kept (outside ids)) groups)))
            (add_views-spent laws (month_views book user on) _).1
        ∙ nought_add laws _
        ∙ kept-spend_all laws (outside ids) book.lines user from to

    spent_in_all : out.total_spending ≡ spent_on (counts_in user from to) book.lines
    unfolding month_totals
    spent_in_all =
        (add_spends-totals laws ids groups _).0
        ∙ ap (λ q. d.add q (total (map (λ g. g.1) groups)))
            (add_views-spent laws (month_views book user on) _).2
        ∙ nought_add laws _
        ∙ kept-spend_all laws (λ _. true) book.lines user from to

    listed_outside : total (map (λ g. g.1) out.unbudgeted) ≡ out.not_in_budget
    unfolding month_totals
    listed_outside =
        add_spends-unbudgeted laws ids groups _
        ∙ ap
            (λ (u : List (Option ℕ × D)).
              d.add (total (map (λ g. g.1) u)) (total (map (kept (outside ids)) groups)))
            (add_views-unbudgeted laws (month_views book user on) _)
        ∙ nought_add laws _
        ∙ kept-spend_all laws (outside ids) book.lines user from to
        ∙ sym spent_outside

    -- For a day that is not after today the summary of its month adds up: what its budgets spent and
    -- what was spent outside them is the spending of the month, which is the sum over its lines, and
    -- the amounts outside, by category, sum to what was spent outside. Category ids are unique, and
    -- no two active budgets share their owner, category and period.
    pub month_summary_adds_up :
        (now : ℕ)
        → on ≤ now
        → (s : BudgetMonthSummary D) × (month_summary book now user on ≡ ok s)
          × (d.add s.spent_in_budgets s.not_in_budget ≡ s.total_spending)
          × (s.total_spending ≡ spent_on (counts_in user from to) book.lines)
          × (total (map (λ g. g.1) s.unbudgeted) ≡ s.not_in_budget)
    unfolding month_summary
    month_summary_adds_up now h = (
      out,
      rw early refl,
      ap (λ x. d.add x out.not_in_budget) spent_inside
          ∙ ap (d.add _) spent_outside
          ∙ split_lines ids (month_lines book.lines user from to)
          ∙ sym spent_in_all,
      spent_in_all,
      listed_outside,
    )
      where
        early : ltb on (now + 1) ≡ true
        early = ground arith
