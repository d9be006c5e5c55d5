-- ===== src/Budgets/Tests.antt =====
-- Budgets of user 7 on concrete days of 2026, in cents: January starts on day 739616, February on
-- day 739647.
use offbook.Common.{
  ℕ, ◌≡◌, ◌<◌, ◌≤◌, refl, sym, ap, ◌∙◌, subst, some, none, true, false, List, [], ◌∷◌, map, ok,
  arith, In, Option, inl, inr, is_negative, total, str_eq,
}
use offbook.Common.Integers.{ℤ, pos, negsuc, add_ℤ, integers-IsDecimal, integer_decimal}
use offbook.Common.Sort.{sort, insert}
use offbook.Calendar.{
  month_start, month_of, year_of, year_start, leap_day, days_before, month_in_year, add_months,
  sub_months,
}
use offbook.Calendar.Spans.{index, next_start, prev_start}
use offbook.Model.{flow}
use offbook.Plans.{Category, Budget, BudgetAmount}
use offbook.Samples.{plain_strings}
use offbook.Budgets.{
  SpendLine, Book, span_of, window_start, period_window, counts_in, spent_on, spend_by_period,
}
use offbook.Budgets.Limits.{
  BudgetLimitChange, amount_history, limit_at, record_change, upsert_budget_amount, pin_previous,
  step_back,
}
use offbook.Budgets.Limits.Kept.{IsHistory, record_change_keeps_past}
use offbook.Budgets.Rollover.{carryover_with, roll, walk_back}
use offbook.Budgets.Rollover.Rolled.{carried, carryover-eq-carried}
use offbook.Budgets.Rollover.Bounds.{carryover_fine}
use offbook.Budgets.Summary.{BudgetMonthSummary, month_summary}
use offbook.Budgets.Summary.Months.{month_summary_adds_up}
use offbook.Budgets.Editing.{CreateBudgetInput}

abbrev categories : List Category
categories =
    record { id = 1; user_id = none; parent_id = none; name = "Food"; slug = "food" }
    ∷ record { id = 2; user_id = none; parent_id = some 1; name = "Cafes"; slug = "cafes" }
    ∷ record { id = 3; user_id = some 7; parent_id = none; name = "Fun"; slug = "fun" }
    ∷ []

-- A budget for food that rolls over, and one for fun.
abbrev food : Budget ℤ
food = record {
  id = 1;
  user_id = some 7;
  household_id = none;
  category_id = 1;
  period = "monthly";
  amount = pos 100;
  rollover = true;
  rollover_start = pos 10;
  is_active = true;
  created_at = 739620;
}

abbrev fun : Budget ℤ
fun = record {
  id = 2;
  user_id = some 7;
  household_id = none;
  category_id = 3;
  period = "monthly";
  amount = pos 50;
  rollover = false;
  rollover_start = pos 0;
  is_active = true;
  created_at = 739620;
}

abbrev line : Option ℕ → ℤ → ℕ → SpendLine ℤ
line category amount day = record {
  user_id = 7;
  category_id = category;
  is_transfer = false;
  kind = flow;
  transaction_date = day;
  amount = amount;
  is_refund = false;
}

-- A cafe in January; food, fun and something uncategorized in February.
abbrev lines : List (SpendLine ℤ)
lines =
    line (some 2) (negsuc 29) 739620
    ∷ line (some 1) (negsuc 89) 739650
    ∷ line (some 3) (negsuc 19) 739651
    ∷ line none (negsuc 4) 739652
    ∷ []

abbrev amounts : List (BudgetAmount ℤ)
amounts =
    record { budget_id = 1; amount = pos 100; effective_from = 739616 }
    ∷ record { budget_id = 2; amount = pos 50; effective_from = 739616 }
    ∷ []

abbrev budget_book : Book ℤ
budget_book = record {
  categories = categories;
  budgets = food ∷ fun ∷ [];
  amounts = amounts;
  lines = lines;
  next_budget_id = 3;
}

-- 1 January 2026, and 1 March 2028 behind a 29 February.
calendar : ((month_start 24300 ≡ 739616) × (month_start 24326 ≡ 740406)) × (year_of 739616 ≡ 2025)
unfolding month_start year_start year_of days_before leap_day
calendar = ((refl, refl), refl)

carryover-eq-carried_example :
    carryover_with lines 7 food (1 ∷ 2 ∷ []) amounts (window_start (span_of food.period) 739680)
    ≡ some (
        carried lines 7 food
          (1 ∷ 2 ∷ [])
          amounts
          (index (span_of food.period) 739620)
          (index (span_of food.period) 739680))
carryover-eq-carried_example = carryover-eq-carried lines 7 food (1 ∷ 2 ∷ []) amounts 739680

-- 10 + 100 - 30 in January and 80 + 100 - 90 in February.
into_march : carryover_with lines 7 food (1 ∷ 2 ∷ []) amounts 739675 ≡ some (pos 90)
unfolding carryover_with roll walk_back span_of window_start spend_by_period limit_at step_back
    month_start month_of year_start year_of leap_day days_before month_in_year next_start prev_start
    add_months sub_months str_eq
into_march = refl

carryover_fine_example :
    (carry : ℤ) × (carryover_with lines 7 food
        (1 ∷ 2 ∷ [])
        amounts
        (window_start (span_of food.period) 739680)
      ≡ some carry)
    × (is_negative carry ≡ false)
carryover_fine_example =
    carryover_fine integers-IsDecimal lines 7 food (1 ∷ 2 ∷ []) amounts 739680 refl

month_summary_adds_up_example :
    (s : BudgetMonthSummary ℤ) × (month_summary budget_book 739660 7 739650 ≡ ok s)
    × (add_ℤ s.spent_in_budgets s.not_in_budget ≡ s.total_spending)
    × (s.total_spending
        ≡ spent_on
            (counts_in 7 (period_window "monthly" 739650).0 (period_window "monthly" 739650).1)
            lines)
    × (total (map (λ g. g.1) s.unbudgeted) ≡ s.not_in_budget)
month_summary_adds_up_example =
    month_summary_adds_up integers-IsDecimal budget_book 7 739650
      (
        ((λ e. absurd (omega (arith, e))), ((λ e. absurd (omega (arith, e))), tt)),
        (((λ e. absurd (omega (arith, e))), tt), (tt, tt)),
      )
      ((refl, tt), (tt, tt)) 739660 (omega arith)

-- February's limit rises from 100 to 120.
abbrev change : BudgetLimitChange ℤ
change = record { from = 739647; prev_from = 739616; prev = pos 100 }

abbrev first_entry : BudgetAmount ℤ
first_entry = record { budget_id = 1; amount = pos 100; effective_from = 739616 }

one_entry : amount_history amounts 1 ≡ first_entry ∷ []
unfolding amount_history sort insert
one_entry = refl

is_first : (x : BudgetAmount ℤ) → In x (amount_history amounts 1) → x ≡ first_entry
is_first x m = elim (subst (In x) one_entry m) [ inl q ↦ q | inr z ↦ absurd z ]

history : IsHistory (amount_history amounts 1) 739647 (pos 100)
history = record {
  through = λ x m. rw (is_first x m) (omega arith);
  one = λ x y m n e. is_first x m ∙ sym (is_first y n);
  latest = λ x m top. ap (λ r. r.amount) (is_first x m);
}

record_change_keeps_past_example :
    IsHistory (amount_history (record_change 1 (pos 120) (some change) amounts) 1) 739647 (pos 120)
    × ((day : ℕ)
        → (739647 ≤ day
            → limit_at
                (amount_history (record_change 1 (pos 120) (some change) amounts) 1)
                (pos 120)
                day
              ≡ pos 120)
          × (day < 739647
              → limit_at
                  (amount_history (record_change 1 (pos 120) (some change) amounts) 1)
                  (pos 120)
                  day
                ≡ limit_at (amount_history amounts 1) (pos 100) day))
record_change_keeps_past_example =
    record_change_keeps_past 1 amounts change (pos 120) (omega arith) history

abbrev empty : Book ℤ
empty = record {
  categories = categories;
  budgets = [];
  amounts = [];
  lines = [];
  next_budget_id = 1;
}

abbrev input : CreateBudgetInput ℤ
input = record {
  category_id = 1;
  period = "monthly";
  amount = pos 100;
  rollover = some true;
  rollover_start = some (pos 10);
  is_active = none;
}

abbrev with_food : Book ℤ
with_food = record empty { budgets = food ∷ []; amounts = first_entry ∷ []; next_budget_id = 2 }

-- A weekly limit of 100 from 19 January turns into a monthly one of 200 in January, and into one of
-- 300 in March: February had 200 until then, and 100 after.
abbrev weekly : List (BudgetAmount ℤ)
weekly = record { budget_id = 1; amount = pos 100; effective_from = 739634 } ∷ []

abbrev monthly : List (BudgetAmount ℤ)
monthly =
    record_change 1 (pos 200) (some (record { from = 739616; prev_from = 739585; prev = pos 100 }))
      weekly

abbrev raised : List (BudgetAmount ℤ)
raised =
    record_change 1 (pos 300) (some (record { from = 739675; prev_from = 739647; prev = pos 200 }))
      monthly

february_forgotten :
    (limit_at (amount_history monthly 1) (pos 200) 739647 ≡ pos 200)
    × (limit_at (amount_history raised 1) (pos 300) 739647 ≡ pos 100)
unfolding limit_at step_back amount_history record_change pin_previous upsert_budget_amount sort
    insert
february_forgotten = (refl, refl)
