-- ===== src/Goals/Tests.antt =====
-- A trip that user 7 saves for, in cents.
use offbook.Common.{◌≡◌, refl, some, none, List, [], ◌∷◌, ok, err, str_eq}
use offbook.Common.Integers.{ℤ, pos, negsuc, integer_decimal}
use offbook.Samples.{plain_strings}
use offbook.Plans.{user_owner}
use offbook.Goals.{
  SavingsGoal, SavingsGoalContribution, GoalBook, CreateGoalInput, savings_goal_not_found,
  goal_account_mismatch, get_goal, create_goal, validate, create_savings_goal, add_contribution,
  contribute,
}
use offbook.Goals.Balanced.{IsBalanced}
use offbook.Goals.Steps.{here, next, created, contributed, reachable-IsBalanced}

abbrev empty : GoalBook ℤ
empty = record {
  goals = [];
  contributions = [];
  accounts = record { id = 10; user_id = 7 } ∷ [];
  next_goal_id = 1;
}

abbrev trip : ℤ → SavingsGoal ℤ
trip amount = record {
  id = 1;
  user_id = some 7;
  household_id = none;
  name = "Trip";
  target_amount = pos 900;
  current_amount = amount;
  target_date = none;
  account_id = some 10;
}

abbrev planned : CreateGoalInput ℤ
planned = record {
  name = "Trip";
  target_amount = pos 900;
  target_date = none;
  account_id = some 10;
}

abbrev entry : ℤ → ℤ → SavingsGoalContribution ℤ
entry amount balance = record {
  goal_id = 1;
  user_id = some 7;
  amount = amount;
  balance_after = balance;
}

abbrev with_trip : ℤ → List (SavingsGoalContribution ℤ) → GoalBook ℤ
with_trip amount rows = record empty {
  goals = trip amount ∷ [];
  contributions = rows;
  next_goal_id = 2;
}

abbrev twice : List (SavingsGoalContribution ℤ)
twice = entry (pos 50) (pos 50) ∷ entry (negsuc 19) (pos 30) ∷ []

trip_created :
    create_savings_goal (user_owner 7) planned empty ≡ ok (trip (pos 0), with_trip (pos 0) [])
unfolding create_savings_goal create_goal validate str_eq
trip_created = refl

deposit :
    contribute (user_owner 7) 1 (pos 50) 7 (with_trip (pos 0) [])
    ≡ ok (trip (pos 50), with_trip (pos 50) (entry (pos 50) (pos 50) ∷ []))
unfolding contribute add_contribution get_goal
deposit = refl

withdrawal :
    contribute (user_owner 7) 1 (negsuc 19) 7 (with_trip (pos 50) (entry (pos 50) (pos 50) ∷ []))
    ≡ ok (trip (pos 30), with_trip (pos 30) twice)
unfolding contribute add_contribution get_goal
withdrawal = refl

-- Another user's goal is not found, and another user's account is no link.
refused :
    (contribute (user_owner 8) 1 (pos 50) 8 (with_trip (pos 0) []) ≡ err savings_goal_not_found)
    × (create_savings_goal (user_owner 8) planned empty ≡ err goal_account_mismatch)
unfolding contribute add_contribution get_goal create_savings_goal create_goal validate str_eq
refused = (refl, refl)

reachable-IsBalanced_example : IsBalanced (with_trip (pos 30) twice)
reachable-IsBalanced_example =
    reachable-IsBalanced
      (next
        (next (next here (created (user_owner 7) planned trip_created))
          (contributed (user_owner 7) 1 (pos 50) 7 deposit))
        (contributed (user_owner 7) 1 (negsuc 19) 7 withdrawal))
      (record { distinct = tt; numbered = tt; past = tt; balanced = tt; chained = tt })
