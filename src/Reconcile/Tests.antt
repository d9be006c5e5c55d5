-- ===== src/Reconcile/Tests.antt =====
-- Reconciliations on concrete ledgers: a flow of 100 on day 10, a balance observed on day 20.
use offbook.Common.{◌≡◌, ◌≤◌, refl, none, List, [], ◌∷◌, map, arith}
use offbook.Common.Integers.{ℤ, pos, negsuc, integers-IsDecimal, integer_decimal}
use offbook.Samples.{row}
use offbook.Reconcile.{
  PositionKey, Ledger, InsertedRow, day_start, fold_quantity, fold_quantity_through, reconcile_fold,
  offset_at_next_anchor, next_anchor, earliest_reconciling_after, has_reconciling_txn,
  earliest_after, reconcile_position, reconcile_position_for_job,
}
use offbook.Reconcile.Balances.{reconcile_current, reconcile_backdated, reconcile_pins}
use offbook.Reconcile.Repeat.{reconcile_idem}
use offbook.Reconcile.Rows.{reconcile_grows, openings, IsReconciling, Appends}

abbrev cash : PositionKey
cash = record { user_id = 7; account_id = 1; asset_id = 1 }

abbrev ledger : Ledger ℤ
ledger = record {
  transactions = row 1 1 (pos 100) 10 ∷ [];
  observations =
      (record {
        id = 1;
        user_id = 7;
        account_id = 1;
        asset_id = 1;
        observed_quantity = pos 100;
        as_of = day_start 20;
        source = "plaid";
        import_job_id = none;
      })
      ∷ [];
  next_transaction_id = 2;
  next_observation_id = 2;
}

abbrev statement : List (InsertedRow ℤ)
statement = (record { date = day_start 10; amount = pos 30 }) ∷ []

abbrev after : Ledger ℤ
after =
    (reconcile_position_for_job (day_start 30) cash (pos 150) (day_start 12) "statement" none
      statement ledger).1

amounts : map (λ t. t.amount) after.transactions ≡ pos 100 ∷ pos 50 ∷ negsuc 79 ∷ []
unfolding reconcile_position_for_job reconcile_fold fold_quantity_through offset_at_next_anchor
    next_anchor earliest_reconciling_after has_reconciling_txn earliest_after
amounts = refl

reconcile_current_example :
    fold_quantity cash
      (reconcile_position_for_job
        (day_start 30)
        cash
        (pos 150)
        (day_start 30)
        "plaid"
        none
        []
        ledger).1.transactions
    ≡ pos 150
reconcile_current_example =
    reconcile_current integers-IsDecimal (day_start 30) cash (pos 150) (day_start 30) "plaid" none
      [] ledger (omega arith)

reconcile_backdated_example : fold_quantity_through cash 12 after.transactions ≡ pos 150
reconcile_backdated_example =
    reconcile_backdated integers-IsDecimal (day_start 30) cash (pos 150) (day_start 12) "statement"
      none statement ledger (omega arith)

reconcile_pins_example : fold_quantity_through cash 25 after.transactions ≡ pos 70
unfolding fold_quantity_through next_anchor earliest_reconciling_after earliest_after
reconcile_pins_example =
    reconcile_pins integers-IsDecimal (day_start 30) cash (pos 150) (day_start 12) "statement" none
      statement ledger (day_start 20) 25 (omega arith) refl (omega arith)

reconcile_idem_example :
    (reconcile_position (day_start 30) cash (pos 150) (day_start 12) "manual" after).1.transactions
    ≡ after.transactions
reconcile_idem_example =
    (reconcile_idem integers-IsDecimal (day_start 30) cash (pos 150) (day_start 12) "manual"
      "statement" none statement ledger).1

reconcile_grows_example :
    Appends (IsReconciling cash 2 none) ledger.transactions after.transactions
    × (openings cash ledger.transactions ≤ 1 → openings cash after.transactions ≤ 1)
reconcile_grows_example =
    reconcile_grows (day_start 30) cash (pos 150) (day_start 12) "statement" none statement ledger
