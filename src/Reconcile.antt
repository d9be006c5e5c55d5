-- ===== src/Reconcile.antt =====
-- Reconciliation: backend/internal/service/reconcile.go with the ledger queries it makes, in
-- backend/internal/repository/transaction_repo.go and balance_observation_repo.go. A time is a
-- number of seconds and a date a number of days, both in UTC.
pub mod Folds
pub mod Anchors
pub mod Balances
mod Repeat
mod Rows
mod Tests
use offbook.Common.{
  ℕ, suc, ◌*◌, ◌/◌, Bool, true, false, not, ◌&&◌, ◌||◌, Option, none, some, List, [], ◌∷◌, ◌++◌,
  map, String, ltb, leb, ◌==◌, if◌then◌else◌, any, select, Decimal, sub, is_zero, total,
}
use offbook.Model.{Transaction, Kind, opening_balance, adjustment}

abbrev pub seconds_per_day : ℕ
seconds_per_day = 86400

-- The calendar day of a time, and the first second of a day.
abbrev pub day_of : ℕ → ℕ
day_of t = t / seconds_per_day

abbrev pub day_start : ℕ → ℕ
day_start n = n * seconds_per_day

-- An `AccountBalanceObservation` row.
pub record Observation (D : Type 0) : Type 0 where
  pub id : ℕ
  pub user_id : ℕ
  pub account_id : ℕ
  pub asset_id : ℕ
  pub observed_quantity : D
  pub as_of : ℕ
  pub source : String
  pub import_job_id : Option ℕ

-- The live transactions, the observations, and the next number of each table's sequence.
pub record Ledger (D : Type 0) : Type 0 where
  pub transactions : List (Transaction D)
  pub observations : List (Observation D)
  pub next_transaction_id : ℕ
  pub next_observation_id : ℕ

pub record InsertedRow (D : Type 0) : Type 0 where
  pub date : ℕ
  pub amount : D

abbrev pub is_opening : Kind → Bool
is_opening opening_balance = true
is_opening _ = false

-- `kind IN (opening_balance, adjustment)`
abbrev pub is_reconciling : Kind → Bool
is_reconciling opening_balance = true
is_reconciling adjustment = true
is_reconciling _ = false

-- `ORDER BY ... ASC LIMIT 1`
abbrev pub earliest : List ℕ → Option ℕ
earliest [] = none
earliest (x ∷ xs) = elim (earliest xs) [ none ↦ some x | some y ↦ some (if leb x y then x else y) ]

-- The rows of one user, account and asset.
pub record PositionKey : Type 0 where
  pub user_id : ℕ
  pub account_id : ℕ
  pub asset_id : ℕ

module _ {D : Type 0} where
  abbrev pub is_at : PositionKey → Transaction D → Bool
  is_at k t =
      (t.user_id == k.user_id) && (t.account_id == k.account_id) && (t.asset_id == k.asset_id)

  abbrev pub observed_at : PositionKey → Observation D → Bool
  observed_at k o =
      (o.user_id == k.user_id) && (o.account_id == k.account_id) && (o.asset_id == k.asset_id)

  pub has_reconciling_txn : PositionKey → List (Transaction D) → Bool
  has_reconciling_txn k = any (λ t. is_at k t && is_reconciling t.kind)

  -- Rows dated after the day `after`.
  pub earliest_reconciling_after : PositionKey → ℕ → List (Transaction D) → Option ℕ
  earliest_reconciling_after k after rows = earliest (
      map (λ t. t.transaction_date)
        (select (λ t. is_at k t && is_reconciling t.kind && ltb after t.transaction_date) rows))

  -- Observations on a calendar day behind that of the time `after`.
  pub earliest_after : PositionKey → ℕ → List (Observation D) → Option ℕ
  earliest_after k after rows = earliest (
      map (λ o. o.as_of)
        (select (λ o. observed_at k o && ltb (day_of after) (day_of o.as_of)) rows))

  -- `Create` and `Insert`: the row with the next number of its sequence.
  abbrev pub create : (ℕ → Transaction D) → Ledger D → Ledger D
  create row l = record l {
    transactions = l.transactions ++ (row l.next_transaction_id ∷ []);
    next_transaction_id = suc l.next_transaction_id;
  }

  abbrev pub insert_observation : (ℕ → Observation D) → Ledger D → Ledger D
  insert_observation row l = record l {
    observations = l.observations ++ (row l.next_observation_id ∷ []);
    next_observation_id = suc l.next_observation_id;
  }

  -- A row that reconciliation writes; `source` is "system", and the fields that it does not set
  -- are empty.
  abbrev pub system_row : PositionKey → Kind → D → String → ℕ → ℕ → Option ℕ → ℕ → Transaction D
  system_row k kind amount description date observation job id = record {
    id = id;
    user_id = k.user_id;
    account_id = k.account_id;
    asset_id = k.asset_id;
    category_id = none;
    kind = kind;
    amount = amount;
    description = some description;
    description_clean = none;
    merchant_name = none;
    transaction_date = date;
    source = "system";
    categorization_method = none;
    categorization_rule_id = none;
    is_transfer = false;
    transfer_pair_id = none;
    caused_by_observation_id = some observation;
    import_job_id = job;
    reviewed_at = none;
    hidden_at = none;
    merchant_edited_at = none;
    tags = [];
  }

-- `next`, with the date of a reconciling row in its place where that is earlier.
pub next_anchor : Option ℕ → Option ℕ → Option ℕ
next_anchor observed none = observed
next_anchor none (some day) = some (day_start day)
next_anchor (some time) (some day) = some (if ltb (day_start day) time then day_start day else time)

module _ {D : Type 0} ⦃d : Decimal D⦄ where
  -- Σ amount over the rows that pass a test.
  abbrev pub sum_where : (Transaction D → Bool) → List (Transaction D) → D
  sum_where p rows = total (map (λ t. t.amount) (select p rows))

  unfoldable pub fold_quantity : PositionKey → List (Transaction D) → D
  fold_quantity k rows = sum_where (is_at k) rows

  -- Opening balances count on every day.
  pub fold_quantity_through : PositionKey → ℕ → List (Transaction D) → D
  fold_quantity_through k through rows =
      sum_where (λ t. is_at k t && (is_opening t.kind || leb t.transaction_date through)) rows

  -- The fold that a report is compared with, and whether the report is backdated.
  pub reconcile_fold : ℕ → PositionKey → ℕ → List (Transaction D) → D × Bool
  reconcile_fold now k as_of rows =
      if not (ltb as_of (day_start (day_of now)))
      then (fold_quantity k rows, false)
      else (fold_quantity_through k (day_of as_of) rows, true)

  -- The loop over `inserted`.
  abbrev pub shift_by : ℕ → D → List (InsertedRow D) → D
  shift_by next_day shift [] = shift
  shift_by next_day shift (r ∷ rest) =
      shift_by next_day (if not (ltb next_day (day_of r.date)) then d.add shift r.amount else shift)
        rest

  pub offset_at_next_anchor :
      PositionKey → D → List (InsertedRow D) → ℕ → ℕ → Option ℕ → Ledger D → Ledger D
  offset_at_next_anchor k delta inserted as_of obs_id job l =
      let observed = earliest_after k as_of l.observations in
      let reconciled = earliest_reconciling_after k (day_of as_of) l.transactions in
      elim (next_anchor observed reconciled) [
        | none ↦ l
        | some next ↦
            let next_day = day_of next in
            let shift = shift_by next_day delta inserted in
            if is_zero shift
            then l
            else create
                (system_row k adjustment (d.neg shift)
                  "Reconciliation adjustment (offsets an earlier balance correction)" next_day
                  obs_id job)
                l
      ]

  abbrev pub reconciling_row : PositionKey → Bool → D → ℕ → ℕ → Option ℕ → ℕ → Transaction D
  reconciling_row k has_anchor delta as_of obs_id job =
      if has_anchor
      then system_row k adjustment delta "Reconciliation adjustment" (day_of as_of) obs_id job
      else system_row k opening_balance delta "Opening balance" (day_of as_of) obs_id job

  pub reconcile_position_for_job :
      ℕ
      → PositionKey
      → D
      → ℕ
      → String
      → Option ℕ
      → List (InsertedRow D)
      → Ledger D
      → Option (Transaction D) × Ledger D
  reconcile_position_for_job now k reported as_of source job inserted l =
      let obs_id = l.next_observation_id in
      let observed =
        insert_observation
          (λ id. record {
            id = id;
            user_id = k.user_id;
            account_id = k.account_id;
            asset_id = k.asset_id;
            observed_quantity = reported;
            as_of = as_of;
            source = source;
            import_job_id = job;
          })
          l in
      let (fold, historical) = reconcile_fold now k as_of observed.transactions in
      let delta = sub reported fold in
      if is_zero delta
      then (
        none,
        if historical
            then offset_at_next_anchor k delta inserted as_of obs_id job observed
            else observed,
      )
      else let row =
          reconciling_row k (has_reconciling_txn k observed.transactions) delta as_of obs_id job in
        let written = create row observed in
        (
          some (row observed.next_transaction_id),
          if historical
              then offset_at_next_anchor k delta inserted as_of obs_id job written
              else written,
        )

  pub reconcile_position :
      ℕ → PositionKey → D → ℕ → String → Ledger D → Option (Transaction D) × Ledger D
  reconcile_position now k reported as_of source l =
      reconcile_position_for_job now k reported as_of source none [] l
