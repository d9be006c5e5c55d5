-- ===== src/Reconcile/Balances.antt =====
-- What the ledger adds up to after a reconciliation.
use offbook.Common.{
  ℕ, ◌≡◌, ◌∙◌, refl, sym, inl, inr, ◌≤◌, ◌<◌, Bool, true, false, ◌&&◌, ◌||◌, Option, none, some,
  List, String, arith, ltb, leb, if◌then◌else◌, Bool-cases, Option-cases, if-same, Decimal,
  IsDecimal, sub, add_sub, sub-add, is_zero, eq_of_is_zero,
}
use offbook.Model.{Transaction, adjustment}
use offbook.Reconcile.{
  PositionKey, InsertedRow, Ledger, is_at, is_opening, sum_where, create, insert_observation,
  system_row, shift_by, offset_at_next_anchor, day_of, fold_quantity, fold_quantity_through,
  reconcile_fold, reconciling_row, has_reconciling_txn, reconcile_position_for_job,
}
use offbook.Reconcile.Folds.{
  if-offset, fold_current, fold_backdated, sum_where-snoc, offset_none, offset_some, shift_by_add,
}
use offbook.Reconcile.Anchors.{
  next, next_anchor_later, earliest_after-snoc, earliest_reconciling_after-snoc,
}

module _ {D : Type 0} ⦃d : Decimal D⦄ (laws : IsDecimal D) (now : ℕ) (k : PositionKey)
    (reported : D) (as_of : ℕ) (source : String) (job : Option ℕ) (inserted : List (InsertedRow D))
    (l : Ledger D) where
  -- The ledger with the observation, and with the reconciling row behind it.
  abbrev pub observed : Ledger D
  observed =
      insert_observation
        (λ id. record {
          id = id;
          user_id = k.user_id;
          account_id = k.account_id;
          asset_id = k.asset_id;
          observed_quantity = reported;
          as_of = as_of;
          source = source;
          import_job_id = job;
        })
        l

  abbrev pub delta : D
  delta = sub reported (reconcile_fold now k as_of l.transactions).0

  abbrev row : ℕ → Transaction D
  row =
      reconciling_row k (has_reconciling_txn k l.transactions) delta as_of l.next_observation_id job

  abbrev pub written : Ledger D
  written = if is_zero delta then observed else create row observed

  abbrev pub after : Ledger D
  after = (reconcile_position_for_job now k reported as_of source job inserted l).1

  abbrev anchored : Ledger D
  anchored = offset_at_next_anchor k delta inserted as_of l.next_observation_id job written

  after_form : after ≡ (if (reconcile_fold now k as_of l.transactions).1 then anchored else written)
  unfolding reconcile_position_for_job
  after_form =
      if-offset (is_zero delta) (reconcile_fold now k as_of l.transactions).1 none
        (some (row l.next_transaction_id))
        (offset_at_next_anchor k delta inserted as_of l.next_observation_id job) observed
        (create row observed)

  amount : (id : ℕ) → (row id).amount ≡ delta
  amount id = elim (Bool-cases (has_reconciling_txn k l.transactions)) [
    | inl e ↦ rw e refl
    | inr e ↦ rw e refl
  ]

  sum-written :
      (p : Transaction D → Bool) (b : Bool)
      → ((id : ℕ) → p (row id) ≡ b)
      → sum_where p written.transactions
        ≡ (if b then d.add (sum_where p l.transactions) delta else sum_where p l.transactions)
  sum-written p b q = elim (Bool-cases (is_zero delta)) [
    | inl z ↦ rw (z, eq_of_is_zero laws _ z, laws.add_nought) (sym (if-same b _))
    | inr z ↦ rw (z, sum_where-snoc laws p l.transactions, q, amount) refl
  ]

  -- The row passes the tests on its position, and those on its day.
  at-row : (id : ℕ) → is_at k (row id) ≡ true
  at-row id = elim (Bool-cases (has_reconciling_txn k l.transactions)) [
    | inl e ↦ rw e (ground arith)
    | inr e ↦ rw e (ground arith)
  ]

  through-row :
      (day : ℕ)
      → day_of as_of ≤ day
      → (id : ℕ)
      → (is_at k (row id) && (is_opening (row id).kind || leb (row id).transaction_date day)) ≡ true
  through-row day h id = elim (Bool-cases (has_reconciling_txn k l.transactions)) [
    | inl e ↦ rw e (ground arith)
    | inr e ↦ rw e (ground arith)
  ]

  after_current : day_of now ≤ day_of as_of → after ≡ written
  after_current h =
      after_form
      ∙ (λ i. if (fold_current now as_of k l.transactions h i).1 then anchored else written)

  after_backdated : day_of as_of < day_of now → after ≡ anchored
  after_backdated h =
      after_form
      ∙ (λ i. if (fold_backdated now as_of k l.transactions h i).1 then anchored else written)

  -- A report for today or later: the whole ledger adds up to what was reported.
  pub reconcile_current : day_of now ≤ day_of as_of → fold_quantity k after.transactions ≡ reported
  unfolding fold_quantity
  reconcile_current h =
      (λ i. fold_quantity k (after_current h i).transactions)
      ∙ sum-written (is_at k) true at-row
      ∙ (λ i.
          d.add (fold_quantity k l.transactions)
            (sub reported (fold_current now as_of k l.transactions h i).0))
      ∙ add_sub laws (fold_quantity k l.transactions) reported

  -- The anchor behind the report, as the ledger had it before.
  abbrev pub anchor : Option ℕ
  anchor = next k as_of l

  date : (id : ℕ) → (row id).transaction_date ≡ day_of as_of
  date id = elim (Bool-cases (has_reconciling_txn k l.transactions)) [
    | inl e ↦ rw e refl
    | inr e ↦ rw e refl
  ]

  anchor-written : next k as_of written ≡ anchor
  anchor-written = elim (Bool-cases (is_zero delta)) [
    | inl z ↦ rw (z, earliest_after-snoc k as_of l.observations) refl
    | inr z ↦
        rw
          (
            z,
            earliest_after-snoc k as_of l.observations,
            earliest_reconciling_after-snoc k as_of l.transactions (row l.next_transaction_id)
                (date l.next_transaction_id),
          )
          refl
  ]

  offset-unread :
      (n day : ℕ)
      → ltb day (day_of n) ≡ true
      → (amount : D) (text : String) (id : ℕ)
      → (let t = system_row k adjustment amount text (day_of n) l.next_observation_id job id in
          is_at k t && (is_opening t.kind || leb t.transaction_date day))
        ≡ false
  offset-unread n day h amount text id = ground arith

  offset-read :
      (n day : ℕ)
      → day_of n ≤ day
      → (amount : D) (text : String) (id : ℕ)
      → (let t = system_row k adjustment amount text (day_of n) l.next_observation_id job id in
          is_at k t && (is_opening t.kind || leb t.transaction_date day))
        ≡ true
  offset-read n day h amount text id = ground arith

  through-written :
      (day : ℕ)
      → day_of as_of ≤ day
      → fold_quantity_through k day written.transactions
        ≡ d.add (fold_quantity_through k day l.transactions) delta
  unfolding fold_quantity_through
  through-written day h = sum-written _ true (through-row day h)

  untouched :
      fold_quantity_through k (day_of as_of) anchored.transactions
      ≡ fold_quantity_through k (day_of as_of) written.transactions
  unfolding fold_quantity_through
  untouched = elim (Option-cases (next k as_of written)) [
    | inl e ↦ rw (offset_none laws k delta inserted as_of l.next_observation_id job written e) refl
    | inr (n, e) ↦
        offset_some laws k delta inserted as_of l.next_observation_id job written _ false n e
          (offset-unread n (day_of as_of) (ground (arith, next_anchor_later k as_of written n e)))
  ]

  -- A report for a day before today: the ledger through that day adds up to what was reported.
  pub reconcile_backdated :
      day_of as_of < day_of now
      → fold_quantity_through k (day_of as_of) after.transactions ≡ reported
  reconcile_backdated h =
      (λ i. fold_quantity_through k (day_of as_of) (after_backdated h i).transactions)
      ∙ untouched
      ∙ through-written (day_of as_of) (omega arith)
      ∙ (λ i.
          d.add (fold_quantity_through k (day_of as_of) l.transactions)
            (sub reported (fold_backdated now as_of k l.transactions h i).0))
      ∙ add_sub laws _ reported

  -- A report for a day before today, with a later anchor: from the anchor's day on the ledger adds
  -- up to what it did, less what the caller inserted through that day.
  pub reconcile_pins :
      (n day : ℕ)
      → day_of as_of < day_of now
      → anchor ≡ some n
      → day_of n ≤ day
      → fold_quantity_through k day after.transactions
        ≡ sub (fold_quantity_through k day l.transactions) (shift_by (day_of n) d.nought inserted)
  unfolding fold_quantity_through
  reconcile_pins n day h e later =
      (λ i. fold_quantity_through k day (after_backdated h i).transactions)
      ∙ moved
      ∙ (λ i. sub (through-written day before i) (shift_by_add laws (day_of n) delta inserted i))
      ∙ sub-add laws _ delta _
    where
      before : day_of as_of ≤ day
      before = omega (arith, next_anchor_later k as_of l n e)

      moved :
          fold_quantity_through k day anchored.transactions
          ≡ sub
              (fold_quantity_through k day written.transactions)
              (shift_by (day_of n) delta inserted)
      moved =
          offset_some laws k delta inserted as_of l.next_observation_id job written _ true n
            (anchor-written ∙ e) (offset-read n day later)
