-- ===== src/Reconcile/Rows.antt =====
-- Which rows a reconciliation writes.
use offbook.Common.{
  ℕ, ◌+◌, ◌≤◌, ◌≡◌, ◌∙◌, refl, sym, ap, if-P, sub, inl, inr, subst, Bool, true, false, not, ◌&&◌,
  Option, none, some, List, [], ◌∷◌, ◌++◌, String, arith, if◌then◌else◌, weigh, All, All-append,
  All-map, Bool-cases, Option-cases, Decimal, is_zero,
}
use mathlib.Core.List.{append-nil, append_assoc}
use offbook.Model.{Transaction, Kind, opening_balance, adjustment}
use offbook.Reconcile.{
  PositionKey, InsertedRow, Ledger, create, insert_observation, is_at, is_opening, is_reconciling,
  system_row, shift_by, offset_at_next_anchor, day_of, reconciling_row, has_reconciling_txn,
  reconcile_fold, reconcile_position_for_job,
}
use offbook.Reconcile.Folds.{if-offset}
use offbook.Reconcile.Anchors.{next}

module _ {D : Type 0} where
  -- A row of the position that reconciliation wrote for an observation and a job.
  pub record IsReconciling (k : PositionKey) (observation : ℕ) (job : Option ℕ) (t : Transaction D)
      : Type 0 where
    pub at_position : is_at k t ≡ true
    pub reconciling : is_reconciling t.kind ≡ true
    pub caused : t.caused_by_observation_id ≡ some observation
    pub of_job : t.import_job_id ≡ job

  -- The rows are those of before with some behind them that meet a predicate.
  abbrev pub Appends :
      (Transaction D → Type 0) → List (Transaction D) → List (Transaction D) → Type 0
  Appends P before after = (extra : List (Transaction D)) × (after ≡ before ++ extra) × All P extra

  -- The opening balances of a position.
  abbrev pub openings : PositionKey → List (Transaction D) → ℕ
  openings k rows = weigh (λ t. if is_at k t && is_opening t.kind then 1 else 0) rows

  openings-append :
      (k : PositionKey) (xs ys : List (Transaction D))
      → openings k (xs ++ ys) ≡ openings k xs + openings k ys
  openings-append k [] ys = omega arith
  openings-append k (x ∷ xs) ys = omega (arith, openings-append k xs ys)

  no_openings :
      (k : PositionKey) (rows : List (Transaction D))
      → has_reconciling_txn k rows ≡ false
      → openings k rows ≡ 0
  unfolding has_reconciling_txn
  no_openings k [] h = refl
  no_openings k (x ∷ rows) h = ground (arith, no_openings k rows)

  openings-none :
      (k : PositionKey) (P : Transaction D → Type 0) (ys : List (Transaction D))
      → All (λ t. P t × (is_opening t.kind ≡ false)) ys
      → openings k ys ≡ 0
  openings-none k P [] h = refl
  openings-none k P (y ∷ ys) ((p, e), h) = ground (arith, e, openings-none k P ys h)

  openings-Appends :
      (k : PositionKey) (P : Transaction D → Type 0) (a b : List (Transaction D))
      → Appends (λ t. P t × (is_opening t.kind ≡ false)) a b
      → openings k b ≡ openings k a
  openings-Appends k P a b (x, e, h) =
      rw e (omega (arith, openings-append k a x, openings-none k P x h))

  Appends-append :
      (P : Transaction D → Type 0) (a b c : List (Transaction D))
      → Appends P a b
      → Appends P b c
      → Appends P a c
  Appends-append P a b c (x, e, p) (y, f, q) =
      (x ++ y, f ∙ ap (λ r. r ++ y) e ∙ append_assoc a x y, All-append P x y p q)

  Appends-none : (P : Transaction D → Type 0) (a : List (Transaction D)) → Appends P a a
  Appends-none P a = ([], sym (append-nil a), tt)

module _ {D : Type 0} ⦃d : Decimal D⦄ (k : PositionKey) (obs_id : ℕ) (job : Option ℕ) where
  abbrev IsOurs : Transaction D → Type 0
  IsOurs t = IsReconciling k obs_id job t

  system_row-IsOurs :
      (kind : Kind) (amount : D) (text : String) (date id : ℕ)
      → is_reconciling kind ≡ true
      → IsOurs (system_row k kind amount text date obs_id job id)
  system_row-IsOurs kind amount text date id h = record {
    at_position = ground arith;
    reconciling = h;
    caused = refl;
    of_job = refl;
  }

  offset-Appends :
      (delta : D) (inserted : List (InsertedRow D)) (as_of : ℕ) (l : Ledger D)
      → Appends
          (λ t. IsOurs t × (is_opening t.kind ≡ false))
          l.transactions
          (offset_at_next_anchor k delta inserted as_of obs_id job l).transactions
  unfolding offset_at_next_anchor
  offset-Appends delta inserted as_of l = elim (Option-cases (next k as_of l)) [
    | inl e ↦ rw (e, offset_at_next_anchor) (Appends-none _ _)
    | inr (n, e) ↦
        rw (e, offset_at_next_anchor)
          (elim (Bool-cases (is_zero (shift_by (day_of n) delta inserted))) [
            | inl z ↦ rw z (Appends-none _ _)
            | inr z ↦ rw z (_, refl, ((system_row-IsOurs adjustment _ _ _ _ refl, refl), tt))
          ])
  ]

  row-IsOurs :
      (has_anchor : Bool) (delta : D) (as_of id : ℕ)
      → IsOurs (reconciling_row k has_anchor delta as_of obs_id job id)
        × ((is_opening (reconciling_row k has_anchor delta as_of obs_id job id).kind)
            ≡ not has_anchor)
  row-IsOurs true delta as_of id = (system_row-IsOurs adjustment _ _ _ _ refl, refl)
  row-IsOurs false delta as_of id = (system_row-IsOurs opening_balance _ _ _ _ refl, refl)

  -- Rows of ours behind those of before, with no second opening balance.
  abbrev Grows : List (Transaction D) → List (Transaction D) → Type 0
  Grows before after = Appends IsOurs before after × (openings k before ≤ 1 → openings k after ≤ 1)

  Grows-same : (rows : List (Transaction D)) → Grows rows rows
  Grows-same rows = (Appends-none IsOurs rows, λ h. h)

  Grows-offset :
      (before : List (Transaction D)) (delta : D) (inserted : List (InsertedRow D)) (as_of : ℕ)
      (l : Ledger D)
      → Grows before l.transactions
      → Grows before (offset_at_next_anchor k delta inserted as_of obs_id job l).transactions
  Grows-offset before delta inserted as_of l (a, o) = (
    Appends-append IsOurs _ _ _ a (weaken _ _ more),
    λ h. subst (λ n. n ≤ 1) (sym (openings-Appends k IsOurs _ _ more)) (o h),
  )
    where
      more :
          Appends
            (λ t. IsOurs t × (is_opening t.kind ≡ false))
            l.transactions
            (offset_at_next_anchor k delta inserted as_of obs_id job l).transactions
      more = offset-Appends delta inserted as_of l

      weaken :
          (b c : List (Transaction D))
          → Appends (λ t. IsOurs t × (is_opening t.kind ≡ false)) b c
          → Appends IsOurs b c
      weaken b c (x, e, h) = (x, e, All-map _ _ (λ t p. p.0) x h)

  Grows-row :
      (rows : List (Transaction D)) (delta : D) (as_of id : ℕ)
      → Grows rows
          (rows ++ (reconciling_row k (has_reconciling_txn k rows) delta as_of obs_id job id ∷ []))
  Grows-row rows delta as_of id = (
    (_, refl, ((row-IsOurs (has_reconciling_txn k rows) delta as_of id).0, tt)),
    λ h. elim (Bool-cases (has_reconciling_txn k rows)) [
      | inl e ↦ rw (e, openings-append k rows) (ground (arith, h))
      | inr e ↦ rw (e, openings-append k rows, no_openings k rows e) (ground arith)
    ],
  )

module _ {D : Type 0} ⦃d : Decimal D⦄ (now : ℕ) (k : PositionKey) (reported : D) (as_of : ℕ)
    (source : String) (job : Option ℕ) (inserted : List (InsertedRow D)) (l : Ledger D) where
  -- Reconciliation changes no row of the ledger: it appends rows of this position, adjustments or
  -- opening balances that name its observation and its job, and never a second opening balance.
  pub reconcile_grows :
      let (_, after) = reconcile_position_for_job now k reported as_of source job inserted l in
      Appends (IsReconciling k l.next_observation_id job) l.transactions after.transactions
      × (openings k l.transactions ≤ 1 → openings k after.transactions ≤ 1)
  unfolding reconcile_position_for_job
  reconcile_grows =
      subst (λ (a : Ledger D). Grows k l.next_observation_id job l.transactions a.transactions)
        (sym (
          if-offset (is_zero delta) (reconcile_fold now k as_of l.transactions).1 none
            (some (row l.next_transaction_id)) offset observed (create row observed)))
        (if-P (λ (a : Ledger D). Grows k l.next_observation_id job l.transactions a.transactions) _
          _ _ (Grows-offset k _ job _ _ _ _ _ written) written)
    where
      delta : D
      delta = sub reported (reconcile_fold now k as_of l.transactions).0

      row : ℕ → Transaction D
      row =
          reconciling_row k (has_reconciling_txn k l.transactions) delta as_of l.next_observation_id
            job

      observed : Ledger D
      observed =
          insert_observation
            (λ id. record {
              id = id;
              user_id = k.user_id;
              account_id = k.account_id;
              asset_id = k.asset_id;
              observed_quantity = reported;
              as_of = as_of;
              source = source;
              import_job_id = job;
            })
            l

      offset : Ledger D → Ledger D
      offset = offset_at_next_anchor k delta inserted as_of l.next_observation_id job

      written :
          Grows k l.next_observation_id job l.transactions
            (if is_zero delta then observed else create row observed).transactions
      written =
          if-P (λ (a : Ledger D). Grows k l.next_observation_id job l.transactions a.transactions)
            (is_zero delta) observed (create row observed) (Grows-same k _ job _)
            (Grows-row k _ job _ delta as_of _)
