-- ===== src/Transfers.antt =====
-- Transfer matching: backend/internal/repository/transfer_matching.go and
-- backend/internal/service/transfer_matching.go. A table is the list of its live rows.
pub mod Window
pub mod Greedy
pub mod Proposals
pub mod Linking
use offbook.Common.{
  ℕ, suc, ◌+◌, ◌-◌, Bool, true, false, not, ◌&&◌, ◌||◌, Option, none, some, List, [], ◌∷◌, ◌++◌,
  map, ltb, leb, ◌==◌, if◌then◌else◌, is_some, any, has_id, select, Decimal, equal, Result, ok, err,
  fail_if, ◌>>=◌, ◌>>◌,
}
use offbook.Common.Sort.{sort}
use offbook.Model.{Transaction, Kind, flow}

abbrev pub default_transfer_match_window_days : ℕ
default_transfer_match_window_days = 3

-- A `TransferMatchDismissal` row.
pub record Dismissal : Type 0 where
  pub user_id : ℕ
  pub low_id : ℕ
  pub high_id : ℕ

pub record Store (D : Type 0) : Type 0 where
  pub transactions : List (Transaction D)
  pub dismissals : List Dismissal

-- A `transferCandidateRow`, with the rows that its indices stand for.
pub record Candidate (D : Type 0) : Type 0 where
  pub i : ℕ
  pub j : ℕ
  pub date_diff : ℕ
  pub a : Transaction D
  pub b : Transaction D

abbrev pub days_between : ℕ → ℕ → ℕ
days_between a b = (a - b) + (b - a)

-- `orderedPair`
abbrev pub ordered_pair : ℕ → ℕ → ℕ × ℕ
ordered_pair a b = if ltb b a then (b, a) else (a, b)

abbrev pub is_kind_flow : Kind → Bool
is_kind_flow flow = true
is_kind_flow _ = false

-- The dismissals of one user hold the pair of two ids.
pub is_dismissed : ℕ → List Dismissal → ℕ → ℕ → Bool
is_dismissed user dismissals x y =
    let (low, high) = ordered_pair x y in
    any (λ p. (p.user_id == user) && (p.low_id == low) && (p.high_id == high)) dismissals

module _ {D : Type 0} where
  -- The WHERE clause: unmatched flow rows of the user.
  pub is_unmatched : ℕ → Transaction D → Bool
  is_unmatched user t =
      (t.user_id == user)
      && is_kind_flow t.kind
      && not t.is_transfer
      && not (is_some t.transfer_pair_id)

  -- ORDER BY transaction_date, id
  pub by_date : Transaction D → Transaction D → Bool
  by_date x y =
      ltb x.transaction_date y.transaction_date
      || ((x.transaction_date == y.transaction_date) && leb x.id y.id)

  -- Smaller gap first, then the lower index pair.
  pub by_rank : Candidate D → Candidate D → Bool
  by_rank x y =
      ltb x.date_diff y.date_diff
      || ((x.date_diff == y.date_diff) && (ltb x.i y.i || ((x.i == y.i) && leb x.j y.j)))

  -- Newest first.
  pub by_newest : Candidate D → Candidate D → Bool
  by_newest x y = leb y.a.transaction_date x.a.transaction_date

  -- The greedy assignment; `used` holds the indices that are taken.
  pub assign : List ℕ → List (Candidate D) → List (Candidate D)
  assign used [] = []
  assign used (c ∷ rest) = elim (has_id used c.i || has_id used c.j) [
    | true ↦ assign used rest
    | false ↦ c ∷ assign (c.i ∷ c.j ∷ used) rest
  ]

module _ {D : Type 0} where
  abbrev pub candidate : ℕ → Transaction D → ℕ → Transaction D → Candidate D
  candidate i a j b = record {
    i = i;
    j = j;
    date_diff = days_between a.transaction_date b.transaction_date;
    a = a;
    b = b;
  }

module _ {D : Type 0} ⦃d : Decimal D⦄ (user : ℕ) (dismissals : List Dismissal) where
  -- The tests that skip a pair with `continue`.
  pub is_pair : Transaction D → Transaction D → Bool
  is_pair a b =
      not (a.account_id == b.account_id)
      && (a.asset_id == b.asset_id)
      && equal a.amount (d.neg b.amount)
      && not (is_dismissed user dismissals a.id b.id)

module _ {D : Type 0} ⦃d : Decimal D⦄ (user : ℕ) (dismissals : List Dismissal) (window : ℕ) where
  -- The inner loop from index `j` on: the first row outside the window ends it.
  pub inner : ℕ → Transaction D → ℕ → List (Transaction D) → List (Candidate D)
  inner i a j [] = []
  inner i a j (b ∷ rest) =
      let more = inner i a (suc j) rest in
      if ltb window (days_between a.transaction_date b.transaction_date)
      then []
      else if is_pair user dismissals a b
      then candidate i a j b ∷ more
      else more

  pub outer : ℕ → List (Transaction D) → List (Candidate D)
  outer i [] = []
  outer i (a ∷ rest) = inner i a (suc i) rest ++ outer (suc i) rest

module _ {D : Type 0} ⦃d : Decimal D⦄ where
  pub list_transfer_candidates : ℕ → ℕ → Store D → List (Candidate D)
  list_transfer_candidates user window st =
      let txns = sort by_date (select (is_unmatched user) st.transactions) in
      sort by_newest (assign [] (sort by_rank (outer user st.dismissals window 0 txns)))

  pub propose_matches : ℕ → Store D → List (Candidate D)
  propose_matches user = list_transfer_candidates user default_transfer_match_window_days
