-- ===== src/Transfers/Proposals.antt =====
-- What `ListTransferCandidates` of transfer_matching.go proposes.
use offbook.Common.{
  ℕ, ◌≤◌, ◌<◌, ◌≡◌, ◌≢◌, subst, inl, inr, ◌⊎◌, true, false, List, [], arith, weigh, All, All-In,
  All-of_In, In, In-select, select, Decimal, IsDecimal,
}
use offbook.Common.Sort.{sort, sort-In, In-sort, weigh-sort}
use offbook.Model.{Transaction}
use offbook.Transfers.{
  Store, Candidate, is_unmatched, is_dismissed, is_pair, by_date, by_rank, by_newest, assign,
  days_between, list_transfer_candidates,
}
use offbook.Transfers.Greedy.{uses, In-assign, assign_once, assign_prefers, shares}
use offbook.Transfers.Window.{outer_scans, scan, scan-AllMatch, IsMatch, sort-by_rank}

module _ {D : Type 0} ⦃d : Decimal D⦄ (user window : ℕ) (st : Store D) where
  -- The unmatched flow rows of the user, by date.
  abbrev pub unmatched : List (Transaction D)
  unmatched = sort by_date (select (is_unmatched user) st.transactions)

  -- All pairs of those rows that qualify.
  abbrev pub qualifying : List (Candidate D)
  qualifying = scan user st.dismissals window 0 unmatched

  list_transfer_candidates-eq :
      list_transfer_candidates user window st ≡ sort by_newest (assign [] (sort by_rank qualifying))
  unfolding list_transfer_candidates
  list_transfer_candidates-eq =
      rw (outer_scans user st.dismissals window (select (is_unmatched user) st.transactions))

  -- A proposed pair was collected by the scan.
  proposed_qualifies :
      (c : Candidate D) → In c (list_transfer_candidates user window st) → In c qualifying
  proposed_qualifies c m =
      let m' = subst (In c) list_transfer_candidates-eq m in
      In-sort by_rank c qualifying
        (In-assign c [] (sort by_rank qualifying) (In-sort by_newest c _ m'))

  -- No row stands in two proposed pairs, or twice in one.
  pub proposals_disjoint : (k : ℕ) → weigh (uses k) (list_transfer_candidates user window st) ≤ 1
  proposals_disjoint k = rw list_transfer_candidates-eq (
      rw (weigh-sort by_newest (uses k) (assign [] (sort by_rank qualifying)))
        (assign_once k [] (sort by_rank qualifying) ordered))
    where
      ordered : All (λ c. c.i < c.j) (sort by_rank qualifying)
      ordered = All-of_In _ _ (λ c m.
          (All-In _ c qualifying (scan-AllMatch user st.dismissals window unmatched)
            (In-sort by_rank c qualifying m)).ordered)

  -- A pair shares a row with one of the list that has its dates no further apart and, at the same
  -- distance, comes no later in the order of the rows.
  abbrev pub Outranked : Candidate D → List (Candidate D) → Type 0
  Outranked c cs =
      (x : Candidate D) × In x cs
      × (shares x c ≡ true)
      × (x.date_diff ≤ c.date_diff)
      × (x.date_diff ≡ c.date_diff → (x.i < c.i) ⊎ ((x.i ≡ c.i) × (x.j ≤ c.j)))

  by_rank-apart : (x c : Candidate D) → by_rank x c ≡ true → x.date_diff ≤ c.date_diff
  unfolding by_rank
  by_rank-apart x c r = ground arith

  by_rank-order :
      (x c : Candidate D)
      → by_rank x c ≡ true
      → x.date_diff ≡ c.date_diff
      → (x.i < c.i) ⊎ ((x.i ≡ c.i) × (x.j ≤ c.j))
  unfolding by_rank
  by_rank-order x c r e = ground arith

  -- A pair of unmatched rows that qualifies is proposed, or shares a row with a proposed pair whose
  -- dates are no further apart and which, at the same distance, comes no later in the order of the
  -- rows.
  pub proposals_greedy :
      (c : Candidate D) → In c qualifying → Outranked c (list_transfer_candidates user window st)
  proposals_greedy c m =
      elim (assign_prefers c [] _ (sort-by_rank qualifying) (sort-In by_rank c qualifying m)) [
        | inl taken ↦ absurd (ground arith)
        | inr (x, mx, sh, r) ↦ (
          x,
          rw list_transfer_candidates-eq (sort-In by_newest x _ mx),
          sh,
          by_rank-apart x c r,
          by_rank-order x c r,
        )
      ]

  -- What the user relies on in a proposal.
  pub record IsTransfer (c : Candidate D) : Type 0 where
    pub stored_a : In c.a st.transactions
    pub stored_b : In c.b st.transactions
    pub unmatched_a : is_unmatched user c.a ≡ true
    pub unmatched_b : is_unmatched user c.b ≡ true
    pub accounts_differ : c.a.account_id ≢ c.b.account_id
    pub same_asset : c.a.asset_id ≡ c.b.asset_id
    pub opposite : c.a.amount ≡ d.neg c.b.amount
    pub close : days_between c.a.transaction_date c.b.transaction_date ≤ window
    pub not_dismissed : is_dismissed user st.dismissals c.a.id c.b.id ≡ false

  module _ (laws : IsDecimal D) where
    IsMatch-IsTransfer :
        (c : Candidate D) → IsMatch user st.dismissals window unmatched c → IsTransfer c
    unfolding is_pair
    IsMatch-IsTransfer c m =
        let (ra, ua) =
          In-select (is_unmatched user) c.a st.transactions (In-sort by_date c.a _ m.from_a) in
        let (rb, ub) =
          In-select (is_unmatched user) c.b st.transactions (In-sort by_date c.b _ m.from_b) in
        let good = m.matched in
        record {
          stored_a = ra;
          stored_b = rb;
          unmatched_a = ua;
          unmatched_b = ub;
          accounts_differ = ground arith;
          same_asset = ground arith;
          opposite = laws.cmp_eq c.a.amount (d.neg c.b.amount) (ground arith);
          close = ground arith;
          not_dismissed = ground arith;
        }

    -- Every proposed pair consists of two stored, unmatched flow rows of the user in different
    -- accounts and the same asset, with exactly opposite amounts, at most `window` days apart, that
    -- the user has not dismissed.
    pub proposals-IsTransfer : All IsTransfer (list_transfer_candidates user window st)
    proposals-IsTransfer = All-of_In _ _ (λ c m. IsMatch-IsTransfer c (
        All-In _ c qualifying (scan-AllMatch user st.dismissals window unmatched)
          (proposed_qualifies c m)))
