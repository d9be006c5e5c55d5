-- ===== src/Transfers/Window.antt =====
-- The scan of transfer_matching.go over date-ordered rows: leaving the inner loop at the first row
-- outside the window loses no pair.
use offbook.Common.{
  ℕ, suc, ◌≤◌, ◌<◌, ◌≡◌, refl, inl, inr, Bool, true, false, ◌&&◌, List, [], ◌∷◌, ◌++◌, arith, leb,
  if◌then◌else◌, All, All-append, All-map, All-of_In, In, Bool-cases, Decimal,
}
use offbook.Common.Sort.{IsSorted, sort, sort-IsSorted}
use offbook.Model.{Transaction}
use offbook.Transfers.{
  Dismissal, Candidate, by_date, by_rank, inner, outer, candidate, is_pair, days_between,
}

module _ {D : Type 0} where
  by_date_total : (x y : Transaction D) → by_date x y ≡ false → by_date y x ≡ true
  unfolding by_date
  by_date_total x y h = ground arith

  by_date_trans :
      (x y z : Transaction D) → by_date x y ≡ true → by_date y z ≡ true → by_date x z ≡ true
  unfolding by_date
  by_date_trans x y z h k = ground arith

  by_rank_total : (x y : Candidate D) → by_rank x y ≡ false → by_rank y x ≡ true
  unfolding by_rank
  by_rank_total x y h = ground arith

  by_rank_trans :
      (x y z : Candidate D) → by_rank x y ≡ true → by_rank y z ≡ true → by_rank x z ≡ true
  unfolding by_rank
  by_rank_trans x y z h k = ground arith

  by_date-le : (x y : Transaction D) → by_date x y ≡ true → x.transaction_date ≤ y.transaction_date
  unfolding by_date
  by_date-le x y h = ground arith

  pub sort-by_date : (xs : List (Transaction D)) → IsSorted by_date (sort by_date xs)
  sort-by_date = sort-IsSorted by_date by_date_total by_date_trans

  pub sort-by_rank : (xs : List (Candidate D)) → IsSorted by_rank (sort by_rank xs)
  sort-by_rank = sort-IsSorted by_rank by_rank_total by_rank_trans

module _ {D : Type 0} ⦃d : Decimal D⦄ (user : ℕ) (dismissals : List Dismissal) (window : ℕ) where
  -- Every pair of rows, the first with each later one, that is within the window and passes the
  -- tests: the specification of the scan.
  abbrev pub is_match : Transaction D → Transaction D → Bool
  is_match a b =
      leb (days_between a.transaction_date b.transaction_date) window && is_pair user dismissals a b

  abbrev pub scan_with : ℕ → Transaction D → ℕ → List (Transaction D) → List (Candidate D)
  scan_with i a j [] = []
  scan_with i a j (b ∷ rest) =
      if is_match a b
      then candidate i a j b ∷ scan_with i a (suc j) rest
      else scan_with i a (suc j) rest

  abbrev pub scan : ℕ → List (Transaction D) → List (Candidate D)
  scan i [] = []
  scan i (a ∷ rest) = scan_with i a (suc i) rest ++ scan (suc i) rest

  -- Rows at least as late as a row outside the window are outside it.
  scan_with-far :
      (i : ℕ) (a : Transaction D) (j n : ℕ) (rest : List (Transaction D))
      → a.transaction_date ≤ n
      → window < days_between a.transaction_date n
      → All (λ b. n ≤ b.transaction_date) rest
      → scan_with i a j rest ≡ []
  scan_with-far i a j n [] h w all = refl
  scan_with-far i a j n (b ∷ rest) h w (p, all) =
      ground (arith, scan_with-far i a (suc j) n rest h w all)

  inner-eq-scan_with :
      (i : ℕ) (a : Transaction D) (j : ℕ) (rest : List (Transaction D))
      → All (λ b. by_date a b ≡ true) rest
      → IsSorted by_date rest
      → inner user dismissals window i a j rest ≡ scan_with i a j rest
  unfolding inner
  inner-eq-scan_with i a j [] h s = refl
  inner-eq-scan_with i a j (b ∷ rest) (p, h) (first, s) = ground (
    arith,
    by_date-le a b p,
    inner-eq-scan_with i a (suc j) rest h s,
    scan_with-far i a (suc j) b.transaction_date rest,
    All-map _ (λ c. b.transaction_date ≤ c.transaction_date) (by_date-le b) rest first,
  )

  outer-eq-scan :
      (i : ℕ) (txns : List (Transaction D))
      → IsSorted by_date txns
      → outer user dismissals window i txns ≡ scan i txns
  unfolding outer
  outer-eq-scan i [] s = refl
  outer-eq-scan i (a ∷ rest) (first, s) =
      rw (inner-eq-scan_with i a (suc i) rest first s, outer-eq-scan (suc i) rest s)

  -- On date-ordered rows the loops, with their early exit, collect exactly the pairs that the full
  -- scan of all pairs collects, in the same order.
  pub outer_scans :
      (rows : List (Transaction D))
      → outer user dismissals window 0 (sort by_date rows) ≡ scan 0 (sort by_date rows)
  outer_scans rows = outer-eq-scan 0 (sort by_date rows) (sort-by_date rows)

  -- What the scan says of a pair that it collects from the rows `txns`.
  pub record IsMatch (txns : List (Transaction D)) (c : Candidate D) : Type 0 where
    pub ordered : c.i < c.j
    pub from_a : In c.a txns
    pub from_b : In c.b txns
    pub matched : is_match c.a c.b ≡ true

  module _ (txns : List (Transaction D)) where
    abbrev AllIn : List (Transaction D) → Type 0
    AllIn = All (λ t. In t txns)

    scan_with-IsMatch :
        (i : ℕ) (a : Transaction D) (j : ℕ) (rest : List (Transaction D))
        → i < j
        → In a txns
        → AllIn rest
        → All (IsMatch txns) (scan_with i a j rest)
    scan_with-IsMatch i a j [] h m all = tt
    scan_with-IsMatch i a j (b ∷ rest) h m (mb, all) =
        let more = scan_with-IsMatch i a (suc j) rest (omega arith) m all in
        elim (Bool-cases (is_match a b)) [
          | inl e ↦ rw e (record { ordered = h; from_a = m; from_b = mb; matched = e }, more)
          | inr e ↦ rw e more
        ]

    scan-IsMatch :
        (i : ℕ) (rows : List (Transaction D)) → AllIn rows → All (IsMatch txns) (scan i rows)
    scan-IsMatch i [] all = tt
    scan-IsMatch i (a ∷ rest) (m, all) =
        All-append (IsMatch txns) (scan_with i a (suc i) rest) (scan (suc i) rest)
          (scan_with-IsMatch i a (suc i) rest (omega arith) m all) (scan-IsMatch (suc i) rest all)

  pub scan-AllMatch : (txns : List (Transaction D)) → All (IsMatch txns) (scan 0 txns)
  scan-AllMatch txns = scan-IsMatch txns 0 txns (All-of_In _ txns (λ a m. m))
