-- ===== src/Budgets/Rollover/Rolled.antt =====
-- The loops of rollover against a plain recursion on the number of periods.
use offbook.Common.{
  ℕ, zero, suc, ◌+◌, ◌-◌, ◌≤◌, ◌<◌, ◌≡◌, refl, sym, subst, ◌∙◌, ap, inl, inr, true, false, not,
  Option, some, List, arith, ltb, leb, if◌then◌else◌, Bool-cases, Decimal, sub,
}
use offbook.Calendar.Spans.{Span, index, bound, next_start-bound}
use offbook.Plans.{Budget, BudgetAmount}
use offbook.Budgets.{SpendLine, span_of, window_start, current_period_spend, spend_by_period}
use offbook.Budgets.Limits.{limit_at}
use offbook.Budgets.Rollover.{max_rollover_periods, walk_back, at_least_zero, roll, carryover_with}
use offbook.Budgets.Rollover.Periods.{
  window_start-bound, ltb-bound, walk_back-bound, spend_by_period-window,
}

module _ {D : Type 0} ⦃d : Decimal D⦄ where
  -- `n` periods from the number `k` on: each adds its limit less its spend, and the balance does not
  -- go below zero.
  unfoldable pub rolled : Span → (ℕ → D) → (ℕ → ℕ → D) → ℕ → ℕ → D → D
  rolled span limit spend zero k carry = carry
  rolled span limit spend (suc n) k carry = rolled span limit spend n (suc k) (
      at_least_zero
        (sub (d.add carry (limit (bound span k))) (spend (bound span k) (bound span (suc k)))))

  roll-rolled :
      (span : Span) (limit spend : ℕ → D) (window : ℕ → ℕ → D) (n fuel k : ℕ) (carry : D)
      → n < fuel
      → ((j : ℕ)
          → k ≤ j
          → j < k + n
          → spend (bound span j) ≡ window (bound span j) (bound span (suc j)))
      → roll span limit spend fuel (bound span (k + n)) (bound span k) carry
        ≡ some (rolled span limit window n k carry)
  unfolding roll rolled
  roll-rolled span limit spend window n zero k carry h w = absurd (omega arith)
  roll-rolled span limit spend window zero (suc fuel) k carry h w =
      let done : ltb (bound span k) (bound span (k + 0)) ≡ false =
        ltb-bound span k (k + 0) ∙ ground arith in
      rw (done, roll) refl
  roll-rolled span limit spend window (suc n) (suc fuel) k carry h w =
      let more : ltb (bound span k) (bound span (k + suc n)) ≡ true =
        ltb-bound span k (k + suc n) ∙ ground arith in
      let shift : k + suc n ≡ suc k + n = omega arith in
      rw (more, roll)
        (rw (next_start-bound span k, w k (omega arith) (omega arith), shift)
          (roll-rolled span limit spend window n fuel (suc k) _ (omega arith)
            (λ j a b. w j (omega arith) (omega arith))))

  -- The balance that rolls into the period number `k` of a budget created in the number `s`.
  abbrev pub carried :
      List (SpendLine D) → ℕ → Budget D → List ℕ → List (BudgetAmount D) → ℕ → ℕ → D
  carried lines user b categories history s k =
      let past =
        rolled (span_of b.period) (limit_at history b.amount)
          (current_period_spend lines user categories) in
      if not b.rollover
      then d.nought
      else if ltb k s
      then d.nought
      else if leb (k - s) max_rollover_periods
      then past (k - s) s b.rollover_start
      else past max_rollover_periods (k - max_rollover_periods) d.nought

  module _ (lines : List (SpendLine D)) (user : ℕ) (b : Budget D) (categories : List ℕ)
      (history : List (BudgetAmount D)) where
    -- The walk from `earliest`, the number of a period, to the current one.
    rolls :
        (e k : ℕ) (carry : D)
        → e ≤ k
        → k - e ≤ max_rollover_periods
        → (if not (ltb (bound (span_of b.period) e) (bound (span_of b.period) k))
            then some carry
            else roll
                (span_of b.period)
                (limit_at history b.amount)
                (spend_by_period lines user categories
                  (span_of b.period)
                  (bound (span_of b.period) e)
                  (bound (span_of b.period) k))
                (suc max_rollover_periods)
                (bound (span_of b.period) k)
                (bound (span_of b.period) e)
                carry)
          ≡ some (
              rolled
                (span_of b.period)
                (limit_at history b.amount)
                (current_period_spend lines user categories)
                (k - e)
                e
                carry)
    unfolding rolled
    rolls e k carry h l = elim (Bool-cases (ltb e k)) [
      | inl more ↦
          rw (ltb-bound (span_of b.period) e k, more, not, if◌then◌else◌)
            (let total : e + (k - e) ≡ k = omega arith in
              subst
                (λ q.
                  roll (span_of b.period) (limit_at history b.amount)
                    (spend_by_period lines user categories (span_of b.period)
                      (bound (span_of b.period) e) (bound (span_of b.period) k))
                    (suc max_rollover_periods) (bound (span_of b.period) q)
                    (bound (span_of b.period) e) carry
                  ≡ some (
                      rolled (span_of b.period) (limit_at history b.amount)
                        (current_period_spend lines user categories) (k - e) e carry))
                total
                (roll-rolled (span_of b.period) _ _ (current_period_spend lines user categories)
                  (k - e) (suc max_rollover_periods) e carry (omega arith)
                  (λ j p q.
                    spend_by_period-window lines user categories (span_of b.period) e j k p
                      (omega arith))))
      | inr done ↦
          let none_left : k - e ≡ 0 = ground arith in
          rw (ltb-bound (span_of b.period) e k, done, none_left) refl
    ]

    -- The body of the code, at its start, its earliest period and the current one.
    abbrev from_earliest : ℕ → ℕ → ℕ → Option D
    from_earliest start earliest current_from =
        if not b.rollover
        then some d.nought
        else if ltb current_from start
        then some d.nought
        else if not (ltb earliest current_from)
        then some (if not (ltb start earliest) then b.rollover_start else d.nought)
        else roll (span_of b.period) (limit_at history b.amount)
            (spend_by_period lines user categories (span_of b.period) earliest current_from)
            (suc max_rollover_periods) current_from earliest
            (if not (ltb start earliest) then b.rollover_start else d.nought)

    from_earliest-rolled :
        (s e k : ℕ) (carry : D)
        → b.rollover ≡ true
        → s ≤ e
        → e ≤ k
        → k - e ≤ max_rollover_periods
        → (if not (ltb s e) then b.rollover_start else d.nought) ≡ carry
        → from_earliest
            (bound (span_of b.period) s)
            (bound (span_of b.period) e)
            (bound (span_of b.period) k)
          ≡ some (
              rolled
                (span_of b.period)
                (limit_at history b.amount)
                (current_period_spend lines user categories)
                (k - e)
                e
                carry)
    from_earliest-rolled s e k carry on h l m c =
        let late : ltb k s ≡ false = ground arith in
        rw
          (
            on,
            ltb-bound (span_of b.period) k s,
            late,
            ltb-bound (span_of b.period) s e,
            c,
            not,
            if◌then◌else◌,
          )
          (rolls e k carry l m)

    near_eq :
        (s k : ℕ)
        → b.rollover ≡ true
        → ltb k s ≡ false
        → leb (k - s) max_rollover_periods ≡ true
        → from_earliest
            (bound (span_of b.period) s)
            (bound
              (span_of b.period)
              (if leb (k - s) max_rollover_periods then s else k - max_rollover_periods))
            (bound (span_of b.period) k)
          ≡ some (carried lines user b categories history s k)
    near_eq s k on late near =
        ap
          (λ e.
            from_earliest (bound (span_of b.period) s) (bound (span_of b.period) e)
              (bound (span_of b.period) k))
          first
        ∙ from_earliest-rolled s s k b.rollover_start on (omega arith) (ground arith) (ground arith)
            (ground arith)
        ∙ sym spec
      where
        first : (if leb (k - s) max_rollover_periods then s else k - max_rollover_periods) ≡ s
        first = rw near refl

        spec :
            some (carried lines user b categories history s k)
            ≡ some (
                rolled
                  (span_of b.period)
                  (limit_at history b.amount)
                  (current_period_spend lines user categories)
                  (k - s)
                  s
                  b.rollover_start)
        spec = rw (on, late, near, not, if◌then◌else◌) refl

    far_eq :
        (s k : ℕ)
        → b.rollover ≡ true
        → ltb k s ≡ false
        → leb (k - s) max_rollover_periods ≡ false
        → from_earliest
            (bound (span_of b.period) s)
            (bound
              (span_of b.period)
              (if leb (k - s) max_rollover_periods then s else k - max_rollover_periods))
            (bound (span_of b.period) k)
          ≡ some (carried lines user b categories history s k)
    far_eq s k on late far =
        ap
          (λ e.
            from_earliest (bound (span_of b.period) s) (bound (span_of b.period) e)
              (bound (span_of b.period) k))
          first
        ∙ from_earliest-rolled s (k - max_rollover_periods) k d.nought on (ground arith)
            (omega arith) (omega arith) aged
        ∙ ap (λ n. some (past n (k - max_rollover_periods) d.nought)) all
        ∙ sym spec
      where
        past : ℕ → ℕ → D → D
        past n e carry =
            rolled (span_of b.period) (limit_at history b.amount)
              (current_period_spend lines user categories) n e carry

        first :
            (if leb (k - s) max_rollover_periods then s else k - max_rollover_periods)
            ≡ k - max_rollover_periods
        first = rw far refl

        aged :
            (if not (ltb s (k - max_rollover_periods)) then b.rollover_start else d.nought)
            ≡ d.nought
        aged = let old : ltb s (k - max_rollover_periods) ≡ true = ground arith in rw old refl

        all : k - (k - max_rollover_periods) ≡ max_rollover_periods
        all = ground arith

        spec :
            some (carried lines user b categories history s k)
            ≡ some (past max_rollover_periods (k - max_rollover_periods) d.nought)
        spec = rw (on, late, far, not, if◌then◌else◌) refl

    carried-eq :
        (s k : ℕ)
        → from_earliest
            (bound (span_of b.period) s)
            (bound
              (span_of b.period)
              (if leb (k - s) max_rollover_periods then s else k - max_rollover_periods))
            (bound (span_of b.period) k)
          ≡ some (carried lines user b categories history s k)
    carried-eq s k = elim (Bool-cases b.rollover) [
      | inr off ↦ rw (off, not, if◌then◌else◌) refl
      | inl on ↦ elim (Bool-cases (ltb k s)) [
        | inl early ↦ rw (on, ltb-bound (span_of b.period) k s, early, not, if◌then◌else◌) refl
        | inr late ↦ elim (Bool-cases (leb (k - s) max_rollover_periods)) [
          | inl near ↦ near_eq s k on late near
          | inr far ↦ far_eq s k on late far
        ]
      ]
    ]

    walked :
        (s k : ℕ)
        → from_earliest
            (bound (span_of b.period) s)
            (walk_back
              (span_of b.period)
              (bound (span_of b.period) s)
              max_rollover_periods
              (bound (span_of b.period) k))
            (bound (span_of b.period) k)
          ≡ some (carried lines user b categories history s k)
    walked s k = elim (Bool-cases (ltb k s)) [
      | inl early ↦
          rw (ltb-bound (span_of b.period) k s, early, if◌then◌else◌)
            (elim (Bool-cases b.rollover) [
              | inl on ↦ rw (on, not, if◌then◌else◌) refl
              | inr off ↦ rw (off, not, if◌then◌else◌) refl
            ])
      | inr late ↦
          ap (λ e. from_earliest (bound (span_of b.period) s) e (bound (span_of b.period) k))
            (walk_back-bound (span_of b.period) s max_rollover_periods k (ground arith))
          ∙ carried-eq s k
    ]

    -- For the period around a day, `carryoverWith` returns, with no shortage of fuel, nothing where
    -- the budget does not roll over or did not exist; else the plain sum of at most 36 periods, each
    -- its limit less what its own window spends, never below zero, from the starting balance where
    -- the period of the creation is among them and from zero where it is not.
    pub carryover-eq-carried :
        (on : ℕ)
        → carryover_with lines user b categories history (window_start (span_of b.period) on)
          ≡ some (
              carried lines user b categories history
                (index (span_of b.period) b.created_at)
                (index (span_of b.period) on))
    unfolding carryover_with
    carryover-eq-carried on =
        ap
          (λ start.
            from_earliest start
              (walk_back (span_of b.period) start max_rollover_periods
                (window_start (span_of b.period) on))
              (window_start (span_of b.period) on))
          (window_start-bound (span_of b.period) b.created_at)
        ∙ ap
            (λ current.
              from_earliest (bound (span_of b.period) s)
                (walk_back (span_of b.period) (bound (span_of b.period) s) max_rollover_periods
                  current)
                current)
            (window_start-bound (span_of b.period) on)
        ∙ walked s (index (span_of b.period) on)
      where
        s : ℕ
        s = index (span_of b.period) b.created_at
