-- ===== src/Categories/Reassign/Moves.antt =====
-- A row that is moved does not name the category that it leaves.
use offbook.Common.{
  ℕ, ◌≡◌, ◌≢◌, inl, inr, Bool, true, false, not, ◌&&◌, Option, none, some, List, arith, ◌==◌,
  if◌then◌else◌, holds, any, Bool-cases, All, All-In, All-of_In, map-All, In-select,
}
use offbook.Model.{Transaction, CategorizationRule}
use offbook.Categories.{TransactionSplit, RuleApplyRun, RuleApplyChange, AiCategorizationVerdict}
use offbook.Categories.Reassign.{
  move_transaction, move_split, move_change, move_rule, move_verdicts, is_run_of, is_verdict_on,
}

-- A row that an update passes over does not name the category.
pub passed_over :
    (mine : Bool) (old : Option ℕ) (from : ℕ)
    → (mine && holds old from) ≡ false
    → (old ≡ some from → mine ≡ true)
    → old ≢ some from
passed_over mine none from e h q = cc
passed_over mine (some c) from e h q = let m = h q in ground (arith, e, m, q)

module _ (user from : ℕ) where
  module _ {D : Type 0} where
    pub moved_transaction :
        (to : Option ℕ) (t : Transaction D)
        → to ≢ some from
        → (t.category_id ≡ some from → t.user_id ≡ user)
        → (move_transaction user from to t).category_id ≢ some from
    unfolding move_transaction
    moved_transaction to t n own =
        elim (Bool-cases ((t.user_id == user) && holds t.category_id from)) [
          | inl e ↦ rw (e, if◌then◌else◌) n
          | inr e ↦
              rw (e, if◌then◌else◌)
                (passed_over (t.user_id == user) t.category_id from e
                  (λ q. let o = own q in ground (arith, o)))
        ]

    pub moved_split :
        (to : Option ℕ) (s : TransactionSplit D)
        → to ≢ some from
        → (s.category_id ≡ some from → s.user_id ≡ user)
        → (move_split user from to s).category_id ≢ some from
    unfolding move_split
    moved_split to s n own = elim (Bool-cases ((s.user_id == user) && holds s.category_id from)) [
      | inl e ↦ rw (e, if◌then◌else◌) n
      | inr e ↦
          rw (e, if◌then◌else◌)
            (passed_over (s.user_id == user) s.category_id from e
              (λ q. let o = own q in ground (arith, o)))
    ]

    pub moved_rule :
        (to : Option ℕ) (r : CategorizationRule D)
        → to ≢ some from
        → (r.category_id ≡ some from → r.user_id ≡ user)
        → (move_rule user from to r).category_id ≢ some from
    unfolding move_rule
    moved_rule to r n own = elim (Bool-cases ((r.user_id == user) && holds r.category_id from)) [
      | inl e ↦ rw (e, if◌then◌else◌) n
      | inr e ↦
          rw (e, if◌then◌else◌)
            (passed_over (r.user_id == user) r.category_id from e
              (λ q. let o = own q in ground (arith, o)))
    ]

  pub moved_change :
      (to : Option ℕ) (runs : List RuleApplyRun) (c : RuleApplyChange)
      → to ≢ some from
      → (c.prev_category_id ≡ some from → any (is_run_of user c.run_id) runs ≡ true)
      → (move_change user from to runs c).prev_category_id ≢ some from
  unfolding move_change
  moved_change to runs c n own =
      elim (Bool-cases (any (is_run_of user c.run_id) runs && holds c.prev_category_id from)) [
        | inl e ↦ rw (e, if◌then◌else◌) n
        | inr e ↦
            rw (e, if◌then◌else◌)
              (passed_over (any (is_run_of user c.run_id) runs) c.prev_category_id from e own)
      ]

  pub moved_verdicts :
      (to : Option ℕ) (rows : List AiCategorizationVerdict)
      → to ≢ some from
      → All (λ v. v.category_id ≡ from → v.user_id ≡ user) rows
      → All (λ v. v.category_id ≢ from) (move_verdicts user from to rows)
  unfolding move_verdicts
  moved_verdicts none rows n own = All-of_In _ _ λ v m q.
      let (k, t) = In-select (λ v. not (is_verdict_on user from v)) v rows m in
      let o = All-In _ v rows own k q in ground (arith, q, o, t)
  moved_verdicts (some to) rows n own = map-All _ _ _ (λ v h q. ground (arith, h, q, n)) rows own
