-- ===== src/Reconcile/Folds.antt =====
-- Sums over the ledger when a row is written behind it.
use offbook.Common.{
  ℕ, ◌≤◌, ◌<◌, ◌≡◌, refl, sym, inl, inr, Bool, true, false, Option, none, some, List, [], ◌∷◌, ◌++◌,
  String, arith, ltb, if◌then◌else◌, Bool-cases, if-same, Decimal, IsDecimal, nought_add,
  neg_nought, is_zero, eq_of_is_zero,
}
use offbook.Model.{Transaction, adjustment}
use offbook.Reconcile.{
  PositionKey, InsertedRow, Ledger, sum_where, system_row, shift_by, fold_quantity,
  fold_quantity_through, reconcile_fold, offset_at_next_anchor, day_of,
}
use offbook.Reconcile.Anchors.{next}

module _ {D : Type 0} ⦃d : Decimal D⦄ (laws : IsDecimal D) where
  pub sum_where-snoc :
      (p : Transaction D → Bool) (rows : List (Transaction D)) (t : Transaction D)
      → sum_where p (rows ++ (t ∷ []))
        ≡ (if p t then d.add (sum_where p rows) t.amount else sum_where p rows)
  sum_where-snoc p [] t = elim (Bool-cases (p t)) [
    | inl e ↦ rw (e, laws.add_nought, nought_add laws) refl
    | inr e ↦ rw e refl
  ]
  sum_where-snoc p (x ∷ rows) t = elim (Bool-cases (p x)) [
    | inl e ↦
        rw (e, sum_where-snoc p rows t)
          (elim (Bool-cases (p t)) [ inl f ↦ rw (f, laws.add_assoc) refl | inr f ↦ rw f refl ])
    | inr e ↦ rw e (sum_where-snoc p rows t)
  ]

  pub shift_by_add :
      (n : ℕ) (shift : D) (inserted : List (InsertedRow D))
      → shift_by n shift inserted ≡ d.add shift (shift_by n d.nought inserted)
  shift_by_add n shift [] = sym (laws.add_nought shift)
  shift_by_add n shift (r ∷ rest) = elim (Bool-cases (ltb n (day_of r.date))) [
    | inl e ↦ rw e (shift_by_add n shift rest)
    | inr e ↦
        rw
          (
            e,
            shift_by_add n (d.add shift r.amount) rest,
            shift_by_add n (d.add d.nought r.amount) rest,
            nought_add laws,
            laws.add_assoc,
          )
          refl
  ]

  module _ (k : PositionKey) (delta : D) (inserted : List (InsertedRow D)) (as_of obs_id : ℕ)
      (job : Option ℕ) (l : Ledger D) where
    pub offset_none :
        next k as_of l ≡ none → offset_at_next_anchor k delta inserted as_of obs_id job l ≡ l
    unfolding offset_at_next_anchor
    offset_none e = rw (e, offset_at_next_anchor) refl

    -- The offset counts in the sums that its row is in.
    pub offset_some :
        (p : Transaction D → Bool) (b : Bool) (n : ℕ)
        → next k as_of l ≡ some n
        → ((amount : D) (text : String) (id : ℕ)
            → p (system_row k adjustment amount text (day_of n) obs_id job id) ≡ b)
        → sum_where p (offset_at_next_anchor k delta inserted as_of obs_id job l).transactions ≡ (
            if b
            then d.add (sum_where p l.transactions) (d.neg (shift_by (day_of n) delta inserted))
            else sum_where p l.transactions)
    unfolding offset_at_next_anchor
    offset_some p b n e q =
        rw (e, offset_at_next_anchor)
          (elim (Bool-cases (is_zero (shift_by (day_of n) delta inserted))) [
            | inl z ↦
                rw (z, if◌then◌else◌, eq_of_is_zero laws _ z, neg_nought laws, laws.add_nought)
                  (sym (if-same b _))
            | inr z ↦ rw (z, if◌then◌else◌, sum_where-snoc, q) refl
          ])

-- Which fold a report is compared with.
module _ {D : Type 0} ⦃d : Decimal D⦄ (now as_of : ℕ) (k : PositionKey)
    (rows : List (Transaction D)) where
  pub fold_current :
      day_of now ≤ day_of as_of → reconcile_fold now k as_of rows ≡ (fold_quantity k rows, false)
  unfolding reconcile_fold
  fold_current h = ground arith

  pub fold_backdated :
      day_of as_of < day_of now
      → reconcile_fold now k as_of rows ≡ (fold_quantity_through k (day_of as_of) rows, true)
  unfolding reconcile_fold
  fold_backdated h = ground arith

-- The ledger that a reconciliation returns, whichever row it returns with it.
pub if-offset :
    {A B : Type 0} (z h : Bool) (x y : A) (f : B → B) (u v : B)
    → ((if◌then◌else◌ {A = A × B}) z (x, (if h then f u else u)) (y, (if h then f v else v))).1
      ≡ (if h then f (if z then u else v) else (if z then u else v))
if-offset true true x y f u v = refl
if-offset true false x y f u v = refl
if-offset false true x y f u v = refl
if-offset false false x y f u v = refl
