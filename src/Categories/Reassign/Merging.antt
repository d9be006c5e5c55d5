-- ===== src/Categories/Reassign/Merging.antt =====
-- One budget row in a merge of categories: what it is before and after, loses and gains.
pub mod Totals
pub mod Kept
use offbook.Common.{
  ℕ, ◌≡◌, ◌≢◌, refl, sym, ◌∙◌, ap, subst, inl, inr, Bool, true, false, not, ◌&&◌, ◌||◌, Option,
  none, some, List, [], ◌∷◌, ◌++◌, map, String, arith, ◌==◌, str_eq, str_eq_iff, if◌then◌else◌,
  holds, some_of_holds, any, select, In, In-select, select-In, any_there, Bool-cases, All, All-In,
  All-of_In, ◌⊎◌, Pairwise, Pairwise-select, Decimal, IsDecimal, total, total-select, total-same,
  total-add, total-nought, nought_add, add_left_cancel, length,
}
use offbook.Plans.{Budget, IsApart, clashes}
use offbook.Valuation.{head}
use offbook.Categories.Reassign.{
  is_budget_on, is_active_on, source_budget, plus, raise_budget, is_retired, move_budget,
}

-- The user's active budgets of a period.
abbrev pub counts : {D : Type 0} → ℕ → String → Budget D → Bool
counts user period b = holds b.user_id user && b.is_active && str_eq b.period period

module _ {D : Type 0} ⦃d : Decimal D⦄ where
  open d use {nought, add}

  abbrev pub counted : ℕ → String → Budget D → D
  counted user period b = if counts user period b then b.amount else nought

  -- What the user budgets for a period.
  pub budgeted : ℕ → String → List (Budget D) → D
  budgeted user period rows = total (map (counted user period) rows)

  pub total-map :
      {A B : Type 0} (w : B → D) (f : A → B) (xs : List A)
      → total (map w (map f xs)) ≡ total (map (λ x. w (f x)) xs)
  total-map w f [] = refl
  total-map w f (x ∷ xs) = ap (add (w (f x))) (total-map w f xs)

module _ {D : Type 0} ⦃d : Decimal D⦄ (user from to : ℕ) (budgets : List (Budget D)) where
  open d use {nought, add}

  abbrev pub raise : Budget D → Budget D
  raise = raise_budget user from to budgets

  -- An update of the amount alone.
  pub raise_keeps :
      {A : Type 0} (f : Budget D → A)
      → ((b : Budget D) (x : D) → f (record b { amount = x }) ≡ f b)
      → (b : Budget D) → f (raise b) ≡ f b
  raise_keeps f h b = elim (Bool-cases (is_budget_on user to b && b.is_active)) [
    | inl e ↦ rw (e, if◌then◌else◌) (h b _)
    | inr e ↦ rw (e, if◌then◌else◌) refl
  ]

  any-raise :
      (p : Budget D → Bool)
      → ((b : Budget D) (x : D) → p (record b { amount = x }) ≡ p b)
      → (rows : List (Budget D)) → any p (map raise rows) ≡ any p rows
  any-raise p h [] = refl
  any-raise p h (b ∷ rows) = rw (raise_keeps p h b, any-raise p h rows) refl

  -- The amount that a target's budget of the period gains.
  abbrev pub gain : String → D
  gain period = plus nought (source_budget user from period budgets)

  raise_amount :
      (laws : IsDecimal D) (period : String) (b : Budget D)
      → is_active_on user to period b ≡ true
      → (raise b).amount ≡ add b.amount (gain period)
  raise_amount laws period b e =
      rw (on, if◌then◌else◌, same) (go (source_budget user from period budgets))
    where
      on : (is_budget_on user to b && b.is_active) ≡ true
      on = ground (arith, e)

      same : b.period ≡ period
      same = (str_eq_iff b.period period).0 (ground (arith, e))

      go : (o : Option (Budget D)) → plus b.amount o ≡ add b.amount (plus nought o)
      go none = sym (laws.add_nought b.amount)
      go (some a) = ap (add b.amount) (sym (nought_add laws a.amount))

  retired-raise :
      (b : Budget D)
      → is_retired user from to (map raise budgets) (raise b) ≡ is_retired user from to budgets b
  retired-raise b =
      raise_keeps (is_retired user from to (map raise budgets)) (λ x y. refl) b
      ∙ ap (λ t. is_budget_on user from b && b.is_active && t)
          (any-raise (is_active_on user to b.period) (λ x y. refl) budgets)

  -- One row, before and after: `t` and `f` say that it is a target's and that it is on `from`.
  balance :
      (laws : IsDecimal D) (t c f r k : Bool) (a after g : D)
      → (t ≡ true → (c ≡ true) × (f ≡ false) × (r ≡ false) × (after ≡ add a g))
      → (t ≡ false → c ≡ true → after ≡ a)
      → (f ≡ true → (c ≡ true) × (r ≡ k))
      → (f ≡ false → c ≡ true → r ≡ false)
      → add (if not r then (if c then after else nought) else nought) (if f && k then a else nought)
        ≡ add (if c then a else nought) (if t then g else nought)
  balance laws true c f r k a after g h h' j j' =
      let (e1, e2, e3, e4) = h refl in
      rw (e1, e2, e3, e4, if◌then◌else◌) (laws.add_nought (add a g))
  balance laws false false true r k a after g h h' j j' = let (e, _) = j refl in cc
  balance laws false false false true k a after g h h' j j' = refl
  balance laws false false false false k a after g h h' j j' = refl
  balance laws false true true r true a after g h h' j j' =
      let (_, e) = j refl in rw (e, if◌then◌else◌) (laws.add_comm nought a)
  balance laws false true true r false a after g h h' j j' =
      let (_, e) = j refl in rw (e, h' refl refl, if◌then◌else◌) refl
  balance laws false true false r k a after g h h' j j' =
      rw (j' refl refl, h' refl refl, if◌then◌else◌) refl

  abbrev pub has_target : String → Bool
  has_target period = any (is_active_on user to period) budgets

  -- The budget of a row after the merge, and what it loses and gains.
  abbrev pub after_merge : String → Budget D → D
  after_merge period b =
      if not (is_retired user from to (map raise budgets) (raise b))
      then counted user period (raise b)
      else nought

  abbrev pub lost : String → Budget D → D
  lost period b = if is_active_on user from period b && has_target period then b.amount else nought

  abbrev pub gained : String → Budget D → D
  gained period b = if is_active_on user to period b then gain period else nought

  pub row_balance :
      (laws : IsDecimal D)
      → from ≢ to
      → (period : String) (b : Budget D)
      → add (after_merge period b) (lost period b) ≡ add (counted user period b) (gained period b)
  row_balance laws n period b =
      rw (retired-raise b, raise_keeps (counts user period) (λ x y. refl) b)
        (balance laws (is_active_on user to period b) (counts user period b)
          (is_active_on user from period b) (is_retired user from to budgets b) (has_target period)
          b.amount (raise b).amount (gain period)
          (λ e. (
            ground (arith, e),
            ground (arith, e, n),
            ground (arith, e, n),
            raise_amount laws period b e,
          ))
          (λ e c. passed e c)
          (λ e. (
            ground (arith, e),
            ground (arith, e, ap has_target ((str_eq_iff b.period period).0 (ground (arith, e)))),
          ))
          (λ e c. ground (arith, e, c)))
    where
      passed :
          is_active_on user to period b ≡ false
          → counts user period b ≡ true
          → (raise b).amount ≡ b.amount
      passed e c =
          let f : (is_budget_on user to b && b.is_active) ≡ false = ground (arith, e, c) in
          rw (f, if◌then◌else◌) refl
