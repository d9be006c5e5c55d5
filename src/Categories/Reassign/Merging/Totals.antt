-- ===== src/Categories/Reassign/Merging/Totals.antt =====
-- Merging a category into another keeps what is budgeted: the sums over the rows.
use offbook.Common.{
  ℕ, ◌≡◌, ◌≢◌, refl, sym, ◌∙◌, ap, subst, inl, inr, Bool, true, false, not, some, List, [], ◌∷◌,
  map, String, arith, str_eq, str_eq_iff, if◌then◌else◌, some_of_holds, any, select, In, In-select,
  select-In, any_there, Bool-cases, All, All-of_In, ◌⊎◌, Pairwise, Pairwise-select, Decimal,
  IsDecimal, total, total-select, total-same, total-add, total-nought, nought_add, add_left_cancel,
}
use offbook.Plans.{Budget, IsApart, clashes}
use offbook.Valuation.{head}
use offbook.Categories.Reassign.{
  is_budget_on, is_active_on, source_budget, plus, raise_budget, is_retired, move_budget,
}
use offbook.Categories.Reassign.Merging.{
  counted, budgeted, total-map, gain, after_merge, lost, gained, has_target, row_balance,
}

module _ {D : Type 0} (user category : ℕ) (period : String) where
  active_clash :
      (x y : Budget D)
      → is_active_on user category period x ≡ true
      → is_active_on user category period y ≡ true
      → clashes x y ≡ true
  active_clash x y e f =
      let u : x.user_id ≡ some user = some_of_holds user x.user_id (ground (arith, e)) in
      let v : y.user_id ≡ some user = some_of_holds user y.user_id (ground (arith, f)) in
      let q : str_eq x.period y.period ≡ true = (str_eq_iff x.period y.period).1 (
        (str_eq_iff x.period period).0 (ground (arith, e))
        ∙ sym ((str_eq_iff y.period period).0 (ground (arith, f)))) in
      rw (u, v, q) (ground (arith, e, f))

  -- Of budgets that are apart at most one is active on a category for a period.
  at_most_one :
      (rows : List (Budget D))
      → Pairwise IsApart rows
      → All (λ b. is_active_on user category period b ≡ true) rows
      → (rows ≡ []) ⊎ ((b : Budget D) × (rows ≡ b ∷ []))
  at_most_one [] h k = inl refl
  at_most_one (x ∷ []) h k = inr (x, refl)
  at_most_one (x ∷ y ∷ rows) ((a, _), _) (e, (f, _)) = let c = active_clash x y e f in cc

  active_one :
      (rows : List (Budget D))
      → Pairwise IsApart rows
      → (select (is_active_on user category period) rows ≡ [])
        ⊎ ((b : Budget D) × (select (is_active_on user category period) rows ≡ b ∷ []))
  active_one rows h =
      at_most_one (select (is_active_on user category period) rows)
        (Pairwise-select IsApart _ rows h)
        (All-of_In _ _ (λ b m. (In-select (is_active_on user category period) b rows m).1))

select-any : {A : Type 0} (p : A → Bool) (rows : List A) → any p rows ≡ false → select p rows ≡ []
select-any p [] h = refl
select-any p (x ∷ rows) h =
    let e : p x ≡ false = ground (arith, h) in rw e (select-any p rows (ground (arith, h)))

module _ {D : Type 0} ⦃d : Decimal D⦄ (laws : IsDecimal D) (user from to : ℕ)
    (budgets : List (Budget D)) (apart : Pairwise IsApart budgets) where
  open d use {nought, add}

  gain_is :
      (period : String) (rows : List (Budget D))
      → select (is_active_on user from period) budgets ≡ rows
      → gain user from to budgets period ≡ plus nought (head rows)
  unfolding source_budget
  gain_is period rows e = ap (λ r. plus nought (head r)) e

  lost_is :
      (period : String) (rows : List (Budget D))
      → has_target user from to budgets period ≡ true
      → select (is_active_on user from period) budgets ≡ rows
      → total (map (lost user from to budgets period) budgets) ≡ total (map (λ b. b.amount) rows)
  lost_is period rows e f =
      total-same laws (lost user from to budgets period)
        (λ b. if is_active_on user from period b then b.amount else nought) budgets
        (λ b. ground (arith, e))
      ∙ sym (total-select laws (λ (b : Budget D). b.amount) (is_active_on user from period) budgets)
      ∙ ap (λ r. total (map (λ b. b.amount) r)) f

  gained_is :
      (period : String) (b : Budget D)
      → select (is_active_on user to period) budgets ≡ b ∷ []
      → total (map (gained user from to budgets period) budgets)
        ≡ add (gain user from to budgets period) nought
  gained_is period b f =
      sym (
        total-select laws (λ (b : Budget D). gain user from to budgets period)
          (is_active_on user to period) budgets)
      ∙ ap (λ r. total (map (λ (b : Budget D). gain user from to budgets period) r)) f

  lost_one :
      (period : String) (rows : List (Budget D))
      → has_target user from to budgets period ≡ true
      → select (is_active_on user from period) budgets ≡ rows
      → (rows ≡ []) ⊎ ((a : Budget D) × (rows ≡ a ∷ []))
      → total (map (lost user from to budgets period) budgets)
        ≡ add (gain user from to budgets period) nought
  lost_one period rows e f (inl q) =
      lost_is period [] e (f ∙ q)
      ∙ sym (laws.add_nought nought)
      ∙ sym (ap (λ x. add x nought) (gain_is period [] (f ∙ q)))
  lost_one period rows e f (inr (a, q)) =
      lost_is period (a ∷ []) e (f ∙ q)
      ∙ ap (λ x. add x nought)
          (sym (nought_add laws a.amount) ∙ sym (gain_is period (a ∷ []) (f ∙ q)))

  -- What the target gains is what its source_budget loses.
  lost-gained :
      (period : String)
      → total (map (lost user from to budgets period) budgets)
        ≡ total (map (gained user from to budgets period) budgets)
  lost-gained period = elim (Bool-cases (has_target user from to budgets period)) [
    | inl e ↦ elim (active_one user to period budgets apart) [
      | inl q ↦
          let (x, m, t) = any_there (is_active_on user to period) budgets e in
          absurd (subst (In x) q (select-In (is_active_on user to period) x budgets m t))
      | inr (b, q) ↦
          lost_one period (select (is_active_on user from period) budgets) e refl
            (active_one user from period budgets apart)
          ∙ sym (gained_is period b q)
    ]
    | inr e ↦
        total-nought laws (lost user from to budgets period) budgets (λ b. ground (arith, e))
        ∙ sym (
            ap (λ rows. total (map (λ (b : Budget D). gain user from to budgets period) rows))
              (select-any (is_active_on user to period) budgets e))
        ∙ total-select laws (λ (b : Budget D). gain user from to budgets period)
            (is_active_on user to period) budgets
  ]

  add_right_cancel : (a b c : D) → add a c ≡ add b c → a ≡ b
  add_right_cancel a b c e = add_left_cancel laws c a b (laws.add_comm c a ∙ e ∙ laws.add_comm b c)

  -- The sum over the rows, before and after.
  merged_total :
      from ≢ to
      → (period : String)
      → total (map (after_merge user from to budgets period) budgets) ≡ budgeted user period budgets
  unfolding budgeted
  merged_total n period =
      add_right_cancel _ _ (total (map (lost user from to budgets period) budgets)) (
        sym (
          total-add laws (after_merge user from to budgets period)
            (lost user from to budgets period) budgets)
        ∙ total-same laws _
            (λ b. add (counted user period b) (gained user from to budgets period b)) budgets
            (row_balance user from to budgets laws n period)
        ∙ total-add laws (counted user period) (gained user from to budgets period) budgets
        ∙ ap (add (total (map (counted user period) budgets))) (sym (lost-gained period)))

  moved_counted :
      (period : String) (b : Budget D)
      → counted user period (move_budget user from to b) ≡ counted user period b
  moved_counted period b = elim (Bool-cases (is_budget_on user from b)) [
    | inl e ↦ rw (e, if◌then◌else◌) refl
    | inr e ↦ rw (e, if◌then◌else◌) refl
  ]

  -- The statements on the budgets keep what is budgeted.
  pub merged_budgeted :
      from ≢ to
      → (period : String) (raised : List (Budget D))
      → raised ≡ map (raise_budget user from to budgets) budgets
      → budgeted user period (
          map
            (move_budget user from to)
            (select (λ b. not (is_retired user from to raised b)) raised))
        ≡ budgeted user period budgets
  unfolding budgeted
  merged_budgeted n period raised e =
      total-map (counted user period) (move_budget user from to) _
      ∙ total-same laws _ (counted user period) _ (moved_counted period)
      ∙ total-select laws (counted user period) (λ b. not (is_retired user from to raised b)) raised
      ∙ ap
          (λ r. total (
            map (λ b. if not (is_retired user from to r b) then counted user period b else nought)
              r))
          e
      ∙ total-map _ (raise_budget user from to budgets) budgets
      ∙ merged_total n period
