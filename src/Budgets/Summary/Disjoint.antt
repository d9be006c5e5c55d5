-- ===== src/Budgets/Summary/Disjoint.antt =====
-- No category is counted by two budgets of a month.
use offbook.Common.{
  ℕ, ◌≡◌, refl, sym, ◌∙◌, ap, subst, inl, inr, ◌⊎◌, Bool, true, false, not, ◌&&◌, Option, none,
  some, List, [], ◌∷◌, map, arith, ◌==◌, ==_refl, str_eq, str_eq_iff, holds, select, has_id,
  Bool-cases, All, All-of_In, In, In-select, Pairwise, Pairwise-select, Pairwise-sort, any-In,
  Decimal,
}
use mathlib.Core.Bool.{true≢false}
use offbook.Common.Sort.{In-sort}
use offbook.Plans.{
  Category, Budget, user_owner, owned_by, same_id, IsApart, IsApart-sym, list_categories,
}
use offbook.Budgets.{Book, period_window, current_period_spend}
use offbook.Budgets.Summary.{
  BudgetSpend, active_first, list_budgets, own_budget, coverage, spend_view, is_monthly,
  budgeted_ids, month_views,
}
use offbook.Budgets.Summary.Balances.{Apart, IsOfMonth, has_id-append}

found_id :
    (c : ℕ) (rows : List Category)
    → has_id (map (λ q. q.id) rows) c ≡ true
    → (q : Category) × In q rows × (q.id ≡ c)
found_id c [] h = cc
found_id c (q ∷ rows) h = elim (Bool-cases (c == q.id)) [
  | inl e ↦ (q, inl refl, ground arith)
  | inr e ↦ let (x, m, i) = found_id c rows (ground (arith, h, e)) in (x, inr m, i)
]

holds-some : (o : Option ℕ) (b : ℕ) → holds o b ≡ true → o ≡ some b
holds-some none b h = cc
holds-some (some a) b h = ap (λ n. some n) (ground arith)

module _ {D : Type 0} where
  -- A category that a budget covers is its own or a subcategory without a budget.
  abbrev pub Covers : List Category → List (Budget D) → Budget D → ℕ → Type 0
  Covers cats budgets b c =
      (c ≡ b.category_id)
      ⊎ ((q : Category) × In q cats
          × (q.id ≡ c)
          × (q.parent_id ≡ some b.category_id)
          × (own_budget budgets c ≡ false))

  pub coverage-Covers :
      (cats : List Category) (budgets : List (Budget D)) (b : Budget D) (c : ℕ)
      → has_id (coverage cats budgets b) c ≡ true
      → Covers cats budgets b c
  unfolding coverage
  coverage-Covers cats budgets b c h = elim (Bool-cases (c == b.category_id)) [
    | inl e ↦ inl (ground arith)
    | inr e ↦
        let (q, m, i) = found_id c (select child cats) (ground (arith, h, e)) in
        let (n, t) = In-select child q cats m in
        inr (
          q,
          n,
          i,
          holds-some q.parent_id b.category_id (ground (arith, t)),
          subst (λ k. own_budget budgets k ≡ false) i (ground (arith, t)),
        )
  ]
    where
      child : Category → Bool
      child q = holds q.parent_id b.category_id && not (own_budget budgets q.id)

  module _ (cats : List Category)
      (one : (p q : Category) → In p cats → In q cats → p.id ≡ q.id → p ≡ q) (user : ℕ)
      (budgets : List (Budget D))
      (owned : (b : Budget D) → In b budgets → holds b.user_id user ≡ true) where
    -- Two budgets with one category clash.
    same_target :
        (x y : Budget D)
        → In x budgets
        → In y budgets
        → is_monthly x ≡ true
        → is_monthly y ≡ true
        → IsApart x y
        → x.category_id ≡ y.category_id
        → ⊥
    same_target x y m n h k a e =
        let period : str_eq x.period y.period ≡ true =
          (str_eq_iff x.period y.period).1 (of_month x h ∙ sym (of_month y k)) in
        let owner : same_id x.user_id y.user_id ≡ true =
          rw (holds-some x.user_id user (owned x m), holds-some y.user_id user (owned y n))
            (==_refl user) in
        ground (arith, a, h, k, period, owner)
      where
        of_month : (b : Budget D) → is_monthly b ≡ true → b.period ≡ "monthly"
        of_month b t = (str_eq_iff b.period "monthly").0 (ground (arith, t))

    own_budget-active :
        (b : Budget D) (c : ℕ)
        → In b budgets
        → is_monthly b ≡ true
        → c ≡ b.category_id
        → own_budget budgets c ≡ true
    own_budget-active b c m h e =
        any-In (λ k. k.is_active && (k.category_id == c)) b budgets m (ground (arith, h, e))

    apart-Covers :
        (x y : Budget D)
        → In x budgets
        → In y budgets
        → is_monthly x ≡ true
        → is_monthly y ≡ true
        → IsApart x y
        → (c : ℕ) → Covers cats budgets x c
        → Covers cats budgets y c
        → ⊥
    apart-Covers x y m n h k a c (inl p) (inl q) = same_target x y m n h k a (sym p ∙ q)
    apart-Covers x y m n h k a c (inl p) (inr (u, um, ui, up, uo)) =
        absurd (true≢false (sym (own_budget-active x c m h p) ∙ uo))
    apart-Covers x y m n h k a c (inr (u, um, ui, up, uo)) (inl q) =
        absurd (true≢false (sym (own_budget-active y c n k q) ∙ uo))
    apart-Covers x y m n h k a c (inr (u, um, ui, up, uo)) (inr (v, vm, vi, vp, vo)) =
        same_target x y m n h k a
          (parents (sym up ∙ ap (λ r. r.parent_id) (one u v um vm (ui ∙ sym vi)) ∙ vp))
      where
        parents : {i j : ℕ} → ◌≡◌ {A = Option ℕ} (some i) (some j) → i ≡ j
        parents e = cc

module _ {D : Type 0} ⦃d : Decimal D⦄ (book : Book D) (user on : ℕ)
    (one : (p q : Category) → In p book.categories → In q book.categories → p.id ≡ q.id → p ≡ q)
    (unique : Pairwise IsApart book.budgets) where
  abbrev budgets : List (Budget D)
  budgets = list_budgets (user_owner user) book.budgets

  abbrev cats : List Category
  cats = list_categories user book.categories

  abbrev view : Budget D → BudgetSpend D
  view b = spend_view book user b (coverage cats budgets b) on

  owned : (b : Budget D) → In b budgets → holds b.user_id user ≡ true
  unfolding list_budgets
  owned b m =
      let (n, t) =
        In-select (λ k. owned_by (some user) none k.user_id k.household_id) b book.budgets
          (In-sort active_first b _ m) in
      ground (arith, t)

  listed_once : (p q : Category) → In p cats → In q cats → p.id ≡ q.id → p ≡ q
  unfolding list_categories
  listed_once p q m n e =
      one p q (In-select _ p book.categories m).0 (In-select _ q book.categories n).0 e

  listed-IsApart : Pairwise IsApart budgets
  unfolding list_budgets
  listed-IsApart =
      Pairwise-sort IsApart IsApart-sym active_first _
        (Pairwise-select IsApart _ book.budgets unique)

  view_ids : (b : Budget D) → (view b).category_ids ≡ coverage cats budgets b
  unfolding spend_view
  view_ids b = refl

  elsewhere :
      (b : Budget D) (c : ℕ)
      → In b budgets
      → is_monthly b ≡ true
      → has_id (coverage cats budgets b) c ≡ true
      → (bs : List (Budget D)) → All (λ k. In k budgets × (is_monthly k ≡ true)) bs
      → All (IsApart b) bs
      → has_id (budgeted_ids (map view bs)) c ≡ false
  unfolding budgeted_ids spend_view
  elsewhere b c m t e [] hs p = refl
  elsewhere b c m t e (k ∷ bs) ((n, u), hs) (a, p) =
      rw
        (
          has_id-append (coverage cats budgets k) (budgeted_ids (map view bs)) c,
          other,
          elsewhere b c m t e bs hs p,
        )
        refl
    where
      other : has_id (coverage cats budgets k) c ≡ false
      other = elim (Bool-cases (has_id (coverage cats budgets k) c)) [
        | inl f ↦ absurd (
            apart-Covers cats listed_once user budgets owned b k m n t u a c
              (coverage-Covers cats budgets b c e) (coverage-Covers cats budgets k c f))
        | inr f ↦ f
      ]

  -- The views of some of the monthly budgets, none of which clash.
  views-Apart :
      (bs : List (Budget D))
      → All (λ b. In b budgets × (is_monthly b ≡ true)) bs
      → Pairwise IsApart bs
      → Apart (map view bs)
  unfolding spend_view
  views-Apart [] h p = tt
  views-Apart (b ∷ bs) ((m, t), hs) (p, ps) =
      ((λ c e. elsewhere b c m t e bs hs p), views-Apart bs hs ps)

  monthly_listed : All (λ b. In b budgets × (is_monthly b ≡ true)) (select is_monthly budgets)
  monthly_listed = All-of_In _ _ (λ b m. In-select is_monthly b budgets m)

  pub month_views-Apart : Apart (month_views book user on)
  unfolding month_views
  month_views-Apart =
      views-Apart (select is_monthly budgets) monthly_listed
        (Pairwise-select IsApart is_monthly budgets listed-IsApart)

  views-IsOfMonth :
      (bs : List (Budget D))
      → All (λ b. In b budgets × (is_monthly b ≡ true)) bs
      → All
          (IsOfMonth book.lines user (period_window "monthly" on).0 (period_window "monthly" on).1)
          (map view bs)
  unfolding spend_view
  views-IsOfMonth [] h = tt
  views-IsOfMonth (b ∷ bs) ((m, t), hs) = (
    ap
        (λ p.
          current_period_spend book.lines user (coverage cats budgets b) (period_window p on).0
            (period_window p on).1)
        period,
    views-IsOfMonth bs hs,
  )
    where
      period : b.period ≡ "monthly"
      period = (str_eq_iff b.period "monthly").0 (ground (arith, t))

  pub month_views-IsOfMonth :
      All
        (IsOfMonth book.lines user (period_window "monthly" on).0 (period_window "monthly" on).1)
        (month_views book user on)
  unfolding month_views
  month_views-IsOfMonth = views-IsOfMonth (select is_monthly budgets) monthly_listed
