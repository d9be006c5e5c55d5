-- ===== src/Categories/Reassign/Merging/Kept.antt =====
-- A merge keeps the budgets apart, so that no unique index refuses it.
use offbook.Common.{
  ℕ, ◌≡◌, ◌≢◌, refl, sym, ◌∙◌, ap, subst, inl, inr, Bool, true, false, not, Option, none, some,
  List, map, String, arith, ◌==◌, str_eq, str_eq_iff, if◌then◌else◌, holds, some_of_holds, is_some,
  any-In, select, In, In-select, Bool-cases, All, All-In, map-All, Pairwise, Pairwise-select,
  map-Pairwise, Decimal, IsDecimal, ok, Ensures, Ensures-ok, Ensures-both, ◌>>=◌, after_check,
  after_check_of,
}
use offbook.Plans.{Category, Budget, IsApart, IsApart-sym, clashes, same_id, get_visible}
use offbook.Categories.{CategoryLedger, CategoryUsage, own_category, required, invalid_replacement}
use offbook.Categories.Reassign.{
  is_budget_on, is_active_on, raise_budget, is_retired, move_budget, move_budgets, merge_budgets,
  check_replacement, check_replacement-IsReplacement, IsReplacement, reassign, delete,
}
use offbook.Categories.Reassign.Merging.{budgeted, raise_keeps}
use offbook.Categories.Reassign.Merging.Totals.{merged_budgeted}

-- A budget of a user is of no household: the check `budgets_owner_chk`.
abbrev pub IsPersonal : {D : Type 0} → Budget D → Type 0
IsPersonal b = is_some b.user_id ≡ true → b.household_id ≡ none

same_holds : (user : ℕ) (o : Option ℕ) → same_id (some user) o ≡ true → holds o user ≡ true
same_holds user none h = h
same_holds user (some b) h = ground (arith, h)

module _ {D : Type 0} where
  moved_clash :
      (user from to : ℕ) (rows : List (Budget D)) (x y : Budget D)
      → IsPersonal x
      → is_budget_on user from x ≡ true
      → is_retired user from to rows x ≡ false
      → In y rows
      → IsApart (record x { category_id = to }) y
  moved_clash user from to rows x y p e r m =
      elim (Bool-cases (clashes (record x { category_id = to }) y)) [
        | inr c ↦ c
        | inl c ↦
            let u : x.user_id ≡ some user = some_of_holds user x.user_id (ground (arith, e)) in
            let h : x.household_id ≡ none = p (ap is_some u) in
            let s : same_id x.user_id y.user_id ≡ true = same_user u h c in
            let v = same_holds user y.user_id (subst (λ o. same_id o y.user_id ≡ true) u s) in
            let q : str_eq y.period x.period ≡ true =
              (str_eq_iff y.period x.period).1
                (sym ((str_eq_iff x.period y.period).0 (ground (arith, c)))) in
            let k : is_active_on user to x.period y ≡ true = ground (arith, c, v, q) in
            let t = any-In (is_active_on user to x.period) y rows m k in
            absurd (ground (arith, e, r, c, t))
      ]
    where
      same_user :
          x.user_id ≡ some user
          → x.household_id ≡ none
          → clashes (record x { category_id = to }) y ≡ true
          → same_id x.user_id y.user_id ≡ true
      same_user u h c =
          let n : same_id x.household_id y.household_id ≡ false =
            ap (λ o. same_id o y.household_id) h in
          ground (arith, c, n)

  moved_pair :
      (user from to : ℕ) (rows : List (Budget D)) (x y : Budget D)
      → IsPersonal x
      → IsPersonal y
      → is_retired user from to rows x ≡ false
      → is_retired user from to rows y ≡ false
      → In x rows
      → In y rows
      → IsApart x y
      → IsApart (move_budget user from to x) (move_budget user from to y)
  moved_pair user from to rows x y p q r s m n a = elim (Bool-cases (is_budget_on user from x)) [
    | inl e ↦ elim (Bool-cases (is_budget_on user from y)) [
      | inl f ↦ rw (e, f, if◌then◌else◌) (ground (arith, a, e, f))
      | inr f ↦ rw (e, f, if◌then◌else◌) (moved_clash user from to rows x y p e r n)
    ]
    | inr e ↦ elim (Bool-cases (is_budget_on user from y)) [
      | inl f ↦
          rw (e, f, if◌then◌else◌)
            (IsApart-sym (record y { category_id = to }) x
              (moved_clash user from to rows y x q f s m))
      | inr f ↦ rw (e, f, if◌then◌else◌) a
    ]
  ]

module _ {D : Type 0} ⦃d : Decimal D⦄ (user from to : ℕ) where
  merge_budgets-IsApart :
      (l : CategoryLedger D)
      → All IsPersonal l.budgets
      → Pairwise IsApart l.budgets
      → Pairwise IsApart (merge_budgets user from to l).budgets
  unfolding merge_budgets
  merge_budgets-IsApart l p a =
      map-Pairwise _ _ (move_budget user from to) (select keep raised)
        (λ x y m n h.
          let (i, r) = In-select keep x raised m in
          let (j, s) = In-select keep y raised n in
          moved_pair user from to raised x y (All-In _ x raised personal i)
            (All-In _ y raised personal j) (ground (arith, r)) (ground (arith, s)) i j h)
        (Pairwise-select _ keep raised
          (map-Pairwise _ _ raise l.budgets (λ x y m n h. raised_pair x y h) a))
    where
      raise : Budget D → Budget D
      raise = raise_budget user from to l.budgets

      raised : List (Budget D)
      raised = map raise l.budgets

      keep : Budget D → Bool
      keep b = not (is_retired user from to raised b)

      personal : All IsPersonal raised
      personal =
          map-All _ _ raise
            (λ b h k.
              raise_keeps user from to l.budgets (λ b. b.household_id) (λ x y. refl) b
              ∙ h (
                  ap is_some
                    (sym (raise_keeps user from to l.budgets (λ b. b.user_id) (λ x y. refl) b))
                  ∙ k))
            l.budgets p

      raised_pair : (x y : Budget D) → IsApart x y → IsApart (raise x) (raise y)
      raised_pair x y h =
          raise_keeps user from to l.budgets (λ b. clashes b (raise y)) (λ b z. refl) x
          ∙ raise_keeps user from to l.budgets (λ b. clashes x b) (λ b z. refl) y
          ∙ h

  merge_budgets-budgeted :
      (laws : IsDecimal D) (l : CategoryLedger D)
      → Pairwise IsApart l.budgets
      → from ≢ to
      → (period : String)
      → budgeted user period (merge_budgets user from to l).budgets ≡ budgeted user period l.budgets
  unfolding merge_budgets
  merge_budgets-budgeted laws l a n period =
      merged_budgeted laws user from to l.budgets a n period _ refl

-- A replacement that is asked for is found, or refused.
replacement_found :
    (user from r : ℕ) (rows : List Category)
    → Ensures
        (λ (c : Option Category). is_some c ≡ true)
        (check_replacement user from (some r) rows)
unfolding check_replacement
replacement_found user from r rows = elim (Bool-cases (r == from)) [
  | inl e ↦ rw (e, if◌then◌else◌) tt
  | inr e ↦ rw (e, if◌then◌else◌) (go (get_visible (some user) r rows))
]
  where
    go :
        (o : Option Category)
        → Ensures
            (λ (c : Option Category). is_some c ≡ true)
            (required invalid_replacement o >>= λ c. ok (some c))
    go none = tt
    go (some c) = refl

-- A category that is merged into another keeps what the user budgets for each period, and no two
-- active budgets come to share their owner, category and period, where none did before and each
-- budget has one owner.
pub delete_merges :
    {D : Type 0} ⦃d : Decimal D⦄ (laws : IsDecimal D) (user from to : ℕ) (l : CategoryLedger D)
    {r : CategoryUsage × CategoryLedger D}
    → All IsPersonal l.budgets
    → Pairwise IsApart l.budgets
    → delete user from (some to) l ≡ ok r
    → Pairwise IsApart r.1.budgets
      × ((period : String) → budgeted user period r.1.budgets ≡ budgeted user period l.budgets)
unfolding delete reassign move_budgets merge_budgets
delete_merges {D} laws user from to l {r} p a e =
    Ensures-ok Keeps _ r
      (after_check _ (own_category user from l.categories) _ λ _.
        after_check_of _ _ (check_replacement user from (some to) l.categories) _
          (Ensures-both _ _ _ (replacement_found user from to l.categories)
            (check_replacement-IsReplacement user from (some to) l.categories))
          λ c h. merged c h.0 h.1)
      e
  where
    Keeps : CategoryUsage × CategoryLedger D → Type 0
    Keeps x =
        Pairwise IsApart x.1.budgets
        × ((period : String) → budgeted user period x.1.budgets ≡ budgeted user period l.budgets)

    merged :
        (c : Option Category)
        → is_some c ≡ true
        → IsReplacement user from l.categories c
        → Keeps (reassign user from c l)
    merged none i h = cc
    merged (some c) i (m, v, n) = (
      merge_budgets-IsApart user from c.id l p a,
      merge_budgets-budgeted user from c.id laws l a (λ q. n (sym q)),
    )
