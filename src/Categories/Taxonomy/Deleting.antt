-- ===== src/Categories/Taxonomy/Deleting.antt =====
-- Deletions keep the taxonomy.
use offbook.Common.{
  ℕ, ◌≡◌, ◌≢◌, refl, sym, ◌∙◌, ap, inl, inr, true, not, ◌&&◌, ◌||◌, Option, none, some, List, arith,
  ◌==◌, if◌then◌else◌, holds, holds-some, some_of_holds, is_some, All-select, Pairwise-select,
  Pairwise-one, Bool-cases, All, All-In, map-All, In, Pairwise, map-Pairwise, Decimal, Ensures,
  after_check_of,
}
use offbook.Model.{Strings}
use offbook.Plans.{Category}
use offbook.Categories.{CategoryLedger}
use offbook.Categories.{own_category, CategoryUsage}
use offbook.Categories.Reassign.{
  reparent, target_group, drop_category, IsReplacement, check_replacement,
  check_replacement-IsReplacement, id_of, move_budgets, retire_budgets, merge_budgets, reassign,
  delete,
}
use offbook.Categories.Taxonomy.{IsGrouped, IsTaxonomy, owner_of_visible}
use offbook.Categories.Taxonomy.Reparenting.{
  IsOwn, own_category-IsOwn, reparent_id, reparent_user, reparent_names, reparent_slugs,
  reparent_top, stays,
}

group_of :
    (group : Option ℕ) (id p : ℕ)
    → (if holds group id then none else group) ≡ some p
    → group ≡ some p
group_of none id p h = h
group_of (some a) id p h = elim (Bool-cases (a == id)) [
  | inl e ↦ absurd (grind (arith, h, e))
  | inr e ↦ grind (arith, h, e)
]

-- The replacement that is a group: it is top-level, or under `from`.
group_is :
    (from : ℕ) (g : Category) (p : ℕ)
    → target_group from (some g) ≡ some p
    → ((not (is_some g.parent_id) || holds g.parent_id from) ≡ true) × (g.id ≡ p)
group_is from g p h = elim (Bool-cases (not (is_some g.parent_id) || holds g.parent_id from)) [
  | inl e ↦ (e, grind (arith, h, e))
  | inr e ↦ absurd (grind (arith, h, e))
]

module _ (user from : ℕ) (rows : List Category) (distinct : Pairwise (λ x y. x.id ≢ y.id) rows)
    (own : IsOwn user from rows) where
  -- A row under `from` is the user's.
  under_from : (c : Category) → IsGrouped rows c → c.parent_id ≡ some from → c.user_id ≡ some user
  under_from c h q =
      let (f, m, i, o) = own in
      let (g, n, j, t, k) = h from q in
      let same : g ≡ f = Pairwise-one (λ c. c.id) rows distinct g f n m (j ∙ sym i) in
      let u : g.user_id ≡ some user = ap (λ c. c.user_id) same ∙ o in sym (k (ap is_some u)) ∙ u

  -- Where the subcategories go.
  group_stays :
      (to : Option Category) (p : ℕ)
      → IsReplacement user from rows to
      → All (IsGrouped rows) rows
      → target_group from to ≡ some p
      → (g : Category) × In g rows
        × (g.id ≡ p)
        × (g.id ≢ from)
        × ((reparent user from (target_group from to) g).parent_id ≡ none)
        × (is_some g.user_id ≡ true → g.user_id ≡ some user)
  group_stays none p h k e = cc
  group_stays (some g) p (m, v, n) k e = (
    g,
    m,
    i,
    n,
    top (target_group from (some g)) e (g.parent_id) refl,
    owner_of_visible user g.user_id v,
  )
    where
      i : g.id ≡ p
      i = (group_is from g p e).1

      top :
          (group : Option ℕ)
          → group ≡ some p
          → (o : Option ℕ) → g.parent_id ≡ o
          → (reparent user from group g).parent_id ≡ none
      top group q none f = reparent_top user from group g f
      top group q (some a) f =
          let t = (group_is from g p e).0 in
          let z : holds g.parent_id from ≡ true = ground (arith, t, ap is_some f) in
          let u =
            holds-some user g.user_id
              (under_from g (All-In _ g rows k m) (some_of_holds from g.parent_id z)) in
          rw (u, z, holds-some g.id group (q ∙ ap some (sym i)), if◌then◌else◌) refl

  dropped-IsGrouped :
      (to : Option Category) (c : Category)
      → IsReplacement user from rows to
      → All (IsGrouped rows) rows
      → IsGrouped rows c
      → IsGrouped (drop_category user from to rows) (reparent user from (target_group from to) c)
  unfolding drop_category
  dropped-IsGrouped to c r all h =
      elim (Bool-cases (holds c.user_id user && holds c.parent_id from)) [
        | inl e ↦
            rw (e, if◌then◌else◌)
              (λ p q.
                let (g, m, i, n, t, o) =
                  group_stays to p r all (group_of (target_group from to) c.id p q) in
                (
                  reparent user from (target_group from to) g,
                  stays user from (target_group from to) rows g m n,
                  reparent_id user from (target_group from to) g ∙ i,
                  t,
                  λ k.
                      reparent_user user from (target_group from to) g
                      ∙ o (ap is_some (sym (reparent_user user from (target_group from to) g)) ∙ k)
                      ∙ sym (some_of_holds user c.user_id (ground (arith, e))),
                ))
        | inr e ↦
            rw (e, if◌then◌else◌)
              (λ p q.
                let (g, m, i, t, o) = h p q in
                (
                  reparent user from (target_group from to) g,
                  stays user from (target_group from to) rows g m (λ z.
                      let f = q ∙ ap some (sym i ∙ z) in
                      ground (
                        arith,
                        e,
                        holds-some from c.parent_id f,
                        holds-some user c.user_id (under_from c h f),
                      )),
                  reparent_id user from (target_group from to) g ∙ i,
                  reparent_top user from (target_group from to) g t,
                  λ k.
                      reparent_user user from (target_group from to) g
                      ∙ o (ap is_some (sym (reparent_user user from (target_group from to) g)) ∙ k),
                ))
      ]

module _ ⦃s : Strings⦄ (user from : ℕ) where
  drop_category-IsTaxonomy :
      (to : Option Category) (rows : List Category) (next : ℕ)
      → IsOwn user from rows
      → IsReplacement user from rows to
      → IsTaxonomy rows next
      → IsTaxonomy (drop_category user from to rows) next
  unfolding drop_category
  drop_category-IsTaxonomy to rows next own r t = record {
    started = t.started;
    distinct = Pairwise-select _ _ _ (
        map-Pairwise _ _ put rows
          (λ x y m n d q.
            d (sym (reparent_id user from group x) ∙ q ∙ reparent_id user from group y))
          t.distinct);
    numbered =
        All-select _ _ _
          (map-All _ _ put (λ x h. rw (reparent_id user from group x) h) rows t.numbered);
    named =
        Pairwise-select _ _ _
          (map-Pairwise _ _ put rows (λ x y m n. reparent_names user from group x y) t.named);
    slugged =
        Pairwise-select _ _ _
          (map-Pairwise _ _ put rows (λ x y m n. reparent_slugs user from group x y) t.slugged);
    grouped = All-select _ _ _ (
        map-All _ _ put (λ c. dropped-IsGrouped user from rows t.distinct own to c r t.grouped) rows
          t.grouped);
  }
    where
      group : Option ℕ
      group = target_group from to

      put : Category → Category
      put = reparent user from group

  reassign_next :
      {D : Type 0} ⦃d : Decimal D⦄ (to : Option Category) (l : CategoryLedger D)
      → (move_budgets user from (id_of to) l).next_category_id ≡ l.next_category_id
  unfolding move_budgets retire_budgets merge_budgets
  reassign_next none l = refl
  reassign_next (some c) l = refl

  pub delete-IsTaxonomy :
      {D : Type 0} ⦃d : Decimal D⦄ (replace_with : Option ℕ) (l : CategoryLedger D)
      → IsTaxonomy l.categories l.next_category_id
      → Ensures
          (λ (r : CategoryUsage × CategoryLedger D). IsTaxonomy r.1.categories r.1.next_category_id)
          (delete user from replace_with l)
  unfolding delete reassign
  delete-IsTaxonomy replace_with l t =
      after_check_of _ _ (own_category user from l.categories) _
        (own_category-IsOwn user from l.categories)
        λ _ own.
          after_check_of _ _ (check_replacement user from replace_with l.categories) _
            (check_replacement-IsReplacement user from replace_with l.categories)
            λ to r. reassigned to own r
    where
      reassigned :
          (to : Option Category)
          → IsOwn user from l.categories
          → IsReplacement user from l.categories to
          → IsTaxonomy
              (reassign user from to l).1.categories
              (reassign user from to l).1.next_category_id
      reassigned to own r =
          rw (reassign_next to l)
            (drop_category-IsTaxonomy to l.categories l.next_category_id own r t)
