-- ===== src/Categories/Taxonomy/Renaming.antt =====
-- Renamings keep the taxonomy.
use offbook.Common.{
  ℕ, ◌≡◌, ◌≢◌, refl, sym, ◌∙◌, ap, inl, inr, false, not, some, List, map, String, arith,
  if◌then◌else◌, some_of_holds, is_some, any, Bool-cases, map-All, In, map-In, Pairwise-both,
  map-Pairwise, fail_if, Ensures, after_check, after_check_of,
}
use offbook.Model.{Strings}
use offbook.Plans.{Category, get_visible}
use offbook.Categories.{category_read_only, category_not_found, CategoryLedger, required}
use offbook.Categories.Slugs.{name_taken, check_name}
use offbook.Categories.Editing.{is_own, with_name, rename_category, rename}
use offbook.Categories.Taxonomy.{
  HaveOtherSlugs, HaveOtherNames, IsGrouped, IsTaxonomy, seen, seen_left, free_name,
  check_name-free,
}

module _ ⦃s : Strings⦄ where
  renamed_id : (user id : ℕ) (name : String) (c : Category) → (with_name user id name c).id ≡ c.id
  renamed_id user id name c = ground arith

  renamed_pair :
      (user id : ℕ) (name : String) (rows : List Category)
      → name_taken user name id rows ≡ false
      → (x y : Category) → In x rows
      → In y rows
      → (x.id ≢ y.id) × HaveOtherNames x y
      → HaveOtherNames (with_name user id name x) (with_name user id name y)
  renamed_pair user id name rows free x y m n (d, a) = elim (Bool-cases (is_own user id x)) [
    | inl e ↦ elim (Bool-cases (is_own user id y)) [
      | inl f ↦ absurd (d (ground (arith, e, f)))
      | inr f ↦
          rw (e, f, if◌then◌else◌)
            (λ h q.
              free_name user name id rows y free n (λ r. d (ground (arith, e, r)))
                (seen_left user x.user_id y.user_id
                  (some_of_holds user x.user_id (ground (arith, e))) h)
                (sym q))
    ]
    | inr e ↦ elim (Bool-cases (is_own user id y)) [
      | inl f ↦
          rw (e, f, if◌then◌else◌)
            (λ h.
              free_name user name id rows x free m (λ r. d (ground (arith, f, r)))
                (seen user x.user_id y.user_id (some_of_holds user y.user_id (ground (arith, f)))
                  h))
      | inr f ↦ rw (e, f, if◌then◌else◌) a
    ]
  ]

  -- What a renaming does not touch.
  renamed_slug_pair :
      (user id : ℕ) (name : String) (x y : Category)
      → HaveOtherSlugs x y
      → HaveOtherSlugs (with_name user id name x) (with_name user id name y)
  renamed_slug_pair user id name x y a = elim (Bool-cases (is_own user id x)) [
    | inl e ↦ elim (Bool-cases (is_own user id y)) [
      | inl f ↦ rw (e, f, if◌then◌else◌) a
      | inr f ↦ rw (e, f, if◌then◌else◌) a
    ]
    | inr e ↦ elim (Bool-cases (is_own user id y)) [
      | inl f ↦ rw (e, f, if◌then◌else◌) a
      | inr f ↦ rw (e, f, if◌then◌else◌) a
    ]
  ]

  renamed_user :
      (user id : ℕ) (name : String) (c : Category) → (with_name user id name c).user_id ≡ c.user_id
  renamed_user user id name c = elim (Bool-cases (is_own user id c)) [
    | inl e ↦ rw (e, if◌then◌else◌) refl
    | inr e ↦ rw (e, if◌then◌else◌) refl
  ]

  renamed_parent :
      (user id : ℕ) (name : String) (c : Category)
      → (with_name user id name c).parent_id ≡ c.parent_id
  renamed_parent user id name c = elim (Bool-cases (is_own user id c)) [
    | inl e ↦ rw (e, if◌then◌else◌) refl
    | inr e ↦ rw (e, if◌then◌else◌) refl
  ]

  with_name-IsGrouped :
      (user id : ℕ) (name : String) (rows : List Category) (c : Category)
      → IsGrouped rows c
      → IsGrouped (map (with_name user id name) rows) (with_name user id name c)
  with_name-IsGrouped user id name rows c h p q =
      let (g, m, i, f, o) = h p (sym (renamed_parent user id name c) ∙ q) in
      (
        with_name user id name g,
        map-In (with_name user id name) g rows m,
        renamed_id user id name g ∙ i,
        renamed_parent user id name g ∙ f,
        λ k.
            renamed_user user id name g
            ∙ o (ap is_some (sym (renamed_user user id name g)) ∙ k)
            ∙ sym (renamed_user user id name c),
      )

  rename_category-IsTaxonomy :
      {D : Type 0} (user id : ℕ) (name : String) (l : CategoryLedger D)
      → name_taken user name id l.categories ≡ false
      → IsTaxonomy l.categories l.next_category_id
      → Ensures
          (λ (r : CategoryLedger D). IsTaxonomy r.categories r.next_category_id)
          (rename_category user id name l)
  unfolding rename_category
  rename_category-IsTaxonomy user id name l free t =
      elim (Bool-cases (any (is_own user id) l.categories)) [
        | inl e ↦
            rw (e, if◌then◌else◌)
              (record {
                started = t.started;
                distinct =
                    map-Pairwise _ _ put l.categories
                      (λ x y m n d r.
                        d (sym (renamed_id user id name x) ∙ r ∙ renamed_id user id name y))
                      t.distinct;
                numbered =
                    map-All _ _ put (λ x h. rw (renamed_id user id name x) h) l.categories
                      t.numbered;
                named =
                    map-Pairwise _ _ put l.categories (renamed_pair user id name l.categories free)
                      (Pairwise-both _ _ l.categories t.distinct t.named);
                slugged =
                    map-Pairwise _ _ put l.categories
                      (λ x y m n. renamed_slug_pair user id name x y) t.slugged;
                grouped =
                    map-All _ _ put (with_name-IsGrouped user id name l.categories) l.categories
                      t.grouped;
              })
        | inr e ↦ rw (e, if◌then◌else◌) tt
      ]
    where
      put : Category → Category
      put = with_name user id name

  pub rename-IsTaxonomy :
      {D : Type 0} (user id : ℕ) (text : String) (l : CategoryLedger D)
      → IsTaxonomy l.categories l.next_category_id
      → Ensures
          (λ (r : Category × CategoryLedger D). IsTaxonomy r.1.categories r.1.next_category_id)
          (rename user id text l)
  unfolding rename
  rename-IsTaxonomy user id text l t =
      after_check _ (required category_not_found (get_visible (some user) id l.categories)) _ λ c.
        after_check _ (fail_if (not (is_some c.user_id)) category_read_only) _ λ _.
          after_check_of _ _ (check_name user text id l.categories) _
            (check_name-free user text id l.categories)
            λ name free.
              after_check_of _ _ (rename_category user id name l) _
                (rename_category-IsTaxonomy user id name l free t) λ after h. h
