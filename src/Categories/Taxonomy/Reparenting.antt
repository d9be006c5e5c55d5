-- ===== src/Categories/Taxonomy/Reparenting.antt =====
-- The category of a deletion, and the rows that it touches.
use offbook.Common.{
  ℕ, ◌≡◌, ◌≢◌, refl, ap, inl, inr, not, ◌&&◌, Option, none, some, List, map, arith, ◌==◌,
  if◌then◌else◌, holds, is_some, select, select-In, Bool-cases, In, map-In, Ensures, ok, err, ◌>>=◌,
}
use offbook.Model.{Strings}
use offbook.Plans.{Category, get_visible, get_visible-In}
use offbook.Categories.{category_read_only, category_not_found, required}
use offbook.Categories.{own_category}
use offbook.Categories.Reassign.{reparent}
use offbook.Categories.Taxonomy.{HaveOtherSlugs, HaveOtherNames, owner_of_visible}

-- The category of `Delete`.
abbrev pub IsOwn : ℕ → ℕ → List Category → Type 0
IsOwn user from rows = (f : Category) × In f rows × (f.id ≡ from) × (f.user_id ≡ some user)

pub own_category-IsOwn :
    (user from : ℕ) (rows : List Category)
    → Ensures (λ (_ : Category). IsOwn user from rows) (own_category user from rows)
unfolding own_category
own_category-IsOwn user from rows = go (get_visible (some user) from rows) refl
  where
    go :
        (o : Option Category)
        → get_visible (some user) from rows ≡ o
        → Ensures
            (λ (_ : Category). IsOwn user from rows)
            (required category_not_found o >>= λ c.
              if is_some c.user_id then ok c else err category_read_only)
    go none e = tt
    go (some c) e = elim (Bool-cases (is_some c.user_id)) [
      | inl k ↦
          rw (k, if◌then◌else◌)
            (let (m, v, i) = get_visible-In (some user) from rows c e in
              (c, m, i, owner_of_visible user c.user_id v k))
      | inr k ↦ rw (k, if◌then◌else◌) tt
    ]

module _ (user from : ℕ) (group : Option ℕ) where
  pub reparent_id : (c : Category) → (reparent user from group c).id ≡ c.id
  reparent_id c = ground arith

  pub reparent_user : (c : Category) → (reparent user from group c).user_id ≡ c.user_id
  reparent_user c = elim (Bool-cases (holds c.user_id user && holds c.parent_id from)) [
    | inl e ↦ rw (e, if◌then◌else◌) refl
    | inr e ↦ rw (e, if◌then◌else◌) refl
  ]

  pub reparent_names :
      ⦃s : Strings⦄ (x y : Category)
      → HaveOtherNames x y
      → HaveOtherNames (reparent user from group x) (reparent user from group y)
  reparent_names x y a = elim (Bool-cases (holds x.user_id user && holds x.parent_id from)) [
    | inl e ↦ elim (Bool-cases (holds y.user_id user && holds y.parent_id from)) [
      | inl f ↦ rw (e, f, if◌then◌else◌) a
      | inr f ↦ rw (e, f, if◌then◌else◌) a
    ]
    | inr e ↦ elim (Bool-cases (holds y.user_id user && holds y.parent_id from)) [
      | inl f ↦ rw (e, f, if◌then◌else◌) a
      | inr f ↦ rw (e, f, if◌then◌else◌) a
    ]
  ]

  pub reparent_slugs :
      (x y : Category)
      → HaveOtherSlugs x y
      → HaveOtherSlugs (reparent user from group x) (reparent user from group y)
  reparent_slugs x y a = elim (Bool-cases (holds x.user_id user && holds x.parent_id from)) [
    | inl e ↦ elim (Bool-cases (holds y.user_id user && holds y.parent_id from)) [
      | inl f ↦ rw (e, f, if◌then◌else◌) a
      | inr f ↦ rw (e, f, if◌then◌else◌) a
    ]
    | inr e ↦ elim (Bool-cases (holds y.user_id user && holds y.parent_id from)) [
      | inl f ↦ rw (e, f, if◌then◌else◌) a
      | inr f ↦ rw (e, f, if◌then◌else◌) a
    ]
  ]

  -- A top-level category stays one.
  pub reparent_top :
      (g : Category) → g.parent_id ≡ none → (reparent user from group g).parent_id ≡ none
  reparent_top g e = elim (Bool-cases (holds g.user_id user && holds g.parent_id from)) [
    | inl f ↦ let h = ap (λ o. holds o from) e in absurd (ground (arith, f, h))
    | inr f ↦ rw (f, if◌then◌else◌) e
  ]

  pub stays :
      (rows : List Category) (g : Category)
      → In g rows
      → g.id ≢ from
      → In (reparent user from group g) (
          select
            (λ c. not (holds c.user_id user && (c.id == from)))
            (map (reparent user from group) rows))
  stays rows g m n =
      select-In _ _ _ (map-In (reparent user from group) g rows m)
        (ground (arith, n, reparent_id g))
