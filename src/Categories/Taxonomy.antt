-- ===== src/Categories/Taxonomy.antt =====
-- The taxonomy of a ledger, and that creations and renamings keep it.
pub mod Renaming
pub mod Reparenting
pub mod Deleting
use offbook.Common.{
  ℕ, suc, ◌<◌, ◌≡◌, ◌≢◌, refl, sym, ◌∙◌, ap, subst, inl, inr, Bool, true, false, not, ◌&&◌, ◌||◌,
  Option, none, some, List, [], ◌∷◌, ◌++◌, map, String, arith, ◌==◌, ltb, str_eq, str_eq_iff,
  if◌then◌else◌, holds, is_some, any, Bool-cases, All, All-In, All-of_In, All-map, All-append,
  map-All, In, In-append_left, In-map, map-In, not_any-In, Pairwise, Pairwise-snoc, Pairwise-both,
  map-Pairwise, fail_if, Ensures, after_check, after_check_of, Result, ok, err, ◌>>=◌,
}
use offbook.Model.{Strings}
use offbook.Plans.{Category, is_visible, same_id, get_visible, get_visible-In}
use offbook.Categories.{
  CategoryError, invalid_parent, category_read_only, category_not_found, CategoryLedger, required,
}
use offbook.Categories.Slugs.{
  max_category_name, Runes, slug_taken, name_taken, check_name, free_slug,
}
use offbook.Categories.Editing.{
  CreateCategoryInput, check_parent, create_category, is_own, with_name, rename_category, create,
  rename,
}

-- Some user sees both.
abbrev pub meet : Category → Category → Bool
meet x y = not (is_some x.user_id) || not (is_some y.user_id) || same_id x.user_id y.user_id

abbrev pub HaveOneOwner : Category → Category → Type 0
HaveOneOwner x y = same_id x.user_id y.user_id ≡ true

abbrev pub HaveOtherSlugs : Category → Category → Type 0
HaveOtherSlugs x y = HaveOneOwner x y → x.slug ≢ y.slug

-- The parent is a top-level category of the list, built in or of the same user.
abbrev pub IsGrouped : List Category → Category → Type 0
IsGrouped rows c =
    (p : ℕ)
    → c.parent_id ≡ some p
    → (g : Category) × In g rows
      × (g.id ≡ p)
      × (g.parent_id ≡ none)
      × (is_some g.user_id ≡ true → g.user_id ≡ c.user_id)

-- What `check_parent` ensures.
abbrev pub IsParent : ℕ → List Category → Option ℕ → Type 0
IsParent user rows none = Unit {0}
IsParent user rows (some p) =
    (g : Category) × In g rows
    × (g.id ≡ p)
    × (g.parent_id ≡ none)
    × (is_visible (some user) g ≡ true)

check_parent-IsParent :
    (user : ℕ) (parent : Option ℕ) (rows : List Category)
    → Ensures (λ _. IsParent user rows parent) (check_parent user parent rows)
unfolding check_parent
check_parent-IsParent user none rows = tt
check_parent-IsParent user (some p) rows = go (get_visible (some user) p rows) refl
  where
    top :
        (g : Category) (o : Option ℕ)
        → g.parent_id ≡ o
        → get_visible (some user) p rows ≡ some g
        → Ensures (λ _. IsParent user rows (some p)) (fail_if (is_some o) invalid_parent)
    top g none f e = let (m, v, i) = get_visible-In (some user) p rows g e in (g, m, i, f, v)
    top g (some q) f e = tt

    go :
        (o : Option Category)
        → get_visible (some user) p rows ≡ o
        → Ensures
            (λ _. IsParent user rows (some p))
            (required invalid_parent o >>= λ g. fail_if (is_some g.parent_id) invalid_parent)
    go none e = tt
    go (some g) e = top g g.parent_id refl e

-- Who meets a category of a user is seen by the user.
pub seen :
    (user : ℕ) (a b : Option ℕ)
    → b ≡ some user
    → (not (is_some a) || not (is_some b) || same_id a b) ≡ true
    → (not (is_some a) || holds a user) ≡ true
seen user none b e h = refl
seen user (some a) b e h = subst (λ o. (not (is_some o) || same_id (some a) o) ≡ true) e h

pub seen_left :
    (user : ℕ) (a b : Option ℕ)
    → a ≡ some user
    → (not (is_some a) || not (is_some b) || same_id a b) ≡ true
    → (not (is_some b) || holds b user) ≡ true
seen_left user a none e h = refl
seen_left user a (some b) e h =
    let k = subst (λ o. (not (is_some o) || false || same_id o (some b)) ≡ true) e h in
    ground (arith, k)

holds_of_same :
    (user : ℕ) (owner : Option ℕ) → same_id owner (some user) ≡ true → holds owner user ≡ true
holds_of_same user none h = h
holds_of_same user (some a) h = h

pub owner_of_visible :
    (user : ℕ) (owner : Option ℕ)
    → (not (is_some owner) || holds owner user) ≡ true
    → is_some owner ≡ true
    → owner ≡ some user
owner_of_visible user none h k = cc
owner_of_visible user (some a) h k = ap some (ground (arith, h))

IsGrouped-behind :
    (rows : List Category) (c x : Category) → IsGrouped rows x → IsGrouped (rows ++ (c ∷ [])) x
IsGrouped-behind rows c x h p q =
    let (g, m, i, f, o) = h p q in (g, In-append_left g rows (c ∷ []) m, i, f, o)

module _ ⦃s : Strings⦄ where
  abbrev pub HaveOtherNames : Category → Category → Type 0
  HaveOtherNames x y = meet x y ≡ true → s.to_lower x.name ≢ s.to_lower y.name

  -- Numbers are positive and given once, the taxonomy is two levels deep, and a user sees no two
  -- categories of one name, up to case, nor owns two of one slug.
  pub record IsTaxonomy (rows : List Category) (next : ℕ) : Type 0 where
    pub started : 0 < next
    pub distinct : Pairwise (λ x y. x.id ≢ y.id) rows
    pub numbered : All (λ c. (0 < c.id) × (c.id < next)) rows
    pub named : Pairwise HaveOtherNames rows
    pub slugged : Pairwise HaveOtherSlugs rows
    pub grouped : All (IsGrouped rows) rows

  -- A name that is free for a user, against a category that the user sees.
  pub free_name :
      (user : ℕ) (name : String) (except : ℕ) (rows : List Category) (x : Category)
      → name_taken user name except rows ≡ false
      → In x rows
      → x.id ≢ except
      → is_visible (some user) x ≡ true
      → s.to_lower x.name ≢ s.to_lower name
  unfolding name_taken
  free_name user name except rows x e m n v q =
      let f = not_any-In _ x rows e m in
      ground (arith, f, n, v, str_eq_iff (s.to_lower x.name) (s.to_lower name), q)

  -- The name that `check_name` returns is free.
  pub check_name-free :
      (user : ℕ) (text : String) (except : ℕ) (rows : List Category)
      → Ensures
          (λ name. name_taken user name except rows ≡ false)
          (check_name user text except rows)
  unfolding check_name
  check_name-free user text except rows =
      elim (Bool-cases
        (str_eq (s.collapse text) "" || ltb max_category_name (s.rune_count (s.collapse text)))) [
          | inl e ↦ rw (e, if◌then◌else◌) tt
          | inr e ↦
              rw (e, if◌then◌else◌)
                (elim (Bool-cases (name_taken user (s.collapse text) except rows)) [
                  | inl f ↦ rw (f, if◌then◌else◌) tt
                  | inr f ↦ rw (f, if◌then◌else◌) f
                ])
        ]

  create_category-IsTaxonomy :
      {D : Type 0} (user : ℕ) (parent : Option ℕ) (name slug : String) (l : CategoryLedger D)
      → name_taken user name 0 l.categories ≡ false
      → IsParent user l.categories parent
      → IsTaxonomy l.categories l.next_category_id
      → Ensures
          (λ (r : Category × CategoryLedger D). IsTaxonomy r.1.categories r.1.next_category_id)
          (create_category user
            (λ id. record {
              id = id;
              user_id = some user;
              parent_id = parent;
              name = name;
              slug = slug;
            })
            l)
  unfolding create_category slug_taken
  create_category-IsTaxonomy {D} user parent name slug l free p t =
      elim (Bool-cases (slug_taken user slug l.categories)) [
        | inl e ↦ rw (e, if◌then◌else◌) tt
        | inr e ↦
            rw (e, if◌then◌else◌)
              (record {
                started = omega arith;
                distinct =
                    Pairwise-snoc _ rows c t.distinct
                      (All-map _ _ (λ x h q. omega (arith, h, q)) rows t.numbered);
                numbered =
                    All-append _ rows (c ∷ [])
                      (All-map _ _ (λ x h. (h.0, omega (arith, h))) rows t.numbered)
                      ((t.started, omega arith), tt);
                named = Pairwise-snoc _ rows c t.named (
                    All-of_In _ rows λ x m h.
                      free_name user name 0 rows x free m
                        (let k = All-In _ x rows t.numbered m in omega (arith, k))
                        (seen user x.user_id (some user) refl h));
                slugged =
                    Pairwise-snoc _ rows c t.slugged
                      (All-of_In _ rows λ x m h. free_slug_apart x e m h);
                grouped =
                    All-append _ rows (c ∷ [])
                      (All-map _ _ (λ x. IsGrouped-behind rows c x) rows t.grouped)
                      (new_grouped parent p, tt);
              })
      ]
    where
      rows : List Category
      rows = l.categories

      c : Category
      c = record {
        id = l.next_category_id;
        user_id = some user;
        parent_id = parent;
        name = name;
        slug = slug;
      }

      free_slug_apart :
          (x : Category)
          → slug_taken user slug l.categories ≡ false
          → In x rows
          → HaveOtherSlugs x c
      free_slug_apart x e m h q =
          let f = not_any-In _ x rows e m in
          let k = holds_of_same user x.user_id h in ground (arith, f, k, q, str_eq_iff x.slug slug)

      new_grouped :
          (o : Option ℕ)
          → IsParent user rows o
          → (p : ℕ) → o ≡ some p
          → (g : Category) × In g (rows ++ (c ∷ []))
            × (g.id ≡ p)
            × (g.parent_id ≡ none)
            × (is_some g.user_id ≡ true → g.user_id ≡ some user)
      new_grouped none k p q = cc
      new_grouped (some a) (g, m, i, f, v) p q = (
        g,
        In-append_left g rows (c ∷ []) m,
        ground (arith, i, q),
        f,
        owner_of_visible user g.user_id v,
      )

  pub create-IsTaxonomy :
      ⦃u : Runes⦄ {D : Type 0} (user : ℕ) (input : CreateCategoryInput) (l : CategoryLedger D)
      → IsTaxonomy l.categories l.next_category_id
      → Ensures
          (λ (r : Category × CategoryLedger D). IsTaxonomy r.1.categories r.1.next_category_id)
          (create user input l)
  unfolding create
  create-IsTaxonomy user input l t =
      after_check_of _ _ (check_name user input.name 0 l.categories) _
        (check_name-free user input.name 0 l.categories)
        λ name free.
          after_check_of _ _ (check_parent user input.parent_id l.categories) _
            (check_parent-IsParent user input.parent_id l.categories)
            λ _ p.
              after_check _ (free_slug user name l.categories) _
                λ slug. create_category-IsTaxonomy user input.parent_id name slug l free p t
