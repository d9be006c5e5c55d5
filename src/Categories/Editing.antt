-- ===== src/Categories/Editing.antt =====
-- Create and Rename of categories, with the writes of the repository.
use offbook.Common.{
  ℕ, suc, Bool, not, ◌&&◌, Option, none, some, List, [], ◌∷◌, ◌++◌, map, String, ◌==◌,
  if◌then◌else◌, holds, is_some, any, Result, ok, err, fail_if, ◌>>=◌, ◌>>◌,
}
use offbook.Model.{Strings}
use offbook.Plans.{Category, get_visible}
use offbook.Categories.{
  CategoryError, category_name_taken, invalid_parent, category_read_only, category_not_found,
  CategoryLedger, required,
}
use offbook.Categories.Slugs.{Runes, slug_taken, check_name, free_slug}

pub record CreateCategoryInput : Type 0 where
  pub name : String
  pub parent_id : Option ℕ

unfoldable pub check_parent : ℕ → Option ℕ → List Category → Result CategoryError (Unit {0})
check_parent user none rows = ok tt
check_parent user (some id) rows =
    required invalid_parent (get_visible (some user) id rows) >>= λ p.
    fail_if (is_some p.parent_id) invalid_parent

abbrev pub is_own : ℕ → ℕ → Category → Bool
is_own user id c = (c.id == id) && holds c.user_id user

abbrev pub with_name : ℕ → ℕ → String → Category → Category
with_name user id name c = if is_own user id c then record c { name = name } else c

module _ {D : Type 0} where
  -- The unique index on the slugs of a user refuses a second one.
  unfoldable pub create_category :
      ℕ → (ℕ → Category) → CategoryLedger D → Result CategoryError (Category × CategoryLedger D)
  create_category user row l =
      let c = row l.next_category_id in
      if slug_taken user c.slug l.categories
      then err category_name_taken
      else ok (
        c,
        record l {
          categories = l.categories ++ (c ∷ []);
          next_category_id = suc l.next_category_id;
        },
      )

  unfoldable pub rename_category :
      ℕ → ℕ → String → CategoryLedger D → Result CategoryError (CategoryLedger D)
  rename_category user id name l =
      if any (is_own user id) l.categories
      then ok (record l { categories = map (with_name user id name) l.categories })
      else err category_not_found

  module _ ⦃s : Strings⦄ where
    unfoldable pub rename :
        ℕ → ℕ → String → CategoryLedger D → Result CategoryError (Category × CategoryLedger D)
    rename user id text l = do
      c ← required category_not_found (get_visible (some user) id l.categories)
      fail_if (not (is_some c.user_id)) category_read_only
      name ← check_name user text id l.categories
      after ← rename_category user id name l
      ok (record c { name = name }, after)

    unfoldable pub create :
        ⦃u : Runes⦄
        → ℕ
        → CreateCategoryInput
        → CategoryLedger D
        → Result CategoryError (Category × CategoryLedger D)
    create user input l = do
      name ← check_name user input.name 0 l.categories
      check_parent user input.parent_id l.categories
      slug ← free_slug user name l.categories
      create_category user
          (λ id. record {
            id = id;
            user_id = some user;
            parent_id = input.parent_id;
            name = name;
            slug = slug;
          })
          l
