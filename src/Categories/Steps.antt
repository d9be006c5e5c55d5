-- ===== src/Categories/Steps.antt =====
-- What the requests on categories reach.
use offbook.Common.{ℕ, ◌≡◌, Option, Decimal, ok, Ensures-ok, String}
use offbook.Model.{Strings}
use offbook.Plans.{Category}
use offbook.Categories.{CategoryLedger, CategoryUsage}
use offbook.Categories.Slugs.{Runes}
use offbook.Categories.Editing.{CreateCategoryInput, create, rename}
use offbook.Categories.Reassign.{delete}
use offbook.Categories.Taxonomy.{IsTaxonomy, create-IsTaxonomy}
use offbook.Categories.Taxonomy.Renaming.{rename-IsTaxonomy}
use offbook.Categories.Taxonomy.Deleting.{delete-IsTaxonomy}

module _ {D : Type 0} ⦃d : Decimal D⦄ ⦃s : Strings⦄ ⦃u : Runes⦄ where
  pub data Step (l : CategoryLedger D) : CategoryLedger D → Type 0 where
    created :
        (user : ℕ) (input : CreateCategoryInput) {r : Category × CategoryLedger D}
        → create user input l ≡ ok r
        → Step l r.1
    renamed :
        (user id : ℕ) (name : String) {r : Category × CategoryLedger D}
        → rename user id name l ≡ ok r
        → Step l r.1
    deleted :
        (user id : ℕ) (replace_with : Option ℕ) {r : CategoryUsage × CategoryLedger D}
        → delete user id replace_with l ≡ ok r
        → Step l r.1

  pub data Reach (start : CategoryLedger D) : CategoryLedger D → Type 0 where
    here : Reach start start
    next :
        {before after : CategoryLedger D}
        → Reach start before
        → Step before after
        → Reach start after

  Step-IsTaxonomy :
      {before after : CategoryLedger D}
      → Step before after
      → IsTaxonomy before.categories before.next_category_id
      → IsTaxonomy after.categories after.next_category_id
  Step-IsTaxonomy {before} (created user input {r} e) t =
      Ensures-ok
        (λ (x : Category × CategoryLedger D). IsTaxonomy x.1.categories x.1.next_category_id) _ r
        (create-IsTaxonomy user input before t) e
  Step-IsTaxonomy {before} (renamed user id name {r} e) t =
      Ensures-ok
        (λ (x : Category × CategoryLedger D). IsTaxonomy x.1.categories x.1.next_category_id) _ r
        (rename-IsTaxonomy user id name before t) e
  Step-IsTaxonomy {before} (deleted user id replace_with {r} e) t =
      Ensures-ok
        (λ (x : CategoryUsage × CategoryLedger D). IsTaxonomy x.1.categories x.1.next_category_id) _
        r (delete-IsTaxonomy user id replace_with before t) e

  -- Every ledger that creations, renamings and deletions reach from one with a sound taxonomy has
  -- one: numbers are positive and given once, a parent is a live top-level category that is built
  -- in or of the same user, a user sees no two names that differ in case alone, and owns no two
  -- categories of one slug.
  pub reachable-IsTaxonomy :
      {start after : CategoryLedger D}
      → Reach start after
      → IsTaxonomy start.categories start.next_category_id
      → IsTaxonomy after.categories after.next_category_id
  reachable-IsTaxonomy here t = t
  reachable-IsTaxonomy (next r st) t = Step-IsTaxonomy st (reachable-IsTaxonomy r t)
