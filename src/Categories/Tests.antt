-- ===== src/Categories/Tests.antt =====
-- Categories of user 7: Games under Fun, and Fun merged into Games.
use Prim.Native.Char.{code}
use offbook.Common.{
  ℕ, ◌≡◌, refl, true, false, ◌&&◌, some, none, List, [], ◌∷◌, ok, arith, leb, str_eq,
}
use offbook.Common.Integers.{ℤ, pos, negsuc, integers-IsDecimal, integer_decimal}
use offbook.Model.{Transaction}
use offbook.Plans.{Category, Budget, get_visible}
use offbook.Samples.{plain_strings, row}
use offbook.Categories.{CategoryLedger, CategoryUsage, usage, own_category}
use offbook.Categories.Slugs.{
  Runes, slug_taken, name_taken, check_name, free_slug, free_slug_from, slugify, slug_loop,
}
use offbook.Categories.Slugs.Free.{IsOutcome, free_slug_lem}
use offbook.Categories.Editing.{CreateCategoryInput, check_parent, create_category, create}
use offbook.Categories.Reassign.{
  move_transaction, move_split, move_change, move_rule, move_verdicts, source_budget, move_budgets,
  merge_budgets, drop_category, check_replacement, reassign, delete,
}
use offbook.Categories.Reassign.Gone.{IsGone, IsOwned, delete-IsGone}
use offbook.Categories.Reassign.Merging.{budgeted}
use offbook.Categories.Reassign.Merging.Kept.{delete_merges}
use offbook.Categories.Taxonomy.{IsTaxonomy}
use offbook.Categories.Steps.{here, next, created, reachable-IsTaxonomy}

-- Small Latin letters.
instance abbrev latin : Runes
latin = record { is_letter = λ c. leb 97 (code c) && leb (code c) 122; is_digit = λ c. false }

abbrev built_in : Category
built_in = record { id = 1; user_id = none; parent_id = none; name = "food"; slug = "food" }

abbrev fun : Category
fun = record { id = 2; user_id = some 7; parent_id = none; name = "fun"; slug = "fun" }

abbrev games : Category
games = record { id = 3; user_id = some 7; parent_id = some 2; name = "games"; slug = "games" }

abbrev on_category : ℕ → ℕ → ℤ → Budget ℤ
on_category id category amount = record {
  id = id;
  user_id = some 7;
  household_id = none;
  category_id = category;
  period = "monthly";
  amount = amount;
  rollover = false;
  rollover_start = pos 0;
  is_active = true;
  created_at = 739620;
}

abbrev spent : Transaction ℤ
spent = record (row 1 10 (negsuc 499) 100) {
  category_id = some 2;
  categorization_method = some "rule";
}

-- A built-in category, and what is under Fun.
abbrev ledger : List Category → ℕ → CategoryLedger ℤ
ledger categories free = record {
  categories = built_in ∷ categories;
  next_category_id = free;
  transactions = spent ∷ [];
  deleted_transactions = spent ∷ [];
  splits = [];
  runs = [];
  changes = [];
  rules = [];
  deleted_rules = [];
  verdicts = [];
  budgets = on_category 1 2 (pos 50) ∷ on_category 2 3 (pos 25) ∷ [];
  deleted_budgets = [];
  amounts = [];
}

abbrev before_delete : CategoryLedger ℤ
before_delete = ledger (fun ∷ games ∷ []) 4

abbrev merged : CategoryLedger ℤ
merged = record (ledger (record games { parent_id = none } ∷ []) 4) {
  transactions = record spent { category_id = some 3 } ∷ [];
  deleted_transactions = record spent { category_id = some 3 } ∷ [];
  budgets = on_category 2 3 (pos 75) ∷ [];
  deleted_budgets = on_category 1 3 (pos 50) ∷ [];
}

abbrev counts : CategoryUsage
counts = record { transactions = 1; splits = 0; rules = 0; budgets = 1; subcategories = 1 }

fun_merged : delete 7 2 (some 3) before_delete ≡ ok (counts, merged)
unfolding delete own_category get_visible check_replacement reassign usage move_budgets
    merge_budgets source_budget drop_category move_transaction move_split move_change move_rule
    move_verdicts str_eq
fun_merged = refl

fun-IsOwned : IsOwned 7 2 before_delete
fun-IsOwned = record {
  categories = (λ e. absurd (omega (arith, e)), (λ e. refl, (λ e. refl, tt)));
  parents = (λ e. grind (arith, e), (λ e. refl, (λ e. refl, tt)));
  transactions = (λ e. refl, tt);
  deleted_transactions = (λ e. refl, tt);
  splits = tt;
  changes = tt;
  rules = tt;
  deleted_rules = tt;
  verdicts = tt;
  budgets = (λ e. refl, (λ e. refl, tt));
}

delete-IsGone_example : IsGone 2 merged
delete-IsGone_example = delete-IsGone 7 2 (some 3) before_delete fun-IsOwned fun_merged

delete_merges_example :
    budgeted 7 "monthly" merged.budgets ≡ budgeted 7 "monthly" before_delete.budgets
delete_merges_example =
    (delete_merges integers-IsDecimal 7 2 3 before_delete (λ e. refl, (λ e. refl, tt))
        ((refl, tt), (tt, tt)) fun_merged).1
      "monthly"

-- Games is created under Fun, by name.
abbrev input : CreateCategoryInput
input = record { name = "games"; parent_id = some 2 }

abbrev before_create : CategoryLedger ℤ
before_create = ledger (fun ∷ []) 3

games_created : create 7 input before_create ≡ ok (games, before_delete)
unfolding create check_name name_taken check_parent get_visible free_slug free_slug_from slug_taken
    slugify slug_loop create_category str_eq
games_created = refl

fun_sound : IsTaxonomy before_create.categories before_create.next_category_id
fun_sound = record {
  started = omega arith;
  distinct = (((λ e. omega (arith, e)), tt), (tt, tt));
  numbered = ((omega arith, omega arith), ((omega arith, omega arith), tt));
  named = (((λ h e. let q : built_in.name ≡ fun.name = e in cc), tt), (tt, tt));
  slugged = (((λ h e. cc), tt), (tt, tt));
  grouped = ((λ p e. cc), ((λ p e. cc), tt));
}

reachable-IsTaxonomy_example : IsTaxonomy before_delete.categories before_delete.next_category_id
reachable-IsTaxonomy_example =
    reachable-IsTaxonomy (next here (created 7 input games_created)) fun_sound

free_slug_example :
    IsOutcome 7
      (slugify "fun")
      50
      1
      before_delete.categories
      (free_slug 7 "fun" before_delete.categories)
free_slug_example = free_slug_lem 7 "fun" before_delete.categories

second_fun :
    (free_slug 7 "fun" before_delete.categories ≡ ok "fun-2")
    × (free_slug 7 "a b" before_delete.categories ≡ ok "a-b")
unfolding free_slug free_slug_from slug_taken slugify slug_loop str_eq
second_fun = (refl, refl)
