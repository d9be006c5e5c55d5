-- ===== src/Categorization/Matching/Tests.antt =====
-- Runs of the rule engine, and its theorems at concrete rows.
use offbook.Common.{
  ℕ, ◌+◌, ◌≡◌, ◌++◌, ◌⊎◌, refl, true, false, none, some, Option, List, [], ◌∷◌, String, arith, All,
  length, ◌≤◌, str_eq,
}
use offbook.Common.Integers.{ℤ, pos, negsuc, integers-IsDecimal, integer_decimal}
use offbook.Model.{Transaction, CategorizationRule}
use offbook.Samples.{row, plain_strings}
use offbook.Categorization.{
  CompiledRule, Decision, set_actions, same_as, tags_to_add, pick_tags, keys, merchant_changed,
  hide_changed, review_changed,
}
use offbook.Categorization.Tagging.{AreFresh}
use offbook.Categorization.Actions.{set_actions-same_as, set_actions_tags}
use offbook.Categorization.Matching.{
  Subject, categorize, match_rules, compile, decision, collect_fields, first_match, asset_matches,
  conditions_match, text_matches, compile_rule,
}
use offbook.Categorization.Matching.Order.{Winner, fires, categorize_first, match_rules-neg}

abbrev shop : Transaction ℤ
shop = row 1 10 (negsuc 1548) 100

abbrev stored : ℕ → String → String → Option ℤ → CategorizationRule ℤ
stored id kind pattern low = record {
  id = id;
  user_id = 7;
  category_id = some (id + 40);
  match_type = kind;
  pattern = pattern;
  is_active = true;
  asset_id = none;
  rename_merchant = some "Shop";
  hide_matches = true;
  mark_reviewed = true;
  add_tags = "food" ∷ "weekly" ∷ "food" ∷ [];
  account_id = none;
  amount_min = low;
  amount_max = none;
}

abbrev rules : List (CategorizationRule ℤ)
rules =
    stored 1 "exact" "OTHER" none
    ∷ stored 2 "regex" "(" none
    ∷ stored 3 "exact" "SHOP" (some (pos 9999))
    ∷ stored 4 "contains" "SHOP" (some (pos 1000))
    ∷ []

abbrev won : Decision
won = record {
  rule_id = 4;
  category_id = some 44;
  rename_merchant = some "Shop";
  hide = true;
  mark_reviewed = true;
  add_tags = "food" ∷ "weekly" ∷ "food" ∷ [];
}

match-run : match_rules (compile rules) shop ≡ some won
unfolding match_rules categorize first_match asset_matches conditions_match text_matches
    collect_fields compile compile_rule str_eq
match-run = refl

tags-run : (set_actions 5 won shop).tags ≡ "food" ∷ "weekly" ∷ []
unfolding set_actions tags_to_add pick_tags str_eq merchant_changed hide_changed review_changed
tags-run = refl

set_actions-same_as_example : same_as won (set_actions 5 won shop) ≡ true
set_actions-same_as_example = set_actions-same_as 5 won shop

set_actions_tags_example :
    let after = (set_actions 5 won shop).tags in
    (after ≡ [] ++ tags_to_add won shop) × (length after ≤ 10) × AreFresh [] (keys after)
set_actions_tags_example = set_actions_tags 5 won shop (omega arith) tt

abbrev subject : Subject ℤ
subject = record { asset_id = 1; account_id = 10; amount = some (negsuc 1548) }

categorize_first_example :
    let fields = collect_fields none (some "SHOP") none in
    let found = categorize (compile rules) subject none (some "SHOP") none in
    ((r : CompiledRule ℤ) × Winner subject fields (compile rules) r × (found ≡ some (decision r)))
    ⊎ (All (λ r. fires subject fields r ≡ false) (compile rules) × (found ≡ none))
categorize_first_example = categorize_first (compile rules) subject none (some "SHOP") none

match_rules-neg_example :
    match_rules (compile rules) (record shop { amount = pos 1549 })
    ≡ match_rules (compile rules) shop
match_rules-neg_example = match_rules-neg integers-IsDecimal (compile rules) shop
