-- ===== src/Categorization.antt =====
-- The rule engine, backend/internal/service/categorization/engine.go: rules are compiled once, the
-- first rule that fires wins a transaction, and its actions are written onto the row.
pub mod Matching
pub mod Tagging
pub mod Actions
use offbook.Common.{
  ℕ, ◌+◌, Bool, true, false, not, ◌&&◌, Option, none, some, List, [], ◌∷◌, ◌++◌, map, String, leb,
  str_eq, if◌then◌else◌, is_some, holds, has, length,
}
use offbook.Model.{Transaction, Strings, is_flow, max_tags_per_row}

abbrev pub method_rule : String
method_rule = "rule"

pub record CompiledRule (D : Type 0) : Type 0 where
  pub id : ℕ
  pub category_id : Option ℕ
  pub match_type : String
  pub pattern : String
  pub asset_id : Option ℕ
  pub rename_merchant : Option String
  pub hide : Bool
  pub mark_reviewed : Bool
  pub add_tags : List String
  pub account_id : Option ℕ
  pub amount_min : Option D
  pub amount_max : Option D
  pub pattern_ci : String
  pub re : Option (String → Bool)

pub record Decision : Type 0 where
  pub rule_id : ℕ
  pub category_id : Option ℕ
  pub rename_merchant : Option String
  pub hide : Bool
  pub mark_reviewed : Bool
  pub add_tags : List String

-- `p == nil || *p != v`
abbrev pub differs : Option String → String → Bool
differs none v = true
differs (some w) v = not (str_eq w v)

module _ {D : Type 0} where
  pub merchant_changed : Decision → Transaction D → Bool
  merchant_changed dn t = elim dn.rename_merchant [
    | none ↦ false
    | some v ↦ not (is_some t.merchant_edited_at) && differs t.merchant_name v
  ]

  pub category_changed : Decision → Transaction D → Bool
  category_changed dn t = elim dn.category_id [
    | none ↦ false
    | some c ↦ not (holds t.category_id c)
  ]

  pub hide_changed : Decision → Transaction D → Bool
  hide_changed dn t = dn.hide && not (is_some t.hidden_at) && not t.is_transfer && is_flow t.kind

  pub review_changed : Decision → Transaction D → Bool
  review_changed dn t = dn.mark_reviewed && not (is_some t.reviewed_at) && is_flow t.kind

  -- The category and its provenance are stored, when the decision sets a category.
  is_recorded : Decision → Transaction D → Bool
  unfolding category_changed
  is_recorded dn t = elim dn.category_id [
    | none ↦ true
    | some c ↦
        not (category_changed dn t)
        && holds t.categorization_rule_id dn.rule_id
        && not (differs t.categorization_method method_rule)
  ]

  set_category : Decision → Transaction D → Transaction D
  set_category dn t = elim dn.category_id [
    | none ↦ t
    | some c ↦ record t {
      category_id = some c;
      categorization_rule_id = some dn.rule_id;
      categorization_method = some method_rule;
    }
  ]

  set_merchant : Decision → Transaction D → Transaction D
  set_merchant dn t =
      if merchant_changed dn t then record t { merchant_name = dn.rename_merchant } else t

  set_hidden : ℕ → Decision → Transaction D → Transaction D
  set_hidden now dn t = if hide_changed dn t then record t { hidden_at = some now } else t

  set_reviewed : ℕ → Decision → Transaction D → Transaction D
  set_reviewed now dn t = if review_changed dn t then record t { reviewed_at = some now } else t

module _ ⦃s : Strings⦄ where
  -- The loop of `TagsToAdd`: `carried` is `len(t.Tags) + len(out)`, so the test is
  -- `len(out) >= MaxTagsPerRow - len(t.Tags)`, and what is returned is appended to `out`.
  pub pick_tags : List String → ℕ → List String → List String
  pick_tags seen carried [] = []
  pick_tags seen carried (tag ∷ rest) = elim (leb max_tags_per_row carried) [
    | true ↦ []
    | false ↦ elim (has seen (s.to_lower tag)) [
      | true ↦ pick_tags seen carried rest
      | false ↦ tag ∷ pick_tags (s.to_lower tag ∷ seen) (carried + 1) rest
    ]
  ]

  abbrev pub keys : List String → List String
  keys = map s.to_lower

  pub tags_to_add : {D : Type 0} → Decision → Transaction D → List String
  tags_to_add dn t =
      if is_flow t.kind then pick_tags (keys t.tags) (length t.tags) dn.add_tags else []

  pub tags_changed : {D : Type 0} → Decision → Transaction D → Bool
  tags_changed dn t = elim (tags_to_add dn t) [ [] ↦ false | _ ∷ _ ↦ true ]

  -- `Decision.SameAs`
  pub same_as : {D : Type 0} → Decision → Transaction D → Bool
  unfolding is_recorded
  same_as dn t =
      is_recorded dn t
      && not (merchant_changed dn t)
      && not (hide_changed dn t)
      && not (review_changed dn t)
      && not (tags_changed dn t)

  set_tags : {D : Type 0} → Decision → Transaction D → Transaction D
  set_tags dn t = record t { tags = t.tags ++ tags_to_add dn t }

  -- `SetActions` at the instant `now`: each write tests the row as the writes before it left it.
  pub set_actions : {D : Type 0} → ℕ → Decision → Transaction D → Transaction D
  unfolding set_category set_merchant set_hidden set_reviewed set_tags
  set_actions now dn t =
      set_tags dn (set_reviewed now dn (set_hidden now dn (set_merchant dn (set_category dn t))))
