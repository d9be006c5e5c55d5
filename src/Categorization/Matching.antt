-- ===== src/Categorization/Matching.antt =====
-- `Compile`, `Match` and `Apply` of backend/internal/service/categorization/engine.go.
pub mod Order
pub mod Compiled
mod Tests
use offbook.Common.{
  ℕ, Bool, true, false, not, ◌&&◌, Option, none, some, List, [], ◌∷◌, String, ◌==◌, str_eq,
  if◌then◌else◌, is_some, any, Decimal, less_than, greater_than, abs,
}
use offbook.Model.{Transaction, CategorizationRule, Strings}
use offbook.Categorization.{CompiledRule, Decision, set_actions}

-- The non-text part of what a rule matches against.
pub record Subject (D : Type 0) : Type 0 where
  pub asset_id : ℕ
  pub account_id : ℕ
  pub amount : Option D

pub record Field : Type 0 where
  pub raw : String
  pub upper : String

module _ {D : Type 0} where
  abbrev pub decision : CompiledRule D → Decision
  decision r = record {
    rule_id = r.id;
    category_id = r.category_id;
    rename_merchant = r.rename_merchant;
    hide = r.hide;
    mark_reviewed = r.mark_reviewed;
    add_tags = r.add_tags;
  }

  pub asset_matches : CompiledRule D → Subject D → Bool
  asset_matches r sub = elim r.asset_id [
    | none ↦ true
    | some a ↦ not (sub.asset_id == 0) && (a == sub.asset_id)
  ]

  pub account_matches : CompiledRule D → Subject D → Bool
  account_matches r sub = elim r.account_id [
    | none ↦ true
    | some a ↦ not (sub.account_id == 0) && (a == sub.account_id)
  ]

module _ {D : Type 0} ⦃d : Decimal D⦄ where
  abbrev below : Option D → D → Bool
  below none m = false
  below (some lo) m = less_than m lo

  abbrev above : Option D → D → Bool
  above none m = false
  above (some hi) m = greater_than m hi

  pub within_band : Option D → Option D → Option D → Bool
  within_band none none amount = true
  within_band lo hi none = false
  within_band lo hi (some a) = not (below lo (abs a)) && not (above hi (abs a))

  pub conditions_match : CompiledRule D → Subject D → Bool
  unfolding account_matches within_band
  conditions_match r sub = account_matches r sub && within_band r.amount_min r.amount_max sub.amount

module _ ⦃s : Strings⦄ where
  abbrev add_field : Option String → List Field → List Field
  add_field none rest = rest
  add_field (some p) rest =
      let v = s.trim_space p in
      if str_eq v "" then rest else record { raw = v; upper = s.to_upper v } ∷ rest

  -- The non-empty texts in priority order; each `add` puts its field behind the earlier ones.
  pub collect_fields : Option String → Option String → Option String → List Field
  collect_fields description_clean description merchant_name =
      add_field description_clean (add_field description (add_field merchant_name []))

  abbrev matches_re : Option (String → Bool) → List Field → Bool
  matches_re none fields = false
  matches_re (some re) fields = any (λ f. re f.raw) fields

  pub matches : {D : Type 0} → CompiledRule D → List Field → Bool
  matches r fields =
      if str_eq r.match_type "contains"
      then any (λ f. s.contains f.upper r.pattern_ci) fields
      else if str_eq r.match_type "exact"
      then any (λ f. str_eq f.upper r.pattern_ci) fields
      else if str_eq r.match_type "regex"
      then matches_re r.re fields
      else false

  is_empty : List Field → Bool
  is_empty [] = true
  is_empty (_ ∷ _) = false

  -- With no text at all, only a rule that is bound to an asset and has no pattern fires.
  pub text_matches : {D : Type 0} → CompiledRule D → List Field → Bool
  unfolding is_empty matches
  text_matches r fields =
      if is_empty fields then is_some r.asset_id && str_eq r.pattern "" else matches r fields

module _ {D : Type 0} ⦃d : Decimal D⦄ ⦃s : Strings⦄ where
  -- The loop of `categorize`: a `continue` is the recursive call.
  pub first_match : Subject D → List Field → List (CompiledRule D) → Option Decision
  first_match sub fields [] = none
  first_match sub fields (r ∷ rules) =
      let rest = first_match sub fields rules in
      if not (asset_matches r sub)
      then rest
      else if not (conditions_match r sub)
      then rest
      else if text_matches r fields
      then some (decision r)
      else rest

  pub categorize :
      List (CompiledRule D)
      → Subject D
      → Option String
      → Option String
      → Option String
      → Option Decision
  categorize rules sub description_clean description merchant_name =
      first_match sub (collect_fields description_clean description merchant_name) rules

  -- `Match`, on a transaction that is not nil.
  pub match_rules : List (CompiledRule D) → Transaction D → Option Decision
  match_rules rules t =
      let sub : Subject D = record {
        asset_id = t.asset_id;
        account_id = t.account_id;
        amount = some t.amount;
      } in
      categorize rules sub t.description_clean t.description t.merchant_name

  -- `Apply`: the decision that won, and the row after its actions.
  pub apply : ℕ → List (CompiledRule D) → Transaction D → Option Decision × Transaction D
  apply now rules t = elim (match_rules rules t) [
    | none ↦ (none, t)
    | some dn ↦ (some dn, set_actions now dn t)
  ]

module _ ⦃s : Strings⦄ where
  -- A blank rename is no rename.
  abbrev rename_of : Option String → Option String
  rename_of none = none
  rename_of (some p) = let v = s.trim_space p in if str_eq v "" then none else some v

module _ {D : Type 0} ⦃s : Strings⦄ where
  abbrev compiled : CategorizationRule D → Option (String → Bool) → CompiledRule D
  compiled r re = record {
    id = r.id;
    category_id = r.category_id;
    match_type = r.match_type;
    pattern = r.pattern;
    asset_id = r.asset_id;
    rename_merchant = rename_of r.rename_merchant;
    hide = r.hide_matches;
    mark_reviewed = r.mark_reviewed;
    add_tags = r.add_tags;
    account_id = r.account_id;
    amount_min = r.amount_min;
    amount_max = r.amount_max;
    pattern_ci = s.to_upper r.pattern;
    re = re;
  }

  -- The body of the loop of `Compile`: `none` is a rule that is skipped.
  compile_rule : CategorizationRule D → Option (CompiledRule D)
  compile_rule r =
      if not r.is_active
      then none
      else if str_eq r.match_type "regex"
      then elim (s.compile_regexp r.pattern) [ none ↦ none | some re ↦ some (compiled r (some re)) ]
      else some (compiled r none)

  pub compile : List (CategorizationRule D) → List (CompiledRule D)
  compile [] = []
  compile (r ∷ rules) =
      let rest = compile rules in elim (compile_rule r) [ none ↦ rest | some c ↦ c ∷ rest ]
