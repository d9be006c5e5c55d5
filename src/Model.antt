-- ===== src/Model.antt =====
-- The rows that several components share: backend/internal/model (transaction.go,
-- categorization_rule.go) and the string functions of the standard library that read them.
use offbook.Common.{ℕ, Bool, Option, List, String, true, false}

-- `Transaction.Kind`; `unset` is the empty string of a row that is not stored yet.
pub data Kind : Type 0 where
  unset flow trade_leg opening_balance adjustment : Kind

-- A movement of `amount` units of `asset_id` in or out of `account_id`. Ids are numbers, 0 for an
-- id that is not set; times are numbers in one unit, and nullable columns are options.
pub record Transaction (D : Type 0) : Type 0 where
  pub id : ℕ
  pub user_id : ℕ
  pub account_id : ℕ
  pub asset_id : ℕ
  pub category_id : Option ℕ
  pub kind : Kind
  pub amount : D
  pub description : Option String
  pub description_clean : Option String
  pub merchant_name : Option String
  pub transaction_date : ℕ
  pub source : String
  pub categorization_method : Option String
  pub categorization_rule_id : Option ℕ
  pub is_transfer : Bool
  pub transfer_pair_id : Option ℕ
  pub caused_by_observation_id : Option ℕ
  pub import_job_id : Option ℕ
  pub reviewed_at : Option ℕ
  pub hidden_at : Option ℕ
  pub merchant_edited_at : Option ℕ
  pub tags : List String

pub record CategorizationRule (D : Type 0) : Type 0 where
  pub id : ℕ
  pub user_id : ℕ
  pub category_id : Option ℕ
  pub match_type : String
  pub pattern : String
  pub is_active : Bool
  pub asset_id : Option ℕ
  pub rename_merchant : Option String
  pub hide_matches : Bool
  pub mark_reviewed : Bool
  pub add_tags : List String
  pub account_id : Option ℕ
  pub amount_min : Option D
  pub amount_max : Option D

-- `t.Kind == "" || t.Kind == KindFlow`
abbrev pub is_flow : Kind → Bool
is_flow unset = true
is_flow flow = true
is_flow _ = false

abbrev pub max_tags_per_row : ℕ
max_tags_per_row = 10

-- What the program uses of packages strings, utf8 and regexp. `collapse` is
-- `strings.Join(strings.Fields(s), " ")`; a compiled expression is the test that it makes.
pub record Strings : Type 0 where
  pub to_upper : String → String
  pub to_lower : String → String
  pub trim_space : String → String
  pub collapse : String → String
  pub rune_count : String → ℕ
  pub contains : String → String → Bool
  pub compile_regexp : String → Option (String → Bool)
