-- ===== src/Samples.antt =====
-- Concrete rows and string functions on which the test modules run the definitions.
use Prim.Native.String.{count}
use offbook.Common.{ℕ, none, some, false, [], str_eq, if◌then◌else◌}
use offbook.Common.Integers.{ℤ}
use offbook.Model.{Transaction, Strings, flow}

-- Texts without letter case or blanks; "(" is the one pattern that does not compile.
instance abbrev pub plain_strings : Strings
plain_strings = record {
  to_upper = λ t. t;
  to_lower = λ t. t;
  trim_space = λ t. t;
  collapse = λ t. t;
  rune_count = count;
  contains = λ t p. str_eq t p;
  compile_regexp = λ p. if str_eq p "(" then none else some (str_eq p);
}

-- A flow row of user 7, by its number, account, amount in cents and day.
abbrev pub row : ℕ → ℕ → ℤ → ℕ → Transaction ℤ
row id account amount day = record {
  id = id;
  user_id = 7;
  account_id = account;
  asset_id = 1;
  category_id = none;
  kind = flow;
  amount = amount;
  description = some "SHOP";
  description_clean = none;
  merchant_name = none;
  transaction_date = day;
  source = "manual";
  categorization_method = none;
  categorization_rule_id = none;
  is_transfer = false;
  transfer_pair_id = none;
  caused_by_observation_id = none;
  import_job_id = none;
  reviewed_at = none;
  hidden_at = none;
  merchant_edited_at = none;
  tags = [];
}
