-- ===== src/Categorization/Matching/Compiled.antt =====
-- What `Compile` of engine.go makes of the stored rules.
use offbook.Common.{
  ◌≡◌, ◌≢◌, Bool, true, false, some, List, [], ◌∷◌, if◌then◌else◌, str_eq, is_some,
}
use offbook.Model.{CategorizationRule, Strings}
use offbook.Categorization.{CompiledRule}

module _ {D : Type 0} ⦃s : Strings⦄ where
  -- A rule takes part when it is active and, for a regular expression, when that compiles.
  abbrev pub is_usable : CategorizationRule D → Bool
  is_usable r =
      if r.is_active
      then (if str_eq r.match_type "regex" then is_some (s.compile_regexp r.pattern) else true)
      else false

  -- A compiled rule stands for a stored one: the same number and action, and for a regular
  -- expression the compiled form of its own pattern.
  pub record StandsFor (r : CategorizationRule D) (c : CompiledRule D) : Type 0 where
    pub same_id : c.id ≡ r.id
    pub same_category : c.category_id ≡ r.category_id
    pub upper_pattern : c.pattern_ci ≡ s.to_upper r.pattern
    pub same_re : str_eq r.match_type "regex" ≡ true → c.re ≡ s.compile_regexp r.pattern
    pub no_blank_rename : c.rename_merchant ≢ some ""

  -- Position by position.
  abbrev pub AllStandFor : List (CategorizationRule D) → List (CompiledRule D) → Type 0
  AllStandFor [] [] = Unit {0}
  AllStandFor (r ∷ rs) (c ∷ cs) = StandsFor r c × AllStandFor rs cs
  AllStandFor _ _ = ⊥
