-- ===== src/Categorization/Matching/Order.antt =====
-- Which rule wins in `categorize` of engine.go: the first that fires.
use offbook.Common.{
  String, ◌≡◌, ◌∙◌, ◌⊎◌, refl, Bool, true, false, ◌&&◌, Option, none, some, List, [], ◌∷◌, arith,
  All, Decimal, IsDecimal, abs_neg, Bool-cases, inl, inr,
}
use offbook.Model.{Transaction, Strings}
use offbook.Categorization.{CompiledRule}
use offbook.Categorization.Matching.{
  Subject, Field, asset_matches, conditions_match, text_matches, first_match, decision, categorize,
  collect_fields, match_rules, within_band,
}

module _ {D : Type 0} ⦃d : Decimal D⦄ ⦃s : Strings⦄ where
  -- A rule fires when its asset, its account and amount conditions and its text all match.
  abbrev pub fires : Subject D → List Field → CompiledRule D → Bool
  fires sub fields r = asset_matches r sub && conditions_match r sub && text_matches r fields

  -- The rule that wins: it fires, and none before it does.
  pub data Winner (sub : Subject D) (fields : List Field)
      : List (CompiledRule D) → CompiledRule D → Type 0 where
    here :
        {r : CompiledRule D} {rest : List (CompiledRule D)}
        → fires sub fields r ≡ true
        → Winner sub fields (r ∷ rest) r
    later :
        {q r : CompiledRule D} {rest : List (CompiledRule D)}
        → fires sub fields q ≡ false
        → Winner sub fields rest r
        → Winner sub fields (q ∷ rest) r

  module _ (sub : Subject D) (fields : List Field) where
    first_match-fires :
        (r : CompiledRule D) (rest : List (CompiledRule D))
        → fires sub fields r ≡ true
        → first_match sub fields (r ∷ rest) ≡ some (decision r)
    unfolding first_match
    first_match-fires r rest h = ground arith

    first_match-skips :
        (r : CompiledRule D) (rest : List (CompiledRule D))
        → fires sub fields r ≡ false
        → first_match sub fields (r ∷ rest) ≡ first_match sub fields rest
    unfolding first_match
    first_match-skips r rest h = ground arith

    first_match-Winner :
        (rules : List (CompiledRule D)) {r : CompiledRule D}
        → Winner sub fields rules r
        → first_match sub fields rules ≡ some (decision r)
    first_match-Winner _ (here {r = r} {rest = rest} h) = first_match-fires r rest h
    first_match-Winner _ (later {q = q} {rest = rest} h w) =
        first_match-skips q rest h ∙ first_match-Winner rest w

    Winner-or_none :
        (rules : List (CompiledRule D))
        → ((r : CompiledRule D) × Winner sub fields rules r)
          ⊎ All (λ r. fires sub fields r ≡ false) rules
    Winner-or_none [] = inr tt
    Winner-or_none (r ∷ rest) = elim (Bool-cases (fires sub fields r)) [
      | inl h ↦ inl (r, here h)
      | inr h ↦ elim (Winner-or_none rest) [
        | inl (q, w) ↦ inl (q, later h w)
        | inr all ↦ inr (h, all)
      ]
    ]

    first_match-nil : first_match sub fields [] ≡ none
    unfolding first_match
    first_match-nil = refl

    first_match-none :
        (rules : List (CompiledRule D))
        → All (λ r. fires sub fields r ≡ false) rules
        → first_match sub fields rules ≡ none
    first_match-none [] h = first_match-nil
    first_match-none (r ∷ rest) (h, hs) = first_match-skips r rest h ∙ first_match-none rest hs

  -- The decision is that of the first rule that fires, whatever stands behind it; there is none
  -- exactly when no rule fires.
  pub categorize_first :
      (rules : List (CompiledRule D)) (sub : Subject D)
      (description_clean description merchant_name : Option String)
      → let fields = collect_fields description_clean description merchant_name in
        let found = categorize rules sub description_clean description merchant_name in
        ((r : CompiledRule D) × Winner sub fields rules r × (found ≡ some (decision r)))
        ⊎ (All (λ r. fires sub fields r ≡ false) rules × (found ≡ none))
  unfolding categorize
  categorize_first rules sub c n m =
      let fields = collect_fields c n m in
      elim (Winner-or_none sub fields rules) [
        | inl (r, w) ↦ inl (r, w, first_match-Winner sub fields rules w)
        | inr h ↦ inr (h, first_match-none sub fields rules h)
      ]

  module _ (laws : IsDecimal D) where
    within_band-neg :
        (lo hi : Option D) (a : D) → within_band lo hi (some (d.neg a)) ≡ within_band lo hi (some a)
    unfolding within_band
    within_band-neg none none a = refl
    within_band-neg none (some hi) a = rw (abs_neg laws a)
    within_band-neg (some lo) none a = rw (abs_neg laws a)
    within_band-neg (some lo) (some hi) a = rw (abs_neg laws a)

    abbrev subject_of : Transaction D → D → Subject D
    subject_of t a = record { asset_id = t.asset_id; account_id = t.account_id; amount = some a }

    first_match-neg :
        (t : Transaction D) (a : D) (fields : List Field) (rules : List (CompiledRule D))
        → first_match (subject_of t (d.neg a)) fields rules
          ≡ first_match (subject_of t a) fields rules
    unfolding first_match conditions_match asset_matches
    first_match-neg t a fields [] = refl
    first_match-neg t a fields (r ∷ rest) =
        rw (within_band-neg r.amount_min r.amount_max a, first_match-neg t a fields rest)

    -- A charge and its refund are matched alike: only the magnitude of the amount counts.
    pub match_rules-neg :
        (rules : List (CompiledRule D)) (t : Transaction D)
        → match_rules rules (record t { amount = d.neg t.amount }) ≡ match_rules rules t
    unfolding match_rules categorize
    match_rules-neg rules t = first_match-neg t t.amount _ rules
