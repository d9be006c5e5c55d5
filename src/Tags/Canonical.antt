-- ===== src/Tags/Canonical.antt =====
-- `canonicalizeTags`: each tag in the spelling that the user already has for it.
use offbook.Common.{
  ◌≡◌, refl, inl, inr, Option, none, some, List, [], ◌∷◌, String, arith, str_eq_iff, Option-cases,
  or_else,
}
use offbook.Model.{Strings}
use offbook.Categorization.{keys}
use offbook.Tags.{spelling, canonicalize_tags}

module _ ⦃s : Strings⦄ where
  spelling-key :
      (existing : List String) (k c : String) → spelling existing k ≡ some c → s.to_lower c ≡ k
  unfolding spelling
  spelling-key [] k c e = cc
  spelling-key (name ∷ rest) k c e =
      ground (arith, str_eq_iff (s.to_lower name) k, spelling-key rest k c)

  -- The spelling that replaces one tag.
  abbrev respell : List String → String → String
  respell existing t = or_else (spelling existing (s.to_lower t)) t

  respell-key :
      (existing : List String) (t : String) → s.to_lower (respell existing t) ≡ s.to_lower t
  respell-key existing t = elim (Option-cases (spelling existing (s.to_lower t))) [
    | inl new ↦ rw new
    | inr (c, e) ↦ rw e (spelling-key existing (s.to_lower t) c e)
  ]

  -- A tag that is respelled stays so.
  respell_idem :
      (existing : List String) (t : String)
      → respell existing (respell existing t) ≡ respell existing t
  respell_idem existing t = rw (respell-key existing t) (settled (spelling existing (s.to_lower t)))
    where
      settled : (o : Option String) → or_else o (or_else o t) ≡ or_else o t
      settled none = refl
      settled (some c) = refl

  keys-canonicalize_tags :
      (existing tags : List String) → keys (canonicalize_tags existing tags) ≡ keys tags
  unfolding canonicalize_tags
  keys-canonicalize_tags existing [] = refl
  keys-canonicalize_tags existing (t ∷ tags) =
      rw (respell-key existing t, keys-canonicalize_tags existing tags)

  canonicalize_tags_idem :
      (existing tags : List String)
      → canonicalize_tags existing (canonicalize_tags existing tags)
        ≡ canonicalize_tags existing tags
  unfolding canonicalize_tags
  canonicalize_tags_idem existing [] = refl
  canonicalize_tags_idem existing (t ∷ tags) =
      rw (respell_idem existing t, canonicalize_tags_idem existing tags)

  -- Canonical spelling keeps each tag's key, and with it the number of tags and what tells them
  -- apart, and a second pass changes nothing.
  pub canonicalize_tags_stable :
      (existing tags : List String)
      → (keys (canonicalize_tags existing tags) ≡ keys tags)
        × (canonicalize_tags existing (canonicalize_tags existing tags)
            ≡ canonicalize_tags existing tags)
  canonicalize_tags_stable existing tags =
      (keys-canonicalize_tags existing tags, canonicalize_tags_idem existing tags)
