-- ===== src/Tags/Tests.antt =====
-- Runs of the tag functions, and their theorems at concrete lists.
use offbook.Common.{◌≡◌, refl, List, [], ◌∷◌, String, ok, str_eq}
use offbook.Samples.{plain_strings}
use offbook.Categorization.{keys}
use offbook.Tags.{normalize_tags, normalize_loop, canonicalize_tags}
use offbook.Tags.Normal.{Normal, normalize_tags-Normal, normalize_tags_idem}
use offbook.Tags.Canonical.{canonicalize_tags_stable}

abbrev raws : List String
raws = "food" ∷ "" ∷ "trip" ∷ "food" ∷ []

normalize-run : normalize_tags raws ≡ ok ("food" ∷ "trip" ∷ [])
unfolding normalize_tags normalize_loop str_eq
normalize-run = refl

normalize_tags-Normal_example : Normal raws (normalize_tags raws)
normalize_tags-Normal_example = normalize_tags-Normal raws

normalize_tags_idem_example : normalize_tags ("food" ∷ "trip" ∷ []) ≡ ok ("food" ∷ "trip" ∷ [])
unfolding normalize_tags normalize_loop str_eq
normalize_tags_idem_example = normalize_tags_idem (λ x. refl) raws ("food" ∷ "trip" ∷ []) refl

canonicalize_tags_stable_example :
    let names : List String = "food" ∷ [] in
    (keys (canonicalize_tags names raws) ≡ keys raws)
    × (canonicalize_tags names (canonicalize_tags names raws) ≡ canonicalize_tags names raws)
canonicalize_tags_stable_example = canonicalize_tags_stable ("food" ∷ []) raws
