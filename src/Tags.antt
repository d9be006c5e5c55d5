-- ===== src/Tags.antt =====
-- Tag lists, backend/internal/service/transaction_tags.go: `NormalizeTags` and `canonicalizeTags`.
pub mod Normal
pub mod Canonical
mod Tests
use offbook.Common.{
  ℕ, Bool, true, false, Option, none, some, List, [], ◌∷◌, String, ltb, str_eq, if◌then◌else◌, has,
  or_else, length, Result, ok, err, ◌>>=◌,
}
use offbook.Model.{Strings, max_tags_per_row}

abbrev pub max_tag_length : ℕ
max_tag_length = 40

-- `ErrInvalidTags`, in the two ways that it is returned.
pub data TagError : Type 0 where
  too_long : String → TagError
  too_many : TagError

module _ ⦃s : Strings⦄ where
  -- The loop of `NormalizeTags`, from what `seen` holds: the tags that it appends to `out`.
  pub normalize_loop : List String → List String → Result TagError (List String)
  normalize_loop seen [] = ok []
  normalize_loop seen (raw ∷ rest) =
      let tag = s.collapse raw in
      elim (str_eq tag "") [
        | true ↦ normalize_loop seen rest
        | false ↦ elim (ltb max_tag_length (s.rune_count tag)) [
          | true ↦ err (too_long tag)
          | false ↦ elim (has seen (s.to_lower tag)) [
            | true ↦ normalize_loop seen rest
            | false ↦ normalize_loop (s.to_lower tag ∷ seen) rest >>= λ out. ok (tag ∷ out)
          ]
        ]
      ]

  pub normalize_tags : List String → Result TagError (List String)
  normalize_tags raws = normalize_loop [] raws >>= λ out.
      if ltb max_tags_per_row (length out) then err too_many else ok out

  -- `byKey[k]`: the first spelling in `existing` whose key is `k`.
  pub spelling : List String → String → Option String
  spelling [] k = none
  spelling (name ∷ rest) k = if str_eq (s.to_lower name) k then some name else spelling rest k

  -- `existing` are the names that `ListTags` returns for the user.
  pub canonicalize_tags : List String → List String → List String
  canonicalize_tags existing [] = []
  canonicalize_tags existing (t ∷ tags) =
      or_else (spelling existing (s.to_lower t)) t ∷ canonicalize_tags existing tags
