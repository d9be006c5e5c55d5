-- ===== src/Categories/Slugs.antt =====
-- Names and slugs: checkName, freeSlug and slugify of category_service.go, with NameTaken and
-- SlugTaken of category_repo.go. One function stands for `strings.ToLower` and the database's
-- `lower`.
pub mod Free
use Prim.Native.Char.{Char}
use Prim.Native.String.{char_at}
use Prim.Native.String
use offbook.Common.{
  ℕ, zero, suc, ◌+◌, ◌/◌, ◌%◌, Bool, true, false, not, ◌&&◌, ◌||◌, some, List, String, ltb, ◌==◌,
  str_eq, if◌then◌else◌, holds, any, Result, ok, err,
}
use offbook.Model.{Strings}
use offbook.Plans.{Category, is_visible}
use offbook.Categories.{CategoryError, invalid_category_name, category_name_taken}

abbrev pub max_category_name : ℕ
max_category_name = 60

-- What the program uses of package unicode.
pub record Runes : Type 0 where
  pub is_letter : Char → Bool
  pub is_digit : Char → Bool

unfoldable pub slug_taken : ℕ → String → List Category → Bool
slug_taken user slug rows = any (λ c. holds c.user_id user && str_eq c.slug slug) rows

-- `%d` of a number below a hundred.
abbrev pub digit : ℕ → Char
digit n = char_at "0123456789" n

abbrev pub decimal : ℕ → String
decimal n =
    if ltb n 10
    then String.◌∷◌ (digit n) String.[]
    else String.◌∷◌ (digit (n / 10)) (String.◌∷◌ (digit (n % 10)) String.[])

-- The slug of a round: the base in the first, with the round behind it in the others.
abbrev pub slug_of_round : String → ℕ → String
slug_of_round base i = if ltb 1 i then String.◌++◌ base (String.◌∷◌ "-" (decimal i)) else base

-- The loop of freeSlug, with the rounds left.
unfoldable pub free_slug_from : ℕ → String → ℕ → ℕ → List Category → Result CategoryError String
free_slug_from user base zero i rows = err category_name_taken
free_slug_from user base (suc left) i rows = elim (slug_taken user (slug_of_round base i) rows) [
  | true ↦ free_slug_from user base left (i + 1) rows
  | false ↦ ok (slug_of_round base i)
]

module _ ⦃s : Strings⦄ where
  unfoldable pub name_taken : ℕ → String → ℕ → List Category → Bool
  name_taken user name except rows =
      any
        (λ c.
          is_visible (some user) c
          && str_eq (s.to_lower c.name) (s.to_lower name)
          && not (c.id == except))
        rows

  unfoldable pub check_name : ℕ → String → ℕ → List Category → Result CategoryError String
  check_name user text except rows =
      let name = s.collapse text in
      if str_eq name "" || ltb max_category_name (s.rune_count name)
      then err invalid_category_name
      else if name_taken user name except rows
      then err category_name_taken
      else ok name

module _ ⦃s : Strings⦄ ⦃u : Runes⦄ where
  -- The loop of slugify: `started` is `b.Len() > 0`, and what is returned is written behind.
  unfoldable pub slug_loop : Bool → Bool → String → String
  slug_loop dash started String.[] = String.[]
  slug_loop dash started (String.◌∷◌ r rest) = elim (u.is_letter r || u.is_digit r) [
    | true ↦
        if dash && started
        then String.◌∷◌ "-" (String.◌∷◌ r (slug_loop false true rest))
        else String.◌∷◌ r (slug_loop false true rest)
    | false ↦ slug_loop true started rest
  ]

  unfoldable pub slugify : String → String
  slugify name =
      let slug = slug_loop false false (s.to_lower name) in
      if str_eq slug "" then "category" else slug

  unfoldable pub free_slug : ℕ → String → List Category → Result CategoryError String
  free_slug user name rows = free_slug_from user (slugify name) 50 1 rows
