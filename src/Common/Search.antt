-- ===== src/Common/Search.antt =====
-- Membership of a text and of a number in a list, as a test.
use Prim.Native.Nat.{ℕ}
use Prim.Native.String.{String}
use mathlib.Core.Path.{◌≡◌, refl}
use mathlib.Core.Bool.{Bool, false, true, ◌||◌}
use mathlib.Core.List.{List, [], ◌∷◌, ◌++◌}
use native.Mathlib.Omega.{arith}
use offbook.Common.Tests.{str_eq, str_eq_refl, ◌==◌}

-- The set of keys of a `map[string]bool`, as the list of the keys that were set.
abbrev pub has : List String → String → Bool
has [] k = false
has (x ∷ xs) k = str_eq k x || has xs k

abbrev pub has_id : List ℕ → ℕ → Bool
has_id [] k = false
has_id (x ∷ xs) k = (k == x) || has_id xs k

pub has-append : (xs ys : List String) (k : String) → has (xs ++ ys) k ≡ (has xs k || has ys k)
has-append [] ys k = refl
has-append (x ∷ xs) ys k = ground (arith, has-append xs ys k)

pub has_self : (xs : List String) (k : String) → has (k ∷ xs) k ≡ true
has_self xs k = ground (arith, str_eq_refl k)
