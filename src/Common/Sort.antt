-- ===== src/Common/Sort.antt =====
-- A stable sort by a Boolean order, as `sort.SliceStable` and SQL's ORDER BY give it.
use Prim.Native.Nat.{ℕ, ◌+◌}
use mathlib.Core.Path.{◌≡◌, refl}
use mathlib.Core.Logic.{◌⊎◌, inl, inr}
use mathlib.Core.Bool.{Bool, true, false}
use mathlib.Core.List.{List, [], ◌∷◌}
use native.Mathlib.Omega.{arith}
use offbook.Common.Tests.{if◌then◌else◌, Bool-cases}
use offbook.Common.Lists.{All, In, weigh}

module _ {A : Type 0} (le : A → A → Bool) where
  unfoldable pub insert : A → List A → List A
  insert x [] = x ∷ []
  insert x (y ∷ ys) = if le x y then x ∷ y ∷ ys else y ∷ insert x ys

  unfoldable pub sort : List A → List A
  sort [] = []
  sort (x ∷ xs) = insert x (sort xs)

  In-insert : (a x : A) (ys : List A) → In a (insert x ys) → (a ≡ x) ⊎ In a ys
  unfolding insert
  In-insert a x [] = λ h. h
  In-insert a x (y ∷ ys) = elim (Bool-cases (le x y)) [
    | inl e ↦ rw e (λ h. h)
    | inr e ↦ rw e (λ h. elim h [
      | inl p ↦ inr (inl p)
      | inr q ↦ elim (In-insert a x ys q) [ inl p ↦ inl p | inr r ↦ inr (inr r) ]
    ])
  ]

  insert-In : (a x : A) (ys : List A) → (a ≡ x) ⊎ In a ys → In a (insert x ys)
  unfolding insert
  insert-In a x [] h = h
  insert-In a x (y ∷ ys) h = elim (Bool-cases (le x y)) [
    | inl e ↦ rw e h
    | inr e ↦ rw e (elim h [
      | inl p ↦ inr (insert-In a x ys (inl p))
      | inr q ↦ elim q [ inl p ↦ inl p | inr r ↦ inr (insert-In a x ys (inr r)) ]
    ])
  ]

  pub In-sort : (a : A) (xs : List A) → In a (sort xs) → In a xs
  unfolding sort
  In-sort a [] h = h
  In-sort a (x ∷ xs) h = elim (In-insert a x (sort xs) h) [
    | inl p ↦ inl p
    | inr q ↦ inr (In-sort a xs q)
  ]

  pub sort-In : (a : A) (xs : List A) → In a xs → In a (sort xs)
  unfolding sort
  sort-In a [] h = h
  sort-In a (x ∷ xs) (inl p) = insert-In a x (sort xs) (inl p)
  sort-In a (x ∷ xs) (inr q) = insert-In a x (sort xs) (inr (sort-In a xs q))

  -- A number summed over the list is the same after the sort.
  module _ (weight : A → ℕ) where
    weigh-insert : (x : A) (ys : List A) → weigh weight (insert x ys) ≡ weight x + weigh weight ys
    unfolding insert
    weigh-insert x [] = refl
    weigh-insert x (y ∷ ys) = ground (arith, weigh-insert x ys)

    pub weigh-sort : (xs : List A) → weigh weight (sort xs) ≡ weigh weight xs
    unfolding sort
    weigh-sort [] = refl
    weigh-sort (x ∷ xs) = omega (arith, weigh-insert x (sort xs), weigh-sort xs)

  -- Every element is in order with all behind it.
  abbrev pub IsSorted : List A → Type 0
  IsSorted [] = Unit {0}
  IsSorted (x ∷ xs) = All (λ y. le x y ≡ true) xs × IsSorted xs

  module _ (total : (x y : A) → le x y ≡ false → le y x ≡ true)
      (trans : (x y z : A) → le x y ≡ true → le y z ≡ true → le x z ≡ true) where
    All-le :
        (x y : A) (zs : List A)
        → le x y ≡ true
        → All (λ z. le y z ≡ true) zs
        → All (λ z. le x z ≡ true) zs
    All-le x y [] h a = tt
    All-le x y (z ∷ zs) h (a, rest) = (trans x y z h a, All-le x y zs h rest)

    All-insert :
        (w x : A) (ys : List A)
        → le w x ≡ true
        → All (λ z. le w z ≡ true) ys
        → All (λ z. le w z ≡ true) (insert x ys)
    unfolding insert
    All-insert w x [] h a = (h, tt)
    All-insert w x (y ∷ ys) h (a, rest) = elim (Bool-cases (le x y)) [
      | inl e ↦ rw e (h, (a, rest))
      | inr e ↦ rw e (a, All-insert w x ys h rest)
    ]

    insert-IsSorted : (x : A) (ys : List A) → IsSorted ys → IsSorted (insert x ys)
    unfolding insert
    insert-IsSorted x [] h = (tt, tt)
    insert-IsSorted x (y ∷ ys) (a, h) = elim (Bool-cases (le x y)) [
      | inl e ↦ rw e ((e, All-le x y ys e a), (a, h))
      | inr e ↦ rw e (All-insert y x ys (total x y e) a, insert-IsSorted x ys h)
    ]

    pub sort-IsSorted : (xs : List A) → IsSorted (sort xs)
    unfolding sort
    sort-IsSorted [] = tt
    sort-IsSorted (x ∷ xs) = insert-IsSorted x (sort xs) (sort-IsSorted xs)
