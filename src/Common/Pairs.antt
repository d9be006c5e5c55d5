-- ===== src/Common/Pairs.antt =====
-- A relation between every row of a list and the rows behind it.
use Prim.Native.Nat.{ℕ}
use mathlib.Core.Path.{◌≡◌, refl, sym, ap, ◌∙◌, subst}
use mathlib.Core.Logic.{◌≢◌, inl, inr}
use mathlib.Core.Bool.{Bool, true, false}
use mathlib.Core.List.{List, [], ◌∷◌, ◌++◌, map}
use native.Mathlib.Omega.{arith}
use offbook.Common.Tests.{Bool-cases}
use offbook.Common.Lists.{All, All-In, All-of_In, All-append, In, In-select, any, select}
use offbook.Common.Sort.{sort, insert}

module _ {A : Type 0} where
  abbrev pub Pairwise : (A → A → Type 0) → List A → Type 0
  Pairwise R [] = Unit {0}
  Pairwise R (x ∷ xs) = All (R x) xs × Pairwise R xs

  pub any-In : (p : A → Bool) (x : A) (xs : List A) → In x xs → p x ≡ true → any p xs ≡ true
  any-In p x [] m h = absurd m
  any-In p x (y ∷ xs) (inl e) h = let t = subst (λ z. p z ≡ true) e h in ground (arith, t)
  any-In p x (y ∷ xs) (inr m) h = let t = any-In p x xs m h in ground (arith, t)

  pub not_any-In : (p : A → Bool) (x : A) (xs : List A) → any p xs ≡ false → In x xs → p x ≡ false
  not_any-In p x xs h m = elim (Bool-cases (p x)) [
    | inl e ↦ let t = any-In p x xs m e in cc
    | inr e ↦ e
  ]

  pub All-select : (P : A → Type 0) (p : A → Bool) (xs : List A) → All P xs → All P (select p xs)
  All-select P p xs h = All-of_In P (select p xs) (λ a m. All-In P a xs h (In-select p a xs m).0)

  pub Pairwise-select :
      (R : A → A → Type 0) (p : A → Bool) (xs : List A) → Pairwise R xs → Pairwise R (select p xs)
  Pairwise-select R p [] h = tt
  Pairwise-select R p (x ∷ xs) (h, hs) = elim (Bool-cases (p x)) [
    | inl e ↦ rw e (All-select (R x) p xs h, Pairwise-select R p xs hs)
    | inr e ↦ rw e (Pairwise-select R p xs hs)
  ]

  All-insert :
      (P : A → Type 0) (le : A → A → Bool) (x : A) (ys : List A)
      → P x
      → All P ys
      → All P (insert le x ys)
  unfolding insert
  All-insert P le x [] h t = (h, tt)
  All-insert P le x (y ∷ ys) h (k, ks) = elim (Bool-cases (le x y)) [
    | inl e ↦ rw e (h, (k, ks))
    | inr e ↦ rw e (k, All-insert P le x ys h ks)
  ]

  pub All-sort : (P : A → Type 0) (le : A → A → Bool) (xs : List A) → All P xs → All P (sort le xs)
  unfolding sort
  All-sort P le [] h = tt
  All-sort P le (x ∷ xs) (h, hs) = All-insert P le x (sort le xs) h (All-sort P le xs hs)

  module _ (R : A → A → Type 0) (R_sym : (x y : A) → R x y → R y x) (le : A → A → Bool) where
    Pairwise-insert :
        (x : A) (ys : List A) → All (R x) ys → Pairwise R ys → Pairwise R (insert le x ys)
    unfolding insert
    Pairwise-insert x [] h k = (tt, tt)
    Pairwise-insert x (y ∷ ys) (h, hs) (k, ks) = elim (Bool-cases (le x y)) [
      | inl e ↦ rw e ((h, hs), (k, ks))
      | inr e ↦ rw e (All-insert (R y) le x ys (R_sym x y h) k, Pairwise-insert x ys hs ks)
    ]

    pub Pairwise-sort : (xs : List A) → Pairwise R xs → Pairwise R (sort le xs)
    unfolding sort
    Pairwise-sort [] h = tt
    Pairwise-sort (x ∷ xs) (h, hs) =
        Pairwise-insert x (sort le xs) (All-sort (R x) le xs h) (Pairwise-sort xs hs)

  pub Pairwise-snoc :
      (R : A → A → Type 0) (xs : List A) (y : A)
      → Pairwise R xs
      → All (λ x. R x y) xs
      → Pairwise R (xs ++ (y ∷ []))
  Pairwise-snoc R [] y h k = (tt, tt)
  Pairwise-snoc R (x ∷ xs) y (h, hs) (k, ks) =
      (All-append (R x) xs (y ∷ []) h (k, tt), Pairwise-snoc R xs y hs ks)

  pub any_there : (p : A → Bool) (xs : List A) → any p xs ≡ true → (x : A) × In x xs × (p x ≡ true)
  any_there p [] h = cc
  any_there p (x ∷ xs) h = elim (Bool-cases (p x)) [
    | inl e ↦ (x, inl refl, e)
    | inr e ↦ let (y, m, t) = any_there p xs (ground (arith, h, e)) in (y, inr m, t)
  ]

module _ {A : Type 0} (R S : A → A → Type 0) where
  pub Pairwise-both :
      (xs : List A) → Pairwise R xs → Pairwise S xs → Pairwise (λ x y. R x y × S x y) xs
  Pairwise-both [] h k = tt
  Pairwise-both (x ∷ xs) (h, hs) (k, ks) = (
    All-of_In _ xs (λ y m. (All-In (R x) y xs h m, All-In (S x) y xs k m)),
    Pairwise-both xs hs ks,
  )

module _ {A B : Type 0} (f : A → B) where
  pub In-map : (b : B) (xs : List A) → In b (map f xs) → (a : A) × In a xs × (b ≡ f a)
  In-map b [] h = absurd h
  In-map b (x ∷ xs) (inl e) = (x, inl refl, e)
  In-map b (x ∷ xs) (inr h) = let (a, m, e) = In-map b xs h in (a, inr m, e)

  pub map-In : (a : A) (xs : List A) → In a xs → In (f a) (map f xs)
  map-In a [] h = absurd h
  map-In a (x ∷ xs) (inl e) = inl (ap f e)
  map-In a (x ∷ xs) (inr h) = inr (map-In a xs h)

-- Rows that differ in a number are one where it is the same.
module _ {A : Type 0} (number : A → ℕ) where
  pub Pairwise-one :
      (xs : List A)
      → Pairwise (λ x y. number x ≢ number y) xs
      → (x y : A) → In x xs
      → In y xs
      → number x ≡ number y
      → x ≡ y
  Pairwise-one [] h x y m n e = absurd m
  Pairwise-one (z ∷ xs) (h, hs) x y (inl p) (inl q) e = p ∙ sym q
  Pairwise-one (z ∷ xs) (h, hs) x y (inl p) (inr n) e =
      absurd (All-In _ y xs h n (ap number (sym p) ∙ e))
  Pairwise-one (z ∷ xs) (h, hs) x y (inr m) (inl q) e =
      absurd (All-In _ x xs h m (ap number (sym q) ∙ sym e))
  Pairwise-one (z ∷ xs) (h, hs) x y (inr m) (inr n) e = Pairwise-one xs hs x y m n e

-- The images of rows that are related.
pub map-Pairwise :
    {A B : Type 0} (R : A → A → Type 0) (S : B → B → Type 0) (f : A → B) (xs : List A)
    → ((x y : A) → In x xs → In y xs → R x y → S (f x) (f y))
    → Pairwise R xs
    → Pairwise S (map f xs)
map-Pairwise R S f [] h k = tt
map-Pairwise R S f (x ∷ xs) h (k, ks) = (
  All-of_In _ (map f xs) (λ z m.
      let (y, n, e) = In-map f z xs m in
      subst (S (f x)) (sym e) (h x y (inl refl) (inr n) (All-In (R x) y xs k n))),
  map-Pairwise R S f xs (λ y z m n. h y z (inr m) (inr n)) ks,
)
