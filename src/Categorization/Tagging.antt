-- ===== src/Categorization/Tagging.antt =====
-- The tags that a rule adds (`TagsToAdd` of engine.go): the row's limit, and no tag twice.
use offbook.Common.{
  ℕ, suc, ◌+◌, ◌≤◌, ◌≡◌, refl, inl, inr, Bool, true, false, List, [], ◌∷◌, String, arith, leb,
  str_eq, str_eq_iff, has, length, Bool-cases, has_self, has-append, ◌||◌, ◌++◌, ap,
}
use offbook.Model.{Strings, max_tags_per_row}
use offbook.Categorization.{pick_tags, keys}

-- Pairwise different, and none of them among `seen`.
abbrev pub AreFresh : List String → List String → Type 0
AreFresh seen [] = Unit {0}
AreFresh seen (k ∷ ks) = (has seen k ≡ false) × AreFresh (k ∷ seen) ks

AreFresh-same :
    (seen seen' ks : List String)
    → ((k : String) → has seen k ≡ has seen' k)
    → AreFresh seen ks
    → AreFresh seen' ks
AreFresh-same seen seen' [] same h = tt
AreFresh-same seen seen' (k ∷ ks) same (new, h) = (
  rw (← same k) new,
  AreFresh-same (k ∷ seen) (k ∷ seen') ks (λ j. ap (λ b. str_eq j k || b) (same j)) h,
)

has-middle : (xs ys : List String) (x k : String) → has (x ∷ (xs ++ ys)) k ≡ has (xs ++ x ∷ ys) k
has-middle xs ys x k = ground (arith, has-append xs ys k, has-append xs (x ∷ ys) k)

pub AreFresh-append :
    (seen xs ys : List String)
    → AreFresh seen xs
    → AreFresh (xs ++ seen) ys
    → AreFresh seen (xs ++ ys)
AreFresh-append seen [] ys h r = r
AreFresh-append seen (x ∷ xs) ys (new, h) r = (
  new,
  AreFresh-append (x ∷ seen) xs ys h
      (AreFresh-same (x ∷ (xs ++ seen)) (xs ++ x ∷ seen) ys (has-middle xs seen x) r),
)

or_right : (a : Bool) {b : Bool} → b ≡ true → (a || b) ≡ true
or_right a h = ground arith

-- What holds one more key than `seen` is still within `seen'`, if `seen'` has that key.
has_or :
    (seen seen' : List String) (key k : String)
    → ((j : String) → has seen j ≡ true → has seen' j ≡ true)
    → has seen' key ≡ true
    → has (key ∷ seen) k ≡ true
    → has seen' k ≡ true
has_or seen seen' key k old head h = elim (Bool-cases (str_eq k key)) [
  | inl same ↦ rw ((str_eq_iff k key).0 same) head
  | inr other ↦ old k (rw other at h)
]

module _ ⦃s : Strings⦄ where
  pick_tags-nil : (seen : List String) (n : ℕ) → pick_tags seen n [] ≡ []
  unfolding pick_tags
  pick_tags-nil seen n = refl

  pick_tags-full :
      (seen : List String) (n : ℕ) (rest : List String)
      → max_tags_per_row ≤ n
      → pick_tags seen n rest ≡ []
  unfolding pick_tags
  pick_tags-full seen n [] h = refl
  pick_tags-full seen n (tag ∷ rest) h = ground arith

  -- With room left, the tags that are picked fit into it.
  pub pick_tags-le :
      (seen : List String) (n : ℕ) (rest : List String)
      → n ≤ max_tags_per_row
      → n + length (pick_tags seen n rest) ≤ max_tags_per_row
  unfolding pick_tags
  pick_tags-le seen n [] h = omega arith
  pick_tags-le seen n (tag ∷ rest) h =
      ground (arith, pick_tags-le seen n rest h, pick_tags-le (s.to_lower tag ∷ seen) (n + 1) rest)

  module _ (seen : List String) (n : ℕ) (tag : String) (rest : List String) where
    pick_tags-seen :
        leb max_tags_per_row n ≡ false
        → has seen (s.to_lower tag) ≡ true
        → pick_tags seen n (tag ∷ rest) ≡ pick_tags seen n rest
    unfolding pick_tags
    pick_tags-seen room known = ground arith

    pick_tags-fresh :
        leb max_tags_per_row n ≡ false
        → has seen (s.to_lower tag) ≡ false
        → pick_tags seen n (tag ∷ rest) ≡ tag ∷ pick_tags (s.to_lower tag ∷ seen) (n + 1) rest
    unfolding pick_tags
    pick_tags-fresh room new = ground arith

    pick_tags-known :
        has seen (s.to_lower tag) ≡ true
        → pick_tags seen n rest ≡ []
        → pick_tags seen n (tag ∷ rest) ≡ []
    unfolding pick_tags
    pick_tags-known known h = ground arith

  -- A second pass over the same tags, from a row that has what the first picked, picks nothing.
  pub pick_tags-again :
      (seen seen' : List String) (n : ℕ) (rest : List String)
      → ((k : String) → has seen k ≡ true → has seen' k ≡ true)
      → ((k : String) → has (keys (pick_tags seen n rest)) k ≡ true → has seen' k ≡ true)
      → pick_tags seen' (n + length (pick_tags seen n rest)) rest ≡ []
  pick_tags-again seen seen' n [] old new = pick_tags-nil _ _
  pick_tags-again seen seen' n (tag ∷ rest) old new = elim (Bool-cases (leb max_tags_per_row n)) [
    | inl full ↦ pick_tags-full _ _ _ (ground arith)
    | inr room ↦ elim (Bool-cases (has seen (s.to_lower tag))) [
      | inl known ↦
          let e = pick_tags-seen seen n tag rest room known in
          rw e (
            pick_tags-known seen' _ tag rest (old _ known)
              (pick_tags-again seen seen' n rest old (λ k h. new k (rw e h))))
      | inr fresh ↦
          let key = s.to_lower tag in
          let more = pick_tags (key ∷ seen) (n + 1) rest in
          let e = pick_tags-fresh seen n tag rest room fresh in
          let step : n + suc (length more) ≡ n + 1 + length more = omega arith in
          let head : has seen' key ≡ true = new key (rw e (has_self (keys more) key)) in
          rw e (
            pick_tags-known seen' _ tag rest head (
              rw step (
                pick_tags-again (key ∷ seen) seen' (n + 1) rest
                  (λ k h. has_or seen seen' key k old head h)
                  (λ k h. new k (rw e (or_right (str_eq k key) h))))))
    ]
  ]

  pub pick_tags-AreFresh :
      (seen : List String) (n : ℕ) (rest : List String)
      → AreFresh seen (keys (pick_tags seen n rest))
  pick_tags-AreFresh seen n [] = rw (pick_tags-nil seen n) tt
  pick_tags-AreFresh seen n (tag ∷ rest) = elim (Bool-cases (leb max_tags_per_row n)) [
    | inl full ↦ rw (pick_tags-full seen n (tag ∷ rest) (ground arith)) tt
    | inr room ↦ elim (Bool-cases (has seen (s.to_lower tag))) [
      | inl known ↦ rw (pick_tags-seen seen n tag rest room known) (pick_tags-AreFresh seen n rest)
      | inr new ↦
          rw (pick_tags-fresh seen n tag rest room new)
            (new, pick_tags-AreFresh (s.to_lower tag ∷ seen) (n + 1) rest)
    ]
  ]
