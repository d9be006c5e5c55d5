-- ===== src/Tags/Normal.antt =====
-- What `NormalizeTags` returns: a short list of short tags, none blank and none twice.
use offbook.Common.{
  subst, ◌<◌, if◌then◌else◌, ◌≤◌, ◌≡◌, refl, inl, inr, Bool, true, false, ◌||◌, ◌&&◌, List, [], ◌∷◌,
  String, arith, ltb, str_eq, str_eq_refl, has, has_self, any, length, All, All-map, Bool-cases,
  Result, ok, err, ◌>>=◌,
}
use offbook.Model.{Strings, max_tags_per_row}
use offbook.Categorization.{keys}
use offbook.Categorization.Tagging.{AreFresh}
use offbook.Tags.{normalize_tags, normalize_loop, max_tag_length, TagError, too_long, too_many}

module _ ⦃s : Strings⦄ where
  -- A tag that is neither blank nor too long.
  abbrev pub IsTag : String → Type 0
  IsTag tag = (str_eq tag "" ≡ false) × (s.rune_count tag ≤ max_tag_length)

  -- A text that is not blank has its key among those of `out`, or in `seen`.
  abbrev pub IsKept : List String → List String → String → Type 0
  IsKept seen out raw =
      str_eq (s.collapse raw) "" ≡ false
      → (has (keys out) (s.to_lower (s.collapse raw)) || has seen (s.to_lower (s.collapse raw)))
        ≡ true

  abbrev pub is_too_long : String → String → Bool
  is_too_long tag raw = str_eq (s.collapse raw) tag && ltb max_tag_length (s.rune_count tag)

  abbrev LoopOk : List String → List String → Result TagError (List String) → Type 0
  LoopOk seen raws (ok out) = All IsTag out × AreFresh seen (keys out) × All (IsKept seen out) raws
  LoopOk seen raws (err (too_long tag)) = any (is_too_long tag) raws ≡ true
  LoopOk seen raws (err too_many) = ⊥

  LoopOk-skip :
      (seen raws : List String) (raw : String) (r : Result TagError (List String))
      → ((out : List String) → IsKept seen out raw)
      → LoopOk seen raws r
      → LoopOk seen (raw ∷ raws) r
  LoopOk-skip seen raws raw (ok out) k (t, f, h) = (t, f, (k out, h))
  LoopOk-skip seen raws raw (err (too_long tag)) k h = ground arith
  LoopOk-skip seen raws raw (err too_many) k h = h

  IsKept-cons :
      (seen out : List String) (tag raw : String)
      → IsKept (s.to_lower tag ∷ seen) out raw
      → IsKept seen (tag ∷ out) raw
  IsKept-cons seen out tag raw h b = ground (arith, h b)

  LoopOk-keep :
      (seen raws : List String) (raw : String) (r : Result TagError (List String))
      → IsTag (s.collapse raw)
      → has seen (s.to_lower (s.collapse raw)) ≡ false
      → LoopOk (s.to_lower (s.collapse raw) ∷ seen) raws r
      → LoopOk seen (raw ∷ raws) (r >>= λ out. ok (s.collapse raw ∷ out))
  LoopOk-keep seen raws raw (ok out) t new (ts, f, h) = (
    (t, ts),
    (new, f),
    (
      λ b. ground (arith, has_self (keys out) (s.to_lower (s.collapse raw))),
      All-map _ _ (IsKept-cons seen out (s.collapse raw)) raws h,
    ),
  )
  LoopOk-keep seen raws raw (err (too_long tag)) t new h = ground arith
  LoopOk-keep seen raws raw (err too_many) t new h = h

  normalize_loop-LoopOk : (seen raws : List String) → LoopOk seen raws (normalize_loop seen raws)
  unfolding normalize_loop
  normalize_loop-LoopOk seen [] = (tt, tt, tt)
  normalize_loop-LoopOk seen (raw ∷ rest) = elim (Bool-cases (str_eq (s.collapse raw) "")) [
    | inl blank ↦
        rw (blank, normalize_loop)
          (LoopOk-skip seen rest raw _ (λ out b. cc) (normalize_loop-LoopOk seen rest))
    | inr text ↦ elim (Bool-cases (ltb max_tag_length (s.rune_count (s.collapse raw)))) [
      | inl long ↦ rw (text, long, normalize_loop) (ground (arith, str_eq_refl (s.collapse raw)))
      | inr short ↦ elim (Bool-cases (has seen (s.to_lower (s.collapse raw)))) [
        | inl old ↦
            rw (text, short, old, normalize_loop)
              (LoopOk-skip seen rest raw _ (λ out b. ground arith)
                (normalize_loop-LoopOk seen rest))
        | inr new ↦
            rw (text, short, new, normalize_loop)
              (LoopOk-keep seen rest raw _ (text, ground arith) new
                (normalize_loop-LoopOk (s.to_lower (s.collapse raw) ∷ seen) rest))
      ]
    ]
  ]

  -- What each outcome says of the texts that were given.
  abbrev pub Normal : List String → Result TagError (List String) → Type 0
  Normal raws (ok out) =
      (length out ≤ max_tags_per_row)
      × All IsTag out
      × AreFresh [] (keys out)
      × All (IsKept [] out) raws
  Normal raws (err (too_long tag)) = any (is_too_long tag) raws ≡ true
  Normal raws (err too_many) =
      (out : List String) × (normalize_loop [] raws ≡ ok out)
      × AreFresh [] (keys out)
      × (max_tags_per_row < length out)

  normalize_cut :
      (raws : List String) (r : Result TagError (List String))
      → normalize_loop [] raws ≡ r
      → LoopOk [] raws r
      → Normal raws
          (r >>= λ out. if ltb max_tags_per_row (length out) then err too_many else ok out)
  normalize_cut raws (ok out) e (t, f, k) = elim (Bool-cases (ltb max_tags_per_row (length out))) [
    | inl many ↦ rw many (out, e, f, ground arith)
    | inr few ↦ rw few (ground arith, t, f, k)
  ]
  normalize_cut raws (err (too_long tag)) e h = h
  normalize_cut raws (err too_many) e h = absurd h

  -- A list that is returned has at most ten tags, none blank or over forty characters and no two
  -- equal up to letter case, and the key of each text that was not blank is there. An error names a
  -- tag of the input that is too long, or comes when more than ten different tags were collected.
  pub normalize_tags-Normal : (raws : List String) → Normal raws (normalize_tags raws)
  unfolding normalize_tags
  normalize_tags-Normal raws = normalize_cut raws _ refl (normalize_loop-LoopOk [] raws)

  normalize_loop-nil : (seen : List String) → normalize_loop seen [] ≡ ok []
  unfolding normalize_loop
  normalize_loop-nil seen = refl

  -- A list that is returned is what the loop collected, and is short enough.
  normalize_tags-ok :
      (raws out : List String)
      → normalize_tags raws ≡ ok out
      → (normalize_loop [] raws ≡ ok out) × (ltb max_tags_per_row (length out) ≡ false)
  unfolding normalize_tags
  normalize_tags-ok raws out h = ground arith

  module _ (collapse_idem : (x : String) → s.collapse (s.collapse x) ≡ s.collapse x) where
    abbrev IsFixed : Result TagError (List String) → Type 0
    IsFixed (ok out) = All (λ t. s.collapse t ≡ t) out
    IsFixed (err e) = Unit {0}

    IsFixed-cons :
        (raw : String) (r : Result TagError (List String))
        → IsFixed r
        → IsFixed (r >>= λ out. ok (s.collapse raw ∷ out))
    IsFixed-cons raw (ok out) h = (collapse_idem raw, h)
    IsFixed-cons raw (err e) h = tt

    normalize_loop-IsFixed : (seen raws : List String) → IsFixed (normalize_loop seen raws)
    unfolding normalize_loop
    normalize_loop-IsFixed seen [] = tt
    normalize_loop-IsFixed seen (raw ∷ rest) = elim (Bool-cases (str_eq (s.collapse raw) "")) [
      | inl blank ↦ rw (blank, normalize_loop) (normalize_loop-IsFixed seen rest)
      | inr text ↦ elim (Bool-cases (ltb max_tag_length (s.rune_count (s.collapse raw)))) [
        | inl long ↦ rw (text, long, normalize_loop) tt
        | inr short ↦ elim (Bool-cases (has seen (s.to_lower (s.collapse raw)))) [
          | inl old ↦ rw (text, short, old, normalize_loop) (normalize_loop-IsFixed seen rest)
          | inr new ↦
              rw (text, short, new, normalize_loop)
                (IsFixed-cons raw _
                  (normalize_loop-IsFixed (s.to_lower (s.collapse raw) ∷ seen) rest))
        ]
      ]
    ]

    normalize_loop-keep :
        (seen rest : List String) (raw : String)
        → str_eq (s.collapse raw) "" ≡ false
        → ltb max_tag_length (s.rune_count (s.collapse raw)) ≡ false
        → has seen (s.to_lower (s.collapse raw)) ≡ false
        → normalize_loop seen (raw ∷ rest)
          ≡ normalize_loop (s.to_lower (s.collapse raw) ∷ seen) rest >>= λ out.
              ok (s.collapse raw ∷ out)
    unfolding normalize_loop
    normalize_loop-keep seen rest raw text short new = rw (text, short, new, normalize_loop)

    normalize_loop-fixed :
        (seen out : List String)
        → All IsTag out
        → AreFresh seen (keys out)
        → All (λ t. s.collapse t ≡ t) out
        → normalize_loop seen out ≡ ok out
    normalize_loop-fixed seen [] t f h = normalize_loop-nil seen
    normalize_loop-fixed seen (x ∷ out) ((text, short), ts) (new, f) (e, h) =
        let step = normalize_loop-keep seen out x (rw e text) (rw e (ground arith)) (rw e new) in
        rw step (rw e (rw (normalize_loop-fixed (s.to_lower x ∷ seen) out ts f h)))

    -- `NormalizeTags` changes nothing on a list that it returned.
    pub normalize_tags_idem :
        (raws out : List String) → normalize_tags raws ≡ ok out → normalize_tags out ≡ ok out
    unfolding normalize_tags
    normalize_tags_idem raws out h =
        let (e, few) = normalize_tags-ok raws out h in
        let (t, f, _) = subst (LoopOk [] raws) e (normalize_loop-LoopOk [] raws) in
        let fixed = subst IsFixed e (normalize_loop-IsFixed [] raws) in
        rw (normalize_loop-fixed [] out t f fixed) (rw few)
