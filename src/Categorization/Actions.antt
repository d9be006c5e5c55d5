-- ===== src/Categorization/Actions.antt =====
-- What `SetActions` of engine.go does to a row, and that `SameAs` recognises it.
use mathlib.Core.List.{map-append, append-nil}
use offbook.Common.{
  ℕ, ◌≤◌, ◌≡◌, refl, Bool, true, false, List, [], ◌++◌, String, arith, has, has-append, length,
  length-append, str_eq_refl, Bool-cases, inl, inr, ==_refl, is_some, ◌||◌, ◌&&◌, not, Option-cases,
}
use offbook.Model.{Transaction, Strings, is_flow, max_tags_per_row}
use offbook.Categorization.{
  Decision, keys, pick_tags, tags_to_add, tags_changed, merchant_changed, hide_changed,
  review_changed, same_as, set_actions, set_tags, set_reviewed, set_hidden, set_merchant,
  set_category, is_recorded, method_rule,
}
use offbook.Categorization.Tagging.{
  pick_tags-le, pick_tags-again, pick_tags-AreFresh, AreFresh, AreFresh-append,
}

and_false : (b : Bool) → (b && false) ≡ false
and_false b = ground arith

module _ {D : Type 0} ⦃s : Strings⦄ (dn : Decision) (u : Transaction D) where
  has-keys_append :
      (xs ys : List String) (k : String)
      → has (keys (xs ++ ys)) k ≡ (has (keys xs) k || has (keys ys) k)
  has-keys_append xs ys k = rw (map-append s.to_lower xs ys) (has-append (keys xs) (keys ys) k)

  -- Once the tags are written there is none left to add.
  tags_to_add-set_tags : tags_to_add dn (set_tags dn u) ≡ []
  unfolding tags_to_add set_tags
  tags_to_add-set_tags = elim (Bool-cases (is_flow u.kind)) [
    | inl is_row ↦
        let more = pick_tags (keys u.tags) (length u.tags) dn.add_tags in
        rw is_row (
          rw (length-append u.tags more) (
            pick_tags-again (keys u.tags) (keys (u.tags ++ more)) (length u.tags) dn.add_tags
              (λ k h. rw (has-keys_append u.tags more k) (ground arith))
              (λ k h. rw (has-keys_append u.tags more k) (ground arith))))
    | inr other ↦ rw other
  ]

  tags_changed-set_tags : tags_changed dn (set_tags dn u) ≡ false
  unfolding tags_changed
  tags_changed-set_tags = rw (tags_to_add-set_tags, tags_changed)

  -- The row's limit, unless the row was over it already.
  length-tags_to_add :
      length u.tags ≤ max_tags_per_row → length (u.tags ++ tags_to_add dn u) ≤ max_tags_per_row
  unfolding tags_to_add
  length-tags_to_add h = ground (
    arith,
    length-append u.tags (tags_to_add dn u),
    pick_tags-le (keys u.tags) (length u.tags) dn.add_tags h,
  )

  tags_to_add-AreFresh : AreFresh (keys u.tags) (keys (tags_to_add dn u))
  unfolding tags_to_add
  tags_to_add-AreFresh = elim (Bool-cases (is_flow u.kind)) [
    | inl is_row ↦ rw is_row (pick_tags-AreFresh (keys u.tags) (length u.tags) dn.add_tags)
    | inr other ↦ rw other tt
  ]

-- A later write leaves what an earlier one settled.
module _ {D : Type 0} (now : ℕ) (dn : Decision) (u : Transaction D) where
  merchant_changed-set_hidden : merchant_changed dn (set_hidden now dn u) ≡ merchant_changed dn u
  unfolding merchant_changed set_hidden
  merchant_changed-set_hidden = elim (Bool-cases (hide_changed dn u)) [
    | inl e ↦ rw e
    | inr e ↦ rw e
  ]

  merchant_changed-set_reviewed :
      merchant_changed dn (set_reviewed now dn u) ≡ merchant_changed dn u
  unfolding merchant_changed set_reviewed
  merchant_changed-set_reviewed = elim (Bool-cases (review_changed dn u)) [
    | inl e ↦ rw e
    | inr e ↦ rw e
  ]

  hide_changed-set_reviewed : hide_changed dn (set_reviewed now dn u) ≡ hide_changed dn u
  unfolding hide_changed set_reviewed
  hide_changed-set_reviewed = elim (Bool-cases (review_changed dn u)) [
    | inl e ↦ rw e
    | inr e ↦ rw e
  ]

  is_recorded-set_merchant : is_recorded dn (set_merchant dn u) ≡ is_recorded dn u
  unfolding is_recorded set_merchant
  is_recorded-set_merchant = elim (Bool-cases (merchant_changed dn u)) [
    | inl e ↦ rw e
    | inr e ↦ rw e
  ]

  is_recorded-set_hidden : is_recorded dn (set_hidden now dn u) ≡ is_recorded dn u
  unfolding is_recorded set_hidden
  is_recorded-set_hidden = elim (Bool-cases (hide_changed dn u)) [ inl e ↦ rw e | inr e ↦ rw e ]

  is_recorded-set_reviewed : is_recorded dn (set_reviewed now dn u) ≡ is_recorded dn u
  unfolding is_recorded set_reviewed
  is_recorded-set_reviewed = elim (Bool-cases (review_changed dn u)) [ inl e ↦ rw e | inr e ↦ rw e ]

  merchant_changed-set_merchant : merchant_changed dn (set_merchant dn u) ≡ false
  unfolding set_merchant
  merchant_changed-set_merchant = elim (Bool-cases (merchant_changed dn u)) [
    | inl e ↦ rw e (renamed e)
    | inr e ↦ rw e e
  ]
    where
      renamed :
          merchant_changed dn u ≡ true
          → merchant_changed dn (record u { merchant_name = dn.rename_merchant }) ≡ false
      renamed e =
          unfold merchant_changed in
          elim (Option-cases dn.rename_merchant) [
            | inl keep ↦ rw keep
            | inr (v, p) ↦ rw (p, str_eq_refl v) (and_false (not (is_some u.merchant_edited_at)))
          ]

  hide_changed-set_hidden : hide_changed dn (set_hidden now dn u) ≡ false
  unfolding set_hidden hide_changed
  hide_changed-set_hidden = ground arith

  review_changed-set_reviewed : review_changed dn (set_reviewed now dn u) ≡ false
  unfolding set_reviewed review_changed
  review_changed-set_reviewed = ground arith

  is_recorded-set_category : is_recorded dn (set_category dn u) ≡ true
  unfolding set_category is_recorded
  is_recorded-set_category = elim (Option-cases dn.category_id) [
    | inl keep ↦ rw keep
    | inr (c, e) ↦ rw (e, ==_refl c, ==_refl dn.rule_id, str_eq_refl method_rule)
  ]

module _ {D : Type 0} ⦃s : Strings⦄ (now : ℕ) (dn : Decision) (t : Transaction D) where
  -- The row before its tags are written.
  abbrev untagged : Transaction D
  untagged = set_reviewed now dn (set_hidden now dn (set_merchant dn (set_category dn t)))

  untagged_same : (untagged.kind ≡ t.kind) × (untagged.tags ≡ t.tags)
  unfolding set_actions
  untagged_same = (ground arith, ground arith)

  untagged_tags : untagged.tags ++ tags_to_add dn untagged ≡ t.tags ++ tags_to_add dn t
  unfolding tags_to_add
  untagged_tags = rw (untagged_same.0, untagged_same.1)

  merchant_settled : merchant_changed dn untagged ≡ false
  merchant_settled = simp (
    merchant_changed-set_reviewed,
    merchant_changed-set_hidden,
    merchant_changed-set_merchant now,
  )

  hide_settled : hide_changed dn untagged ≡ false
  hide_settled = simp (hide_changed-set_reviewed, hide_changed-set_hidden)

  record_settled : is_recorded dn untagged ≡ true
  record_settled = simp (
    is_recorded-set_reviewed,
    is_recorded-set_hidden,
    is_recorded-set_merchant now,
    is_recorded-set_category now,
  )

  review_settled : review_changed dn untagged ≡ false
  review_settled = review_changed-set_reviewed now dn _

  tagged_settled :
      (is_recorded dn (set_tags dn untagged) ≡ true)
      × (merchant_changed dn (set_tags dn untagged) ≡ false)
      × (hide_changed dn (set_tags dn untagged) ≡ false)
      × (review_changed dn (set_tags dn untagged) ≡ false)
      × (tags_changed dn (set_tags dn untagged) ≡ false)
  unfolding set_tags merchant_changed hide_changed review_changed is_recorded
  tagged_settled = (
    record_settled,
    merchant_settled,
    hide_settled,
    review_settled,
    tags_changed-set_tags dn untagged,
  )

  -- After `SetActions` has written a decision, `SameAs` reports that the row reflects it, so that
  -- applying the same decision again is recognised as a no-op: category and provenance, rename,
  -- hide, review mark and tags, also where the tag limit cut the added tags short.
  pub set_actions-same_as : same_as dn (set_actions now dn t) ≡ true
  unfolding same_as set_actions
  set_actions-same_as = let (c, m, h, r, g) = tagged_settled in rw (c, m, h, r, g)

  -- The tags of the row come first and the added ones behind them; a row within the limit stays
  -- within it, and no tag is there twice, up to letter case, if none was before.
  pub set_actions_tags :
      length t.tags ≤ max_tags_per_row
      → AreFresh [] (keys t.tags)
      → let after = (set_actions now dn t).tags in
        (after ≡ t.tags ++ tags_to_add dn t)
        × (length after ≤ max_tags_per_row)
        × AreFresh [] (keys after)
  unfolding set_actions
  set_actions_tags bound distinct = rw untagged_tags (
    refl,
    length-tags_to_add dn t bound,
    rw (map-append s.to_lower t.tags (tags_to_add dn t)) (
        AreFresh-append [] (keys t.tags) (keys (tags_to_add dn t)) distinct
          (rw (append-nil (keys t.tags)) (tags_to_add-AreFresh dn t))),
  )

  -- What a rule never writes: the owner, account, asset, amount, kind and date of the row, the
  -- texts of the bank and the transfer pairing.
  abbrev pub SameLedger : Transaction D → Type 0
  SameLedger after =
      (after.id ≡ t.id)
      × (after.user_id ≡ t.user_id)
      × (after.account_id ≡ t.account_id)
      × (after.asset_id ≡ t.asset_id)
      × (after.amount ≡ t.amount)
      × (after.kind ≡ t.kind)
      × (after.transaction_date ≡ t.transaction_date)
      × (after.description ≡ t.description)
      × (after.is_transfer ≡ t.is_transfer)
      × (after.transfer_pair_id ≡ t.transfer_pair_id)
