-- ===== src/Transfers/Linking/Laws.antt =====
-- What a confirmed and what a dismissed pair looks like afterwards.
use offbook.Common.{
  ℕ, ◌≡◌, ◌≢◌, ◌∙◌, refl, sym, subst, inl, inr, true, false, none, some, List, [], ◌∷◌, arith,
  Option-cases, Decimal, equal, ok,
}
use offbook.Model.{Transaction}
use offbook.Transfers.{Store, is_kind_flow}
use offbook.Transfers.Linking.{get_by_id, update_row, link_to, link_transfer_pair, confirm}

module _ {D : Type 0} where
  pub get_by_id-id :
      (user id : ℕ) (rows : List (Transaction D)) (t : Transaction D)
      → get_by_id user id rows ≡ some t
      → (t.id ≡ id) × (t.user_id ≡ user)
  unfolding get_by_id
  get_by_id-id user id [] t h = cc
  get_by_id-id user id (x ∷ rest) t h = ground (arith, get_by_id-id user id rest t)

  module _ (user id : ℕ) (f : Transaction D → Transaction D)
      (keeps : (t : Transaction D) → ((f t).id ≡ t.id) × ((f t).user_id ≡ t.user_id)) where
    pub get_by_id-update_self :
        (rows : List (Transaction D)) (t : Transaction D)
        → get_by_id user id rows ≡ some t
        → get_by_id user id (update_row user id f rows) ≡ some (f t)
    unfolding get_by_id update_row
    get_by_id-update_self [] t h = cc
    get_by_id-update_self (x ∷ rest) t h =
        ground (arith, (keeps x).0, (keeps x).1, get_by_id-update_self rest t)

    pub get_by_id-update_ne :
        (k : ℕ) (rows : List (Transaction D))
        → k ≢ id
        → get_by_id user k (update_row user id f rows) ≡ get_by_id user k rows
    unfolding get_by_id update_row
    get_by_id-update_ne k [] h = refl
    get_by_id-update_ne k (x ∷ rest) h =
        ground (arith, (keeps x).0, (keeps x).1, get_by_id-update_ne k rest h)

module _ {D : Type 0} ⦃d : Decimal D⦄ (user id_a id_b : ℕ) (st : Store D) where
  -- What `Confirm` has checked when it returns no error, and what it returns.
  pub record Checked (a b : Transaction D) : Type 0 where
    pub get_a : get_by_id user id_a st.transactions ≡ some a
    pub get_b : get_by_id user id_b st.transactions ≡ some b
    pub ids_differ : id_a ≢ id_b
    pub accounts_differ : a.account_id ≢ b.account_id
    pub flow_a : is_kind_flow a.kind ≡ true
    pub flow_b : is_kind_flow b.kind ≡ true
    pub free_a : (a.is_transfer ≡ false) × (a.transfer_pair_id ≡ none)
    pub free_b : (b.is_transfer ≡ false) × (b.transfer_pair_id ≡ none)
    pub opposite : equal a.amount (d.neg b.amount) ≡ true

  -- The outcome, from the two rows.
  abbrev pub outcome :
      ℕ → ℕ → Transaction D → Transaction D → (Transaction D × Transaction D) × Store D
  outcome ka kb a b = (
    (link_to kb a, link_to ka b),
    record st {
      transactions =
          update_row user kb (link_to ka) (update_row user ka (link_to kb) st.transactions);
    },
  )

  confirm-Checked :
      {out : (Transaction D × Transaction D) × Store D}
      → confirm user id_a id_b st ≡ ok out
      → (a : Transaction D) × (b : Transaction D) × Checked a b × (out ≡ outcome a.id b.id a b)
  unfolding confirm link_transfer_pair
  confirm-Checked h = elim (Option-cases (get_by_id user id_a st.transactions)) [
    | inl e ↦ absurd (ground arith)
    | inr (a, ea) ↦ elim (Option-cases (get_by_id user id_b st.transactions)) [
      | inl e ↦ absurd (ground arith)
      | inr (b, eb) ↦ (a, b, ground arith, ground arith)
    ]
  ]

  -- A confirmed pair is checked, and its rows are found by the numbers that were given.
  pub confirm-outcome :
      {out : (Transaction D × Transaction D) × Store D}
      → confirm user id_a id_b st ≡ ok out
      → (a : Transaction D) × (b : Transaction D) × Checked a b × (out ≡ outcome id_a id_b a b)
  confirm-outcome h =
      let (a, b, c, e) = confirm-Checked h in
      let ea = (get_by_id-id user id_a st.transactions a c.get_a).0 in
      let eb = (get_by_id-id user id_b st.transactions b c.get_b).0 in
      (a, b, c, e ∙ λ i. outcome (ea i) (eb i) a b)

  -- The store after a pair is linked.
  pub record Linked (x y : Transaction D) (after : Store D) : Type 0 where
    pub stored_x : get_by_id user id_a after.transactions ≡ some x
    pub stored_y : get_by_id user id_b after.transactions ≡ some y
    pub partner_x : (x.is_transfer ≡ true) × (x.transfer_pair_id ≡ some id_b)
    pub partner_y : (y.is_transfer ≡ true) × (y.transfer_pair_id ≡ some id_a)
    pub accounts_differ : x.account_id ≢ y.account_id
    pub opposite : equal x.amount (d.neg y.amount) ≡ true
    pub others :
        (k : ℕ)
        → k ≢ id_a
        → k ≢ id_b
        → get_by_id user k after.transactions ≡ get_by_id user k st.transactions
    pub same_dismissals : after.dismissals ≡ st.dismissals

  pub outcome-Linked :
      (a b : Transaction D)
      → Checked a b
      → let out = outcome id_a id_b a b in Linked out.0.0 out.0.1 out.1
  outcome-Linked a b c =
      let rows = st.transactions in
      let rows_a = update_row user id_a (link_to id_b) rows in
      record {
        stored_x =
            get_by_id-update_ne user id_b (link_to id_a) (λ t. (refl, refl)) id_a rows_a
              c.ids_differ
            ∙ get_by_id-update_self user id_a (link_to id_b) (λ t. (refl, refl)) rows a c.get_a;
        stored_y =
            get_by_id-update_self user id_b (link_to id_a) (λ t. (refl, refl)) rows_a b
              (get_by_id-update_ne user id_a (link_to id_b) (λ t. (refl, refl)) id_b rows
                  (λ e. c.ids_differ (sym e))
                ∙ c.get_b);
        partner_x = (refl, refl);
        partner_y = (refl, refl);
        accounts_differ = c.accounts_differ;
        opposite = c.opposite;
        others = λ k na nb.
            get_by_id-update_ne user id_b (link_to id_a) (λ t. (refl, refl)) k rows_a nb
            ∙ get_by_id-update_ne user id_a (link_to id_b) (λ t. (refl, refl)) k rows na;
        same_dismissals = refl;
      }

  -- After `Confirm` returns two rows they are stored under their numbers, each linked to the other,
  -- in different accounts and with opposite amounts; every other row of the user and the dismissals
  -- are as before.
  pub confirm-Linked :
      (out : (Transaction D × Transaction D) × Store D)
      → confirm user id_a id_b st ≡ ok out
      → Linked out.0.0 out.0.1 out.1
  confirm-Linked out h =
      let (a, b, c, e) = confirm-outcome h in
      subst (λ (o : (Transaction D × Transaction D) × Store D). Linked o.0.0 o.0.1 o.1) (sym e)
        (outcome-Linked a b c)
