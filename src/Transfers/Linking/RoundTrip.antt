-- ===== src/Transfers/Linking/RoundTrip.antt =====
-- Unlinking undoes a confirmation, and a dismissal ends a proposal.
use offbook.Common.{
  ℕ, ◌≡◌, ◌≢◌, ◌∙◌, refl, sym, subst, inl, inr, true, false, ◌&&◌, none, some, List, [], ◌∷◌, arith,
  ◌==◌, if◌then◌else◌, All, Decimal, Bool-cases, ok,
}
use mathlib.Core.Option.{some-injective}
use offbook.Model.{Transaction}
use offbook.Transfers.{Store}
use offbook.Transfers.Linking.{get_by_id, update_row, link_to, clear_link, unlink, confirm}
use offbook.Transfers.Linking.Laws.{outcome, outcome-Linked, confirm-outcome, Linked, get_by_id-id}

module _ {D : Type 0} where
  -- The primary key: no two rows have one number.
  abbrev pub UniqueIds : List (Transaction D) → Type 0
  UniqueIds [] = Unit {0}
  UniqueIds (t ∷ rest) = All (λ u. u.id ≢ t.id) rest × UniqueIds rest

  abbrev IsFree : ℕ → Transaction D → Type 0
  IsFree k t = (t.id ≡ k) → (t.is_transfer ≡ false) × (t.transfer_pair_id ≡ none)

  other_ids-IsFree :
      (k : ℕ) (rows : List (Transaction D)) → All (λ u. u.id ≢ k) rows → All (IsFree k) rows
  other_ids-IsFree k [] h = tt
  other_ids-IsFree k (u ∷ rows) (p, h) = (λ e. absurd (p e), other_ids-IsFree k rows h)

  get_by_id-All {κ} :
      (P : Transaction D → Type κ) (user k : ℕ) (rows : List (Transaction D)) (t : Transaction D)
      → All P rows
      → get_by_id user k rows ≡ some t
      → P t
  unfolding get_by_id
  get_by_id-All P user k [] t h e = absurd (ground arith)
  get_by_id-All P user k (x ∷ rest) t (p, h) e =
      elim (Bool-cases ((x.id == k) && (x.user_id == user))) [
        | inl hit ↦ subst P (some-injective _ _ (rw hit at e)) p
        | inr miss ↦ get_by_id-All P user k rest t h (rw miss at e)
      ]

  -- Where the row that is found is free, no row of that number is linked.
  found-IsFree :
      (user k : ℕ) (rows : List (Transaction D)) (t : Transaction D)
      → UniqueIds rows
      → get_by_id user k rows ≡ some t
      → (t.is_transfer ≡ false) × (t.transfer_pair_id ≡ none)
      → All (IsFree k) rows
  unfolding get_by_id
  found-IsFree user k [] t u e f = tt
  found-IsFree user k (x ∷ rest) t (first, u) e f =
      elim (Bool-cases ((x.id == k) && (x.user_id == user))) [
        | inl hit ↦
            let same = some-injective _ _ (rw hit at e) in
            let number : x.id ≡ k = ground arith in
            (
              λ _. subst (λ y. (y.is_transfer ≡ false) × (y.transfer_pair_id ≡ none)) (sym same) f,
              other_ids-IsFree k rest (subst (λ n. All (λ v. v.id ≢ n) rest) number first),
            )
        | inr miss ↦
            let e' = rw miss at e in
            let number = (get_by_id-id user k rest t e').0 in
            (
              λ p.
                  absurd (get_by_id-All (λ v. v.id ≢ x.id) user k rest t first e' (number ∙ sym p)),
              found-IsFree user k rest t u e' f,
            )
      ]

  on_row : ℕ → ℕ → (Transaction D → Transaction D) → Transaction D → Transaction D
  on_row user k f t = if (t.id == k) && (t.user_id == user) then f t else t

  on_row_hit :
      (user k : ℕ) (f : Transaction D → Transaction D) (t : Transaction D)
      → ((t.id == k) && (t.user_id == user)) ≡ true
      → on_row user k f t ≡ f t
  unfolding on_row
  on_row_hit user k f t h = rw h

  on_row_miss :
      (user k : ℕ) (f : Transaction D → Transaction D) (t : Transaction D)
      → ((t.id == k) && (t.user_id == user)) ≡ false
      → on_row user k f t ≡ t
  unfolding on_row
  on_row_miss user k f t h = rw h

  clear_link_free :
      (t : Transaction D) → (t.is_transfer ≡ false) × (t.transfer_pair_id ≡ none) → clear_link t ≡ t
  clear_link_free t (p, q) = λ i. record t { is_transfer = sym p i; transfer_pair_id = sym q i }

  restored_row :
      (user ka kb : ℕ) (t : Transaction D)
      → IsFree ka t
      → IsFree kb t
      → on_row user kb clear_link
          (on_row user ka clear_link (on_row user kb (link_to ka) (on_row user ka (link_to kb) t)))
        ≡ t
  restored_row user ka kb t fa fb = elim (Bool-cases ((t.id == ka) && (t.user_id == user))) [
    | inl a ↦ elim (Bool-cases ((t.id == kb) && (t.user_id == user))) [
      | inl b ↦
          rw
            (
              on_row_hit user ka (link_to kb) t a,
              on_row_hit user kb (link_to ka) (link_to kb t) b,
              on_row_hit user ka clear_link (link_to ka (link_to kb t)) a,
              on_row_hit user kb clear_link (clear_link (link_to ka (link_to kb t))) b,
            )
            (clear_link_free t (fa (ground arith)))
      | inr b ↦
          rw
            (
              on_row_hit user ka (link_to kb) t a,
              on_row_miss user kb (link_to ka) (link_to kb t) b,
              on_row_hit user ka clear_link (link_to kb t) a,
              on_row_miss user kb clear_link (clear_link (link_to kb t)) b,
            )
            (clear_link_free t (fa (ground arith)))
    ]
    | inr a ↦ elim (Bool-cases ((t.id == kb) && (t.user_id == user))) [
      | inl b ↦
          rw
            (
              on_row_miss user ka (link_to kb) t a,
              on_row_hit user kb (link_to ka) t b,
              on_row_miss user ka clear_link (link_to ka t) a,
              on_row_hit user kb clear_link (link_to ka t) b,
            )
            (clear_link_free t (fb (ground arith)))
      | inr b ↦
          rw
            (
              on_row_miss user ka (link_to kb) t a,
              on_row_miss user kb (link_to ka) t b,
              on_row_miss user ka clear_link t a,
              on_row_miss user kb clear_link t b,
            )
            refl
    ]
  ]

  restored_rows :
      (user ka kb : ℕ) (rows : List (Transaction D))
      → All (IsFree ka) rows
      → All (IsFree kb) rows
      → update_row user kb clear_link (
          update_row user ka clear_link
            (update_row user kb (link_to ka) (update_row user ka (link_to kb) rows)))
        ≡ rows
  unfolding update_row on_row
  restored_rows user ka kb [] fa fb = refl
  restored_rows user ka kb (t ∷ rows) (pa, fa) (pb, fb) =
      λ i. restored_row user ka kb t pa pb i ∷ restored_rows user ka kb rows fa fb i

module _ {D : Type 0} ⦃d : Decimal D⦄ (user id_a id_b : ℕ) (st : Store D) where
  unlink-Linked :
      (x y : Transaction D) (after : Store D)
      → Linked user id_a id_b st x y after
      → unlink user id_a after
        ≡ ok (record after {
          transactions =
              update_row user id_b clear_link (update_row user id_a clear_link after.transactions);
        })
  unfolding unlink
  unlink-Linked x y after l =
      let number = (get_by_id-id user id_a after.transactions x l.stored_x).0 in
      rw (l.stored_x, l.partner_x.0, l.partner_x.1, number)

  -- Unlinking right after a confirmation gives the store as it was, where row numbers are unique.
  pub unlink-confirm :
      (out : (Transaction D × Transaction D) × Store D)
      → UniqueIds st.transactions
      → confirm user id_a id_b st ≡ ok out
      → unlink user id_a out.1 ≡ ok st
  unlink-confirm out u h =
      let (a, b, c, e) = confirm-outcome user id_a id_b st h in
      let l = outcome-Linked user id_a id_b st a b c in
      let fa = found-IsFree user id_a st.transactions a u c.get_a c.free_a in
      let fb = found-IsFree user id_b st.transactions b u c.get_b c.free_b in
      rw e (
        unlink-Linked _ _ (outcome user id_a id_b st id_a id_b a b).1 l ∙ λ i.
        ok (record st { transactions = restored_rows user id_a id_b st.transactions fa fb i }))
