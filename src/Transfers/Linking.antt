-- ===== src/Transfers/Linking.antt =====
-- Confirming, dismissing and unlinking a pair: `Confirm`, `Dismiss` and `Unlink` of
-- backend/internal/service/transfer_matching.go over the repository's LinkTransferPair,
-- DismissTransferPair and UnlinkTransferPair. Each runs in one database transaction, so the store
-- changes only where it returns no error.
pub mod Laws
pub mod RoundTrip
pub mod Dismissing
mod Tests
use offbook.Common.{
  ℕ, Bool, true, false, not, ◌&&◌, ◌||◌, Option, none, some, List, [], ◌∷◌, ◌++◌, map, ◌==◌, leb,
  if◌then◌else◌, is_some, select, length, Decimal, equal, Result, ok, err, fail_if, ◌>>=◌, ◌>>◌,
}
use offbook.Model.{Transaction}
use offbook.Transfers.{Store, Dismissal, is_kind_flow, is_dismissed, ordered_pair}

pub data TransferError : Type 0 where
  same_account not_flow already_linked amount_mismatch not_found : TransferError

module _ {D : Type 0} where
  -- The row of the user with this id, `GetByID`.
  pub get_by_id : ℕ → ℕ → List (Transaction D) → Option (Transaction D)
  get_by_id user id [] = none
  get_by_id user id (t ∷ rest) =
      if (t.id == id) && (t.user_id == user) then some t else get_by_id user id rest

  -- UPDATE … WHERE id = ? AND user_id = ?
  pub update_row :
      ℕ → ℕ → (Transaction D → Transaction D) → List (Transaction D) → List (Transaction D)
  update_row user id f [] = []
  update_row user id f (t ∷ rest) =
      (if (t.id == id) && (t.user_id == user) then f t else t) ∷ update_row user id f rest

  abbrev pub link_to : ℕ → Transaction D → Transaction D
  link_to partner t = record t { is_transfer = true; transfer_pair_id = some partner }

  abbrev pub clear_link : Transaction D → Transaction D
  clear_link t = record t { is_transfer = false; transfer_pair_id = none }

  abbrev pub found : Option (Transaction D) → Result TransferError (Transaction D)
  found none = err not_found
  found (some t) = ok t

  -- Both rows, each with the other as its partner.
  pub link_transfer_pair :
      ℕ → ℕ → ℕ → Store D → Result TransferError ((Transaction D × Transaction D) × Store D)
  link_transfer_pair user id_a id_b st = do
    fail_if (id_a == id_b) same_account
    a ← found (get_by_id user id_a st.transactions)
    b ← found (get_by_id user id_b st.transactions)
    let linked =
        update_row user b.id (link_to a.id) (update_row user a.id (link_to b.id) st.transactions)
    ok ((link_to b.id a, link_to a.id b), record st { transactions = linked })

  pub unlink : ℕ → ℕ → Store D → Result TransferError (Store D)
  unlink user id st = do
    t ← found (get_by_id user id st.transactions)
    fail_if (not t.is_transfer) not_found
    partner ← elim t.transfer_pair_id [ none ↦ err not_found | some p ↦ ok p ]
    let own = update_row user t.id clear_link st.transactions
    ok (record st { transactions = update_row user partner clear_link own })

  pub dismiss : ℕ → ℕ → ℕ → Store D → Result TransferError (Store D)
  dismiss user id_a id_b st = do
    fail_if (id_a == id_b) same_account
    let owned = λ (t : Transaction D). (t.user_id == user) && ((t.id == id_a) || (t.id == id_b))
    fail_if (not (length (select owned st.transactions) == 2)) not_found
    let (low, high) = ordered_pair id_a id_b
    let row : Dismissal = record { user_id = user; low_id = low; high_id = high }
    ok (
        if is_dismissed user st.dismissals id_a id_b
        then st
        else record st { dismissals = st.dismissals ++ (row ∷ []) })

module _ {D : Type 0} ⦃d : Decimal D⦄ where
  pub confirm :
      ℕ → ℕ → ℕ → Store D → Result TransferError ((Transaction D × Transaction D) × Store D)
  confirm user id_a id_b st = do
    fail_if (id_a == id_b) same_account
    a ← found (get_by_id user id_a st.transactions)
    b ← found (get_by_id user id_b st.transactions)
    fail_if (a.account_id == b.account_id) same_account
    fail_if (not (is_kind_flow a.kind) || not (is_kind_flow b.kind)) not_flow
    fail_if
        (a.is_transfer || b.is_transfer || is_some a.transfer_pair_id || is_some b.transfer_pair_id)
        already_linked
    fail_if (not (equal a.amount (d.neg b.amount))) amount_mismatch
    link_transfer_pair user id_a id_b st
