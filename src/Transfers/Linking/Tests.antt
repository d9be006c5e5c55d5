-- ===== src/Transfers/Linking/Tests.antt =====
-- Runs of the transfer matcher, and its theorems at concrete rows.
use offbook.Common.{ℕ, ◌≡◌, ◌≤◌, refl, inl, inr, List, [], ◌∷◌, map, arith, All, ok, weigh}
use offbook.Common.Sort.{sort, insert}
use offbook.Common.Integers.{ℤ, pos, negsuc, integers-IsDecimal, integer_decimal}
use offbook.Samples.{row}
use offbook.Model.{Transaction}
use offbook.Transfers.{
  Store, Candidate, propose_matches, list_transfer_candidates, outer, inner, assign, by_date,
  by_rank, by_newest, is_unmatched, is_pair, is_dismissed,
}
use offbook.Transfers.Window.{scan, outer_scans}
use offbook.Transfers.Greedy.{uses}
use offbook.Transfers.Proposals.{
  Outranked, IsTransfer, proposals_disjoint, proposals_greedy, proposals-IsTransfer,
}
use offbook.Transfers.Linking.{
  confirm, unlink, dismiss, link_to, get_by_id, update_row, link_transfer_pair,
}
use offbook.Transfers.Linking.Laws.{Linked, confirm-Linked}
use offbook.Transfers.Linking.RoundTrip.{unlink-confirm}
use offbook.Transfers.Linking.Dismissing.{IsOf, dismiss_ends_proposal}

-- 500 leaves account 10 on day 7 and arrives in 20 the next day; the same amount also arrives in 30
-- on day 9, and an unrelated 20 leaves on day 2.
abbrev store : Store ℤ
store = record {
  transactions =
      row 4 20 (pos 500) 8
      ∷ row 1 10 (negsuc 499) 7
      ∷ row 3 10 (negsuc 19) 2
      ∷ row 5 30 (pos 500) 9
      ∷ [];
  dismissals = [];
}

pairs : List (Candidate ℤ) → List (ℕ × ℕ)
pairs = map (λ c. (c.a.id, c.b.id))

propose-run : pairs (propose_matches 7 store) ≡ (1, 4) ∷ []
unfolding pairs propose_matches list_transfer_candidates sort insert outer inner assign by_date
    by_rank by_newest is_unmatched is_pair is_dismissed
propose-run = refl

outer_scans_example :
    outer 7 [] 3 0 (sort by_date store.transactions)
    ≡ scan 7 [] 3 0 (sort by_date store.transactions)
outer_scans_example = outer_scans 7 [] 3 store.transactions

proposals_disjoint_example : weigh (uses 1) (list_transfer_candidates 7 3 store) ≤ 1
proposals_disjoint_example = proposals_disjoint 7 3 store 1

-- The pair of rows 1 and 5, which loses to that of 1 and 4.
abbrev losing : Candidate ℤ
losing = record {
  i = 1;
  j = 3;
  date_diff = 2;
  a = row 1 10 (negsuc 499) 7;
  b = row 5 30 (pos 500) 9;
}

proposals_greedy_example : Outranked 7 3 store losing (list_transfer_candidates 7 3 store)
unfolding sort insert by_date is_unmatched is_pair is_dismissed
proposals_greedy_example = proposals_greedy 7 3 store losing (inr (inl refl))

proposals-IsTransfer_example : All (IsTransfer 7 3 store) (list_transfer_candidates 7 3 store)
proposals-IsTransfer_example = proposals-IsTransfer 7 3 store integers-IsDecimal

abbrev a : Transaction ℤ
a = row 1 10 (negsuc 499) 7

abbrev b : Transaction ℤ
b = row 4 20 (pos 500) 8

abbrev linked : (Transaction ℤ × Transaction ℤ) × Store ℤ
linked = (
  (link_to 4 a, link_to 1 b),
  record {
    transactions = link_to 1 b ∷ link_to 4 a ∷ row 3 10 (negsuc 19) 2 ∷ row 5 30 (pos 500) 9 ∷ [];
    dismissals = [];
  },
)

confirm-Linked_example : Linked 7 1 4 store linked.0.0 linked.0.1 linked.1
unfolding confirm link_transfer_pair get_by_id update_row
confirm-Linked_example = confirm-Linked 7 1 4 store linked refl

unlink-confirm_example : unlink 7 1 linked.1 ≡ ok store
unfolding confirm link_transfer_pair get_by_id update_row
unlink-confirm_example = unlink-confirm 7 1 4 store linked (omega arith) refl

abbrev dismissed : Store ℤ
dismissed = record store { dismissals = record { user_id = 7; low_id = 1; high_id = 4 } ∷ [] }

dismiss_ends_proposal_example :
    ((window : ℕ) → All (λ c. ¬ IsOf 7 4 1 store c) (list_transfer_candidates 7 window dismissed))
    × (dismissed.transactions ≡ store.transactions)
unfolding dismiss is_dismissed
dismiss_ends_proposal_example = dismiss_ends_proposal 7 4 1 store integers-IsDecimal dismissed refl
