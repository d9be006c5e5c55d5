-- ===== src/Households/Purge/Settled.antt =====
-- A purge leaves nothing to purge.
use mathlib.Core.Bool.{false≢true}
use offbook.Common.{
  or-true, ℕ, ◌≡◌, ◌∙◌, refl, ap, subst, inl, inr, Bool, true, false, ◌&&◌, some, List, [], ◌∷◌,
  map, arith, leb, ◌==◌, ==_refl, any, select, select-In, All, All-of_In, In, Bool-cases,
}
use offbook.Common.Sort.{sort, sort-In}
use offbook.Households.{Household, HouseholdMember, Store, unpurged, update_where}
use offbook.Households.Purge.{
  PurgeResult, ExpiredRow, is_expired, expired_row, expired, purge_member, purge_all, run_purge,
}

update-nothing :
    (p : HouseholdMember → Bool) (f : HouseholdMember → HouseholdMember)
    (rows : List HouseholdMember)
    → any p rows ≡ false
    → update_where p f rows ≡ rows
update-nothing p f [] h = refl
update-nothing p f (x ∷ rows) h = rw (head, update-nothing p f rows (ground (arith, h))) refl
  where
    head : p x ≡ false
    head = ground (arith, h)

abbrev is_listed : List ExpiredRow → HouseholdMember → Bool
is_listed rows m = any (λ e. e.member_id == m.id) rows

module _ (now : ℕ) (households : List Household) where
  -- Every expired member is on the list.
  abbrev Due : List ExpiredRow → List HouseholdMember → Type 0
  Due rows members = All (λ m. is_expired now households m ≡ true → is_listed rows m ≡ true) members

  seal-Due :
      (e : ExpiredRow) (rows : List ExpiredRow) (members : List HouseholdMember)
      → Due (e ∷ rows) members
      → Due rows (
          update_where
            (λ m. (m.id == e.member_id) && unpurged m)
            (λ m. record m { purged_at = some now })
            members)
  unfolding is_expired
  seal-Due e rows [] h = tt
  seal-Due e rows (m ∷ members) (h, hs) = elim (Bool-cases ((m.id == e.member_id) && unpurged m)) [
    | inl a ↦ rw a ((λ x. absurd (false≢true x)), seal-Due e rows members hs)
    | inr a ↦ rw a ((λ x. ground (arith, h x, a, x)), seal-Due e rows members hs)
  ]

  Due-none :
      (members : List HouseholdMember)
      → Due [] members
      → select (is_expired now households) members ≡ []
  Due-none [] h = refl
  Due-none (m ∷ members) (h, hs) = elim (Bool-cases (is_expired now households m)) [
    | inl e ↦ absurd (false≢true (h e))
    | inr e ↦ rw e (Due-none members hs)
  ]

  purge_member-Due :
      (e : ExpiredRow) (rows : List ExpiredRow) (res : PurgeResult) (s : Store)
      → Due (e ∷ rows) s.members
      → Due rows (purge_member now e (res, s)).1.members
  unfolding purge_member
  purge_member-Due e rows res s h =
      elim (Bool-cases (any (λ m. (m.id == e.member_id) && unpurged m) s.members)) [
        | inl a ↦ rw a (seal-Due e rows s.members h)
        | inr a ↦ rw a (
            subst (Due rows)
              (update-nothing _ (λ (m : HouseholdMember). record m { purged_at = some now })
                s.members a)
              (seal-Due e rows s.members h))
      ]

  purge_all-Due :
      (rows : List ExpiredRow) (r : PurgeResult × Store)
      → Due rows r.1.members
      → Due [] (purge_all now rows r).1.members
  unfolding purge_all
  purge_all-Due [] r h = h
  purge_all-Due (e ∷ rows) (res, s) h =
      purge_all-Due rows (purge_member now e (res, s)) (purge_member-Due e rows res s h)

purge_member-households :
    (now : ℕ) (e : ExpiredRow) (res : PurgeResult) (s : Store)
    → (purge_member now e (res, s)).1.households ≡ s.households
unfolding purge_member
purge_member-households now e res s =
    elim (Bool-cases (any (λ m. (m.id == e.member_id) && unpurged m) s.members)) [
      | inl a ↦ rw a refl
      | inr a ↦ rw a refl
    ]

purge_all-households :
    (now : ℕ) (rows : List ExpiredRow) (r : PurgeResult × Store)
    → (purge_all now rows r).1.households ≡ r.1.households
unfolding purge_all
purge_all-households now [] r = refl
purge_all-households now (e ∷ rows) (res, s) =
    purge_all-households now rows (purge_member now e (res, s))
    ∙ purge_member-households now e res s

listed_if_In :
    (rows : List HouseholdMember) (m : HouseholdMember)
    → In m rows
    → is_listed (map expired_row rows) m ≡ true
listed_if_In [] m i = absurd i
listed_if_In (x ∷ rows) m (inl e) = rw (← e, ==_refl m.id) refl
listed_if_In (x ∷ rows) m (inr i) = rw (listed_if_In rows m i) (or-true (x.id == m.id))

expired-Due : (now : ℕ) (s : Store) → Due now s.households (expired now s) s.members
unfolding expired
expired-Due now s = All-of_In _ s.members (λ m i t.
    listed_if_In _ m (sort-In _ m _ (select-In (is_expired now s.households) m s.members i t)))

none_expired : (now : ℕ) (s : Store) → expired now (run_purge now s).1 ≡ []
unfolding run_purge expired sort
none_expired now s =
    (λ i. map expired_row (
      sort by_id (
        select (is_expired now (purge_all-households now (expired now s) (zero, s) i))
          after.members)))
    ∙ ap (λ rows. map expired_row (sort by_id rows))
        (Due-none now s.households after.members
          (purge_all-Due now s.households (expired now s) (zero, s) (expired-Due now s)))
  where
    by_id : HouseholdMember → HouseholdMember → Bool
    by_id x y = leb x.id y.id

    zero : PurgeResult
    zero = record { members_purged = 0; shares_deleted = 0 }

    after : Store
    after = (purge_all now (expired now s) (zero, s)).1

-- Running the purge again at the same time purges no member, deletes no share and leaves the tables
-- as the first run made them.
pub run_purge_idem :
    (now : ℕ) (s : Store)
    → run_purge now (run_purge now s).1
      ≡ (record { members_purged = 0; shares_deleted = 0 }, (run_purge now s).1)
unfolding run_purge purge_all
run_purge_idem now s =
    ap
      (λ rows.
        purge_all now rows (record { members_purged = 0; shares_deleted = 0 }, (run_purge now s).1))
      (none_expired now s)
