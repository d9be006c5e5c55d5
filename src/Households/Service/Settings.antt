-- ===== src/Households/Service/Settings.antt =====
-- Changes to the settings of a household and to shares keep the tables sound.
use offbook.Common.{
  ℕ, ◌<◌, ◌≡◌, refl, sym, subst, inl, inr, true, not, ◌&&◌, ◌||◌, Option, none, some, String, arith,
  ◌==◌, any, Bool-cases, Result, ok, err, str_eq,
}
use offbook.Common.Integers.{ℤ}
use offbook.Model.{Strings}
use offbook.Households.{
  Household, AccountShare, Account, account_not_owned, Store, HouseholdError, Op, fail_if, return,
  first, or_error, read, ◌>>=◌, ◌>>◌,
}
use offbook.Households.Tables.{
  get_account, save_household, soft_delete_share, upsert_share, is_share_of, is_live_share,
}
use offbook.Households.Calls.{after_read, after_call, after_step}
use offbook.Households.Sound.{Inv, owners, All-update}
use offbook.Households.Service.{require_account_owner, new_name, update, set_share, set_visibility}
use offbook.Households.Service.Keeps.{after_owner}
use offbook.Households.Service.Creating.{check_grace-same}

-- The row of a household is replaced by one of the same number.
save_household-Inv : (s : Store) (inv : Inv s) (h : Household) → Inv (save_household h s).1
unfolding save_household
save_household-Inv s inv h = record {
  sound = record {
    one_household = inv.sound.one_household;
    one_owner = inv.sound.one_owner;
    owned =
        All-update (λ x. owners x.id s.members ≡ 1) (λ x. x.id == h.id) (λ _. h) s.households
          (λ x e q. subst (λ n. owners n s.members ≡ 1) (same x e) q) inv.sound.owned;
    owners_stay = inv.sound.owners_stay;
    distinct = inv.sound.distinct;
    member_known = inv.sound.member_known;
    household_known = inv.sound.household_known;
    households_known =
        All-update (λ x. x.id < s.next_household_id) (λ x. x.id == h.id) (λ _. h) s.households
          (λ x e q. subst (λ n. n < s.next_household_id) (same x e) q) inv.sound.households_known;
    invites_known = inv.sound.invites_known;
  };
}
  where
    same : (x : Household) → (x.id == h.id) ≡ true → x.id ≡ h.id
    same x e = ground arith

new_name-same :
    ⦃strings : Strings⦄ (old : String) (given : Option String) (s : Store)
    → (new_name old given s).1 ≡ s
unfolding return fail_if ◌>>◌
new_name-same old none s = refl
new_name-same ⦃strings⦄ old (some n) s = elim (Bool-cases (str_eq (strings.trim_space n) "")) [
  | inl e ↦ rw e refl
  | inr e ↦ rw e refl
]

pub update-Inv :
    ⦃strings : Strings⦄ (s : Store) (inv : Inv s) (user h : ℕ) (name : Option String)
    (grace : Option ℤ)
    → Inv (update user h name grace s).1
unfolding update save_household return
update-Inv s inv user h name grace = after_owner Inv s user h _ inv (λ _ _ _.
    after_read Inv s _ _ inv (λ x _.
      after_call Inv s _ _ (subst Inv (sym (new_name-same x.name name s)) inv) (λ n s1 _ inv1.
        after_call Inv s1 _ _ (subst Inv (sym (check_grace-same x.grace_period_days grace s1)) inv1)
          (λ g s2 _ inv2. after_step Inv s2 _ _ (save_household-Inv s2 inv2 _) (λ _ _ i. i)))))

set_visibility-Inv :
    (s : Store) (inv : Inv s) (now account h : ℕ) (v : String)
    → Inv (set_visibility now account h v s).1
unfolding set_visibility soft_delete_share upsert_share return ◌>>=◌
set_visibility-Inv s inv now account h v = elim (Bool-cases (str_eq v "private")) [
  | inl a ↦
      rw a (elim (Bool-cases (any (λ x. is_share_of account h x && is_live_share x) s.shares)) [
        | inl b ↦ rw b (record { sound = inv.sound })
        | inr b ↦ rw b inv
      ])
  | inr a ↦ rw a (elim (Bool-cases (str_eq v "balance_only" || str_eq v "balance_and_txns")) [
    | inl b ↦ rw b (stored (first (is_share_of account h) s.shares) refl)
    | inr b ↦ rw b inv
  ])
]
  where
    stored :
        (r : Result HouseholdError AccountShare)
        → first (is_share_of account h) s.shares ≡ r
        → Inv ((upsert_share account h v >>= λ share. return (some share)) s).1
    stored (ok old) e = rw (e, upsert_share) (record { sound = inv.sound })
    stored (err x) e = rw (e, upsert_share) (record { sound = inv.sound })

-- Past the check of the account's owner the tables are as before.
after_account :
    {B : Type 0} (P : Store → Type 0) (s : Store) (user account : ℕ) (k : Op B)
    → P s
    → P (k s).1
    → P ((require_account_owner user account >> k) s).1
unfolding require_account_owner ◌>>=◌ ◌>>◌ read fail_if
after_account P s user account k before rest =
    go (or_error account_not_owned (get_account user account s)) refl
  where
    go :
        (r : Result HouseholdError Account)
        → or_error account_not_owned (get_account user account s) ≡ r
        → P ((require_account_owner user account >> k) s).1
    go (err e) q = rw (q, require_account_owner) before
    go (ok a) q =
        rw (q, require_account_owner)
          (elim (Bool-cases (not (a.user_id == user))) [ inl o ↦ rw o before | inr o ↦ rw o rest ])

pub set_share-Inv :
    (s : Store) (inv : Inv s) (now user account h : ℕ) (v : String)
    → Inv (set_share now user account h v s).1
unfolding set_share
set_share-Inv s inv now user account h v =
    after_account Inv s user account _ inv
      (after_read Inv s _ _ inv (λ _ _. set_visibility-Inv s inv now account h v))
