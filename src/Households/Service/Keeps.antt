-- ===== src/Households/Service/Keeps.antt =====
-- The operations on memberships keep the tables sound.
use offbook.Common.{
  ℕ, ◌<◌, ◌≡◌, refl, inl, inr, true, false, not, ◌&&◌, Option, none, some, String, leb, ◌==◌,
  is_some, any, Bool-cases, Result, ok, err,
}
use offbook.Model.{Strings}
use offbook.Households.{
  Role, HouseholdMember, Store, HouseholdError, Op, fail, return, fail_if, is_owner, read, ◌>>=◌,
  ◌>>◌,
}
use offbook.Households.Tables.{get_active, count_active_owners, soft_delete_household, is_live}
use offbook.Households.Calls.{after_read, after_guard, after_step, after_reword}
use offbook.Households.Sound.{Inv, owners, All-update}
use offbook.Households.Writes.{
  get_active-row, mark_left-Inv, clear_left-Inv, update_role-Inv, guarded, or_error-ok,
}
use offbook.Households.Service.{
  require_owner, keep_an_owner, leave, remove_member, change_role, update_member_role, try_resume,
  dissolve,
}

-- Past the guard of the owner, the tables are as before and the caller is an active owner.
pub after_owner :
    {B : Type 0} (P : Store → Type 0) (s : Store) (user h : ℕ) (k : Op B)
    → P s
    → ((mem : HouseholdMember)
        → get_active h user s ≡ ok mem
        → is_owner mem.role ≡ true
        → P (k s).1)
    → P ((require_owner user h >> k) s).1
unfolding require_owner ◌>>=◌ ◌>>◌ read fail_if
after_owner P s user h k before rest = go (get_active h user s) refl
  where
    go :
        (r : Result HouseholdError HouseholdMember)
        → get_active h user s ≡ r
        → P ((require_owner user h >> k) s).1
    go (err e) q = rw (q, require_owner) before
    go (ok mem) q =
        rw (q, require_owner)
          (elim (Bool-cases (is_owner mem.role)) [
            | inl o ↦ rw o (rest mem q o)
            | inr o ↦ rw o before
          ])

-- Past the guard of the last owner, the member is no owner.
after_keep :
    {B : Type 0} (s : Store) (inv : Inv s) (mem : HouseholdMember) (h : ℕ) (k : Op B)
    → (is_owner mem.role ≡ false → Inv (k s).1)
    → Inv ((keep_an_owner mem h >> k) s).1
unfolding keep_an_owner ◌>>◌ fail_if
after_keep s inv mem h k rest =
    elim (Bool-cases (is_owner mem.role && leb (count_active_owners h s) 1)) [
      | inl g ↦ rw g inv
      | inr g ↦ rw g (rest (guarded s inv mem h g))
    ]

-- The households keep their numbers, and so their owners.
deleted : (now id : ℕ) (s : Store) → Inv s → Inv (soft_delete_household now id s).1
unfolding soft_delete_household
deleted now id s inv = elim (Bool-cases (any (λ h. (h.id == id) && is_live h) s.households)) [
  | inl t ↦ rw t (record {
    sound = record {
      one_household = inv.sound.one_household;
      one_owner = inv.sound.one_owner;
      owned =
          All-update (λ h. owners h.id s.members ≡ 1) _ _ s.households (λ h _ q. q) inv.sound.owned;
      owners_stay = inv.sound.owners_stay;
      distinct = inv.sound.distinct;
      member_known = inv.sound.member_known;
      household_known = inv.sound.household_known;
      households_known =
          All-update (λ h. h.id < s.next_household_id) _ _ s.households (λ h _ q. q)
            inv.sound.households_known;
      invites_known = inv.sound.invites_known;
    };
  })
  | inr t ↦ rw t inv
]

module _ (s : Store) (inv : Inv s) (now user h : ℕ) where
  pub leave-Inv : Inv (leave now user h s).1
  unfolding leave
  leave-Inv = after_read Inv s _ _ inv (λ mem q. after_keep s inv mem h _ (λ o.
      mark_left-Inv s inv mem now (get_active-row s inv h user mem (or_error-ok _ _ _ q)).0 o))

  pub remove_member-Inv : (target : ℕ) → Inv (remove_member now user h target s).1
  unfolding remove_member
  remove_member-Inv target = after_owner Inv s user h _ inv (λ _ _ _.
      after_guard Inv s _ _ _ inv (λ _. after_read Inv s _ _ inv (λ mem q.
        after_keep s inv mem h _ (λ o.
          mark_left-Inv s inv mem now (get_active-row s inv h target mem (or_error-ok _ _ _ q)).0
            o))))

  pub change_role-Inv : (role : Option Role) (target : ℕ) → Inv (change_role role user h target s).1
  unfolding change_role fail return
  change_role-Inv none target = inv
  change_role-Inv (some role) target = after_guard Inv s _ _ _ inv (λ r.
      after_guard Inv s _ _ _ inv (λ _. after_read Inv s _ _ inv (λ mem q.
        after_keep s inv mem h _ (λ o.
          after_step Inv s _ _
            (update_role-Inv s inv mem role _
              (get_active-row s inv h target mem (or_error-ok _ _ _ q)).0 o r)
            (λ s' _ i. i)))))

  pub try_resume-Inv : Inv (try_resume user h s).1
  unfolding try_resume return
  try_resume-Inv = after_read Inv s _ _ inv (λ mem q. after_guard Inv s _ _ _ inv (λ _.
      elim (Bool-cases (not (is_some mem.left_at))) [
        | inl a ↦ rw a inv
        | inr a ↦ rw a (after_step Inv s _ _ (clear_left-Inv s inv mem.id) (λ s' _ i. i))
      ]))

  pub update_member_role-Inv :
      ⦃strings : Strings⦄ (target : ℕ) (role : String)
      → Inv (update_member_role user h target role s).1
  unfolding update_member_role
  update_member_role-Inv target role =
      after_owner Inv s user h _ inv (λ _ _ _. change_role-Inv _ target)

  pub dissolve-Inv : Inv (dissolve now user h s).1
  unfolding dissolve soft_delete_household
  dissolve-Inv =
      after_owner Inv s user h _ inv (λ _ _ _. after_reword Inv s _ _ (deleted now h s inv))
