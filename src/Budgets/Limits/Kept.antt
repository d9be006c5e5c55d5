-- ===== src/Budgets/Limits/Kept.antt =====
-- An edit of the limit keeps the limits of the past.
use offbook.Common.{
  ℕ, ◌≤◌, ◌<◌, ◌≡◌, ◌≢◌, refl, sym, ◌∙◌, ap, subst, inl, inr, ◌⊎◌, Bool, false, ◌&&◌, some, List,
  [], ◌∷◌, arith, ltb, ◌==◌, any, Bool-cases, if-P, All, All-In, In, In-append, In-append_left,
  In-append_right, In-select, select-In, not_any-In, any_there,
}
use offbook.Common.Sort.{In-sort, sort-In, sort-IsSorted, IsSorted}
use offbook.Plans.{BudgetAmount}
use offbook.Budgets.Limits.{
  BudgetLimitChange, oldest_first, amount_history, limit_at, pin_previous, record_change,
}
use offbook.Budgets.Limits.Places.{IsLimit, newest, past, oldest, limit_at-IsLimit}
use offbook.Budgets.Limits.Edits.{row, upsert-In, In-upsert, upsert_new}

-- A history through the current period: one entry for each day, and the latest has the amount.
pub record IsHistory {D : Type 0} (h : List (BudgetAmount D)) (from : ℕ) (amount : D) : Type 0 where
  pub through : (x : BudgetAmount D) → In x h → x.effective_from ≤ from
  pub one : (x y : BudgetAmount D) → In x h → In y h → x.effective_from ≡ y.effective_from → x ≡ y
  pub latest :
      (x : BudgetAmount D)
      → In x h
      → ((y : BudgetAmount D) → In y h → y.effective_from ≤ x.effective_from)
      → x.amount ≡ amount

module _ {D : Type 0} (b : ℕ) where
  history-In :
      (rows : List (BudgetAmount D)) (e : BudgetAmount D)
      → In e (amount_history rows b)
      → In e rows × (e.budget_id ≡ b)
  unfolding amount_history
  history-In rows e m =
      let (n, t) = In-select (λ h. h.budget_id == b) e rows (In-sort oldest_first e _ m) in
      (n, ground (arith, t))

  In-history :
      (rows : List (BudgetAmount D)) (e : BudgetAmount D)
      → In e rows
      → e.budget_id ≡ b
      → In e (amount_history rows b)
  unfolding amount_history
  In-history rows e m o =
      sort-In oldest_first e _ (select-In (λ h. h.budget_id == b) e rows m (ground (arith, o)))

  history-IsSorted : (rows : List (BudgetAmount D)) → IsSorted oldest_first (amount_history rows b)
  unfolding amount_history
  history-IsSorted rows =
      sort-IsSorted oldest_first (λ x y h. ground arith) (λ x y z h k. ground arith) _

  module _ (rows : List (BudgetAmount D)) (c : BudgetLimitChange D) (amount : D)
      (earlier : c.prev_from < c.from) (ok : IsHistory (amount_history rows b) c.from c.prev) where
    abbrev old : List (BudgetAmount D)
    old = amount_history rows b

    abbrev new : List (BudgetAmount D)
    new = amount_history (record_change b amount (some c) rows) b

    -- The entry that pins the previous limit, where every old one is of the current period.
    abbrev IsPin : BudgetAmount D → Type 0
    IsPin e =
        (e ≡ row b c.prev c.prev_from)
        × ((x : BudgetAmount D) → In x old → c.from ≤ x.effective_from)

    pinned-In :
        (e : BudgetAmount D)
        → e.budget_id ≡ b
        → In e (pin_previous b c.prev c.prev_from c.from rows)
        → In e old ⊎ IsPin e
    unfolding pin_previous
    pinned-In e o m = elim (Bool-cases (any before rows)) [
      | inl t ↦ inl (In-history rows e (subst (In e) (rw t refl) m) o)
      | inr t ↦
          elim (In-append e rows (row b c.prev c.prev_from ∷ []) (subst (In e) (rw t refl) m)) [
            | inl n ↦ inl (In-history rows e n o)
            | inr n ↦ elim n [ inl q ↦ inr (q, λ x k. none_before t x k) | inr z ↦ absurd z ]
          ]
    ]
      where
        before : BudgetAmount D → Bool
        before h = (h.budget_id == b) && ltb h.effective_from c.from

        none_before :
            any before rows ≡ false → (x : BudgetAmount D) → In x old → c.from ≤ x.effective_from
        none_before t x k =
            let (n, q) = history-In rows x k in
            let f = not_any-In before x rows t n in ground (arith, f, q)

    new-In :
        (e : BudgetAmount D)
        → In e new
        → ((e.effective_from ≡ c.from) × (e.amount ≡ amount))
          ⊎ ((e.effective_from < c.from) × (In e old ⊎ IsPin e))
    unfolding record_change
    new-In e m =
        let (n, o) = history-In _ e m in
        elim (upsert-In b amount c.from (pin_previous b c.prev c.prev_from c.from rows) e o n) [
          | inl q ↦ inl q
          | inr (d, k) ↦ inr (strict d (pinned-In e o k), pinned-In e o k)
        ]
      where
        strict : e.effective_from ≢ c.from → In e old ⊎ IsPin e → e.effective_from < c.from
        strict d (inl k) = let t = ok.through e k in ground (arith, d, t)
        strict d (inr (q, _)) = rw q earlier

    In-pinned :
        (e : BudgetAmount D) → In e rows → In e (pin_previous b c.prev c.prev_from c.from rows)
    unfolding pin_previous
    In-pinned e m =
        if-P (In e) (any (λ h. (h.budget_id == b) && ltb h.effective_from c.from) rows) _ _ m
          (In-append_left e rows _ m)

    In-new_of_pinned :
        (e : BudgetAmount D)
        → e.budget_id ≡ b
        → e.effective_from < c.from
        → In e (pin_previous b c.prev c.prev_from c.from rows)
        → In e new
    unfolding record_change
    In-new_of_pinned e o l m = In-history _ e (In-upsert b amount c.from _ e (λ q. omega arith) m) o

    In-new : (e : BudgetAmount D) → In e old → e.effective_from < c.from → In e new
    In-new e m l = let (n, o) = history-In rows e m in In-new_of_pinned e o l (In-pinned e n)

    new_current :
        (e : BudgetAmount D) × In e new × (e.effective_from ≡ c.from) × (e.amount ≡ amount)
    unfolding record_change
    new_current =
        let (e, m, o, f, v) =
          upsert_new b amount c.from (pin_previous b c.prev c.prev_from c.from rows) in
        (e, In-history _ e m o, f, v)

    -- An entry before the current period: an old one, or the pin.
    pinned_before :
        ((e : BudgetAmount D) × In e old × (e.effective_from < c.from))
        ⊎ ((e : BudgetAmount D) × In e new × IsPin e)
    unfolding pin_previous
    pinned_before = elim (Bool-cases (any before rows)) [
      | inl t ↦
          let (x, m, q) = any_there before rows t in
          inl (x, In-history rows x m (ground (arith, q)), ground (arith, q))
      | inr t ↦
          let all = none_before t in
          inr (
            row b c.prev c.prev_from,
            In-new_of_pinned (row b c.prev c.prev_from) refl earlier (
                rw t (
                  In-append_right (row b c.prev c.prev_from) rows (row b c.prev c.prev_from ∷ [])
                    (inl refl))),
            (refl, all),
          )
    ]
      where
        before : BudgetAmount D → Bool
        before h = (h.budget_id == b) && ltb h.effective_from c.from

        none_before :
            any before rows ≡ false → (x : BudgetAmount D) → In x old → c.from ≤ x.effective_from
        none_before t x k =
            let (n, q) = history-In rows x k in
            let f = not_any-In before x rows t n in ground (arith, f, q)

    limit_after : (day : ℕ) → c.from ≤ day → (v : D) → IsLimit new amount day v → v ≡ amount
    limit_after day h v (newest _ q) = q
    limit_after day h v (past e m t top l ml after q) = absurd (omega (arith, within l ml))
      where
        within : (l : BudgetAmount D) → In l new → l.effective_from ≤ c.from
        within l ml = elim (new-In l ml) [ inl (q, _) ↦ omega arith | inr (q, _) ↦ omega arith ]
    limit_after day h v (oldest e m all first q) =
        let (x, mx, f, _) = new_current in absurd (omega (arith, f, All-In _ x new all mx))

    -- Where every old entry is of the current period, the limit of an earlier day is the old amount.
    from_pin :
        (day : ℕ)
        → day < c.from
        → (w : D) → ((x : BudgetAmount D) → In x old → c.from ≤ x.effective_from)
        → IsLimit old c.prev day w
        → c.prev ≡ w
    from_pin day h w pin (newest _ q) = sym q
    from_pin day h w pin (past x nx tx _ _ _ _ q) = let z = pin x nx in absurd (omega arith)
    from_pin day h w pin (oldest x nx _ _ q) =
        sym (ok.latest x nx (λ y ny. let z = pin x nx in let u = ok.through y ny in omega arith))
        ∙ sym q

    -- The oldest entry of the new history is the oldest of the old one.
    from_first :
        (day : ℕ)
        → day < c.from
        → (w : D) (e : BudgetAmount D) → In e old
        → e.effective_from < c.from
        → All (λ x. day < x.effective_from) new
        → All (λ x. e.effective_from ≤ x.effective_from) new
        → IsLimit old c.prev day w
        → e.amount ≡ w
    from_first day h w e n l all first (newest every q) =
        let z = All-In _ e old every n in
        let u = All-In _ e new all (In-new e n l) in absurd (omega arith)
    from_first day h w e n l all first (past x nx tx _ _ _ _ q) =
        let u = All-In _ x new all (In-new x nx (omega arith)) in absurd (omega arith)
    from_first day h w e n l all first (oldest x nx _ firstx q) =
        ap (λ r. r.amount) (ok.one e x n nx same) ∙ sym q
      where
        least : e.effective_from ≤ x.effective_from
        least = elim (Bool-cases (ltb x.effective_from c.from)) [
          | inl t ↦ All-In _ x new first (In-new x nx (ground (arith, t)))
          | inr t ↦ ground (arith, t, l)
        ]

        same : e.effective_from ≡ x.effective_from
        same = let z = All-In _ e old firstx n in omega (arith, least)

    -- The limits of a day before the current period, after the edit and before it.
    past_kept :
        (day : ℕ)
        → day < c.from
        → (v w : D) → IsLimit new amount day v
        → IsLimit old c.prev day w
        → v ≡ w
    past_kept day h v w (newest all _) k =
        let (x, mx, f, _) = new_current in absurd (omega (arith, f, All-In _ x new all mx))
    past_kept day h v w (past e m t top l ml after q) k = elim (new-In e m) [
      | inl (f, _) ↦ absurd (omega arith)
      | inr (f, inl n) ↦
          q ∙ from_old e n t (λ y ny le. All-In _ y new top (In-new y ny (omega arith)) le) k
      | inr (f, inr (s, pin)) ↦ q ∙ ap (λ r. r.amount) s ∙ from_pin day h w pin k
    ]
      where
        from_old :
            (e : BudgetAmount D)
            → In e old
            → e.effective_from ≤ day
            → ((y : BudgetAmount D)
                → In y old
                → y.effective_from ≤ day
                → y.effective_from ≤ e.effective_from)
            → IsLimit old c.prev day w
            → e.amount ≡ w
        from_old e n t top (newest all q) =
            ok.latest e n (λ y ny. top y ny (All-In _ y old all ny)) ∙ sym q
        from_old e n t top (past x nx tx topx _ _ _ q) =
            let a = top x nx tx in
            let z = All-In _ e old topx n t in
            ap (λ r. r.amount) (ok.one e x n nx (omega arith)) ∙ sym q
        from_old e n t top (oldest x nx all _ q) =
            let z = All-In _ e old all n in absurd (omega arith)
    past_kept day h v w (oldest e m all first q) k = elim pinned_before [
      | inr (p, pm, (ps, pin)) ↦ elim (new-In e m) [
        | inl (f, _) ↦
            let z = All-In _ p new first pm in
            absurd (omega (arith, ap (λ r. r.effective_from) ps, earlier))
        | inr (f, inl n) ↦ let z = pin e n in absurd (omega arith)
        | inr (f, inr (s, _)) ↦ q ∙ ap (λ r. r.amount) s ∙ from_pin day h w pin k
      ]
      | inl (z, zn, zl) ↦ elim (new-In e m) [
        | inl (f, _) ↦ let u = All-In _ z new first (In-new z zn zl) in absurd (omega arith)
        | inr (f, inl n) ↦ q ∙ from_first day h w e n f all first k
        | inr (f, inr (s, pin)) ↦ let u = pin z zn in absurd (omega arith)
      ]
    ]

    same_row :
        (x y : BudgetAmount D)
        → x.budget_id ≡ y.budget_id
        → x.effective_from ≡ y.effective_from
        → x.amount ≡ y.amount
        → x ≡ y
    same_row x y o f v = ground (arith, o, f, v)

    new_one :
        (x y : BudgetAmount D) → In x new → In y new → x.effective_from ≡ y.effective_from → x ≡ y
    new_one x y m n e = elim (new-In x m) [
      | inl (f, v) ↦ elim (new-In y n) [
        | inl (g, w) ↦ same_row x y ((history-In _ x m).1 ∙ sym (history-In _ y n).1) e (v ∙ sym w)
        | inr (g, _) ↦ absurd (omega arith)
      ]
      | inr (f, inl k) ↦ elim (new-In y n) [
        | inl (g, _) ↦ absurd (omega arith)
        | inr (g, inl l) ↦ ok.one x y k l e
        | inr (g, inr (s, pin)) ↦ let z = pin x k in absurd (omega arith)
      ]
      | inr (f, inr (s, pin)) ↦ elim (new-In y n) [
        | inl (g, _) ↦ absurd (omega arith)
        | inr (g, inl l) ↦ let z = pin y l in absurd (omega arith)
        | inr (g, inr (t, _)) ↦ s ∙ sym t
      ]
    ]

    new-IsHistory : IsHistory new c.from amount
    new-IsHistory = record {
      through = λ x m. elim (new-In x m) [ inl (f, _) ↦ omega arith | inr (f, _) ↦ omega arith ];
      one = new_one;
      latest = λ x m top. elim (new-In x m) [
        | inl (_, v) ↦ v
        | inr (f, _) ↦ let (y, n, g, _) = new_current in let z = top y n in absurd (omega arith)
      ];
    }

    -- An edit of the limit in the period that starts on `from`, over a history through it with one
    -- entry for each day and the old limit last: every day from the start of the period on has the
    -- new limit, every earlier day has the limit that it had, and the history is again one with one
    -- entry for each day, now with the new limit last.
    pub record_change_keeps_past :
        IsHistory new c.from amount
        × ((day : ℕ)
            → (c.from ≤ day → limit_at new amount day ≡ amount)
              × (day < c.from → limit_at new amount day ≡ limit_at old c.prev day))
    record_change_keeps_past = (
      new-IsHistory,
      λ day. (
        λ h. limit_after day h _ (limit_at-IsLimit new amount day (history-IsSorted _)),
        λ h.
            past_kept day h _ _ (limit_at-IsLimit new amount day (history-IsSorted _))
              (limit_at-IsLimit old c.prev day (history-IsSorted rows)),
      ),
    )
