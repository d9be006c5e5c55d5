-- ===== src/Goals/Balanced.antt =====
-- The amounts of goals against their histories.
use offbook.Common.{
  ℕ, ◌<◌, ◌≡◌, ◌≢◌, refl, sym, ◌∙◌, ap, subst, inl, inr, true, false, Option, some, none, List, [],
  ◌∷◌, ◌++◌, map, arith, ◌==◌, if◌then◌else◌, any, select, Bool-cases, All, All-In, All-of_In,
  All-map, All-append, All-select, map-All, In, In-select, In-map, Pairwise, Pairwise-select,
  Pairwise-snoc, Pairwise-one, map-Pairwise, Decimal, Ensures, after_check, after_check_of,
}
use offbook.Plans.{PlanOwner, head-In}
use offbook.Valuation.{head}
use offbook.Goals.{
  SavingsGoal, SavingsGoalContribution, GoalBook, is_goal_of, goal_found, get_goal, goal_owner,
  with_metadata, create_goal, update_goal, delete_goal, add_amount, add_contribution,
}

module _ {D : Type 0} ⦃d : Decimal D⦄ where
  open d use {nought, add}

  -- The totals of the goals behind an entry, and behind a history from nothing.
  abbrev pub credit : (ℕ → D) → SavingsGoalContribution D → ℕ → D
  credit s c i = if i == c.goal_id then add (s i) c.amount else s i

  abbrev pub running : (ℕ → D) → List (SavingsGoalContribution D) → ℕ → D
  running s [] = s
  running s (c ∷ rest) = running (credit s c) rest

  abbrev pub totals : List (SavingsGoalContribution D) → ℕ → D
  totals rows = running (λ _. nought) rows

  -- Each entry records the total of its goal behind it.
  abbrev pub IsChain : (ℕ → D) → List (SavingsGoalContribution D) → Type 0
  IsChain s [] = Unit {0}
  IsChain s (c ∷ rest) = (c.balance_after ≡ credit s c c.goal_id) × IsChain (credit s c) rest

  -- Goals have the totals of their histories, and a number to come has none.
  pub record IsBalanced (book : GoalBook D) : Type 0 where
    pub distinct : Pairwise (λ x y. x.id ≢ y.id) book.goals
    pub numbered : All (λ g. g.id < book.next_goal_id) book.goals
    pub past : All (λ c. c.goal_id < book.next_goal_id) book.contributions
    pub balanced : All (λ g. g.current_amount ≡ totals book.contributions g.id) book.goals
    pub chained : IsChain (λ _. nought) book.contributions

  running-snoc :
      (s : ℕ → D) (rows : List (SavingsGoalContribution D)) (c : SavingsGoalContribution D)
      → running s (rows ++ (c ∷ [])) ≡ credit (running s rows) c
  running-snoc s [] c = refl
  running-snoc s (x ∷ rows) c = running-snoc (credit s x) rows c

  IsChain-snoc :
      (s : ℕ → D) (rows : List (SavingsGoalContribution D)) (c : SavingsGoalContribution D)
      → IsChain s rows
      → c.balance_after ≡ credit (running s rows) c c.goal_id
      → IsChain s (rows ++ (c ∷ []))
  IsChain-snoc s [] c h e = (e, tt)
  IsChain-snoc s (x ∷ rows) c (h, hs) e = (h, IsChain-snoc (credit s x) rows c hs e)

  running_fresh :
      (s : ℕ → D) (rows : List (SavingsGoalContribution D)) (n : ℕ)
      → All (λ c. c.goal_id < n) rows
      → running s rows n ≡ s n
  running_fresh s [] n h = refl
  running_fresh s (c ∷ rows) n (h, hs) =
      let e : (n == c.goal_id) ≡ false = ground (arith, h) in
      running_fresh (credit s c) rows n hs ∙ (rw e refl)

  get_goal-In :
      (owner : PlanOwner) (id : ℕ) (book : GoalBook D)
      → Ensures (λ g. In g book.goals × (is_goal_of owner id g ≡ true)) (get_goal owner id book)
  unfolding get_goal
  get_goal-In owner id book = go (head (select (is_goal_of owner id) book.goals)) refl
    where
      go :
          (o : Option (SavingsGoal D))
          → head (select (is_goal_of owner id) book.goals) ≡ o
          → Ensures (λ g. In g book.goals × (is_goal_of owner id g ≡ true)) (goal_found o)
      go none e = tt
      go (some g) e = In-select (is_goal_of owner id) g book.goals (head-In _ g e)

  pub create_goal-IsBalanced :
      (row : ℕ → SavingsGoal D) (book : GoalBook D)
      → ((id : ℕ) → ((row id).id ≡ id) × ((row id).current_amount ≡ nought))
      → IsBalanced book
      → IsBalanced (create_goal row book).1
  unfolding create_goal
  create_goal-IsBalanced row book h b = record {
    distinct =
        Pairwise-snoc _ book.goals g b.distinct (
          All-map _ _ (λ x l q. omega (arith, l, q, (h book.next_goal_id).0)) book.goals
            b.numbered);
    numbered =
        All-append _ book.goals (g ∷ [])
          (All-map _ _ (λ x l. omega (arith, l)) book.goals b.numbered)
          (omega (arith, (h book.next_goal_id).0), tt);
    past = All-map _ _ (λ c l. omega (arith, l)) book.contributions b.past;
    balanced = All-append _ book.goals (g ∷ []) b.balanced (
      (h book.next_goal_id).1
          ∙ sym (running_fresh (λ _. nought) book.contributions book.next_goal_id b.past)
          ∙ ap (totals book.contributions) (sym (h book.next_goal_id).0),
      tt,
    );
    chained = b.chained;
  }
    where
      g : SavingsGoal D
      g = row book.next_goal_id

  metadata_id : (g x : SavingsGoal D) → (with_metadata g x).id ≡ x.id
  metadata_id g x = elim (Bool-cases (is_goal_of (goal_owner g) g.id x)) [
    | inl e ↦ rw (e, if◌then◌else◌) refl
    | inr e ↦ rw (e, if◌then◌else◌) refl
  ]

  metadata_amount : (g x : SavingsGoal D) → (with_metadata g x).current_amount ≡ x.current_amount
  metadata_amount g x = elim (Bool-cases (is_goal_of (goal_owner g) g.id x)) [
    | inl e ↦ rw (e, if◌then◌else◌) refl
    | inr e ↦ rw (e, if◌then◌else◌) refl
  ]

  pub update_goal-IsBalanced :
      (g : SavingsGoal D) (book : GoalBook D)
      → IsBalanced book
      → Ensures (λ (r : SavingsGoal D × GoalBook D). IsBalanced r.1) (update_goal g book)
  unfolding update_goal
  update_goal-IsBalanced g book b =
      after_check (λ (r : SavingsGoal D × GoalBook D). IsBalanced r.1)
        (get_goal (goal_owner g) g.id _) _
        λ x. record {
          distinct =
              map-Pairwise _ _ (with_metadata g) book.goals
                (λ x y m n h q. h (sym (metadata_id g x) ∙ q ∙ metadata_id g y)) b.distinct;
          numbered =
              map-All _ _ (with_metadata g) (λ x h. rw (metadata_id g x) h) book.goals b.numbered;
          past = b.past;
          balanced =
              map-All _ _ (with_metadata g)
                (λ x h.
                  metadata_amount g x ∙ h ∙ ap (totals book.contributions) (sym (metadata_id g x)))
                book.goals b.balanced;
          chained = b.chained;
        }

  pub delete_goal-IsBalanced :
      (owner : PlanOwner) (id : ℕ) (book : GoalBook D)
      → IsBalanced book
      → Ensures IsBalanced (delete_goal owner id book)
  unfolding delete_goal
  delete_goal-IsBalanced owner id book b =
      elim (Bool-cases (any (is_goal_of owner id) book.goals)) [
        | inl e ↦
            rw (e, if◌then◌else◌)
              (record {
                distinct = Pairwise-select _ _ book.goals b.distinct;
                numbered = All-select _ _ book.goals b.numbered;
                past = b.past;
                balanced = All-select _ _ book.goals b.balanced;
                chained = b.chained;
              })
        | inr e ↦ rw (e, if◌then◌else◌) tt
      ]

  added_id :
      (owner : PlanOwner) (id : ℕ) (delta : D) (x : SavingsGoal D)
      → (add_amount owner id delta x).id ≡ x.id
  added_id owner id delta x = elim (Bool-cases (is_goal_of owner id x)) [
    | inl e ↦ rw (e, if◌then◌else◌) refl
    | inr e ↦ rw (e, if◌then◌else◌) refl
  ]

  added_owner :
      (owner : PlanOwner) (id : ℕ) (delta : D) (x : SavingsGoal D)
      → is_goal_of owner id (add_amount owner id delta x) ≡ is_goal_of owner id x
  added_owner owner id delta x = elim (Bool-cases (is_goal_of owner id x)) [
    | inl e ↦ rw (e, if◌then◌else◌) e
    | inr e ↦ rw (e, if◌then◌else◌) e
  ]

  -- The raised goals have the totals of the longer history.
  added_balanced :
      (owner : PlanOwner) (id : ℕ) (delta : D) (goals : List (SavingsGoal D))
      (rows : List (SavingsGoalContribution D)) (c : SavingsGoalContribution D) (g : SavingsGoal D)
      → c.goal_id ≡ id
      → c.amount ≡ delta
      → Pairwise (λ x y. x.id ≢ y.id) goals
      → In g goals
      → is_goal_of owner id g ≡ true
      → (x : SavingsGoal D) → In x goals
      → x.current_amount ≡ totals rows x.id
      → (add_amount owner id delta x).current_amount
        ≡ totals (rows ++ (c ∷ [])) (add_amount owner id delta x).id
  added_balanced owner id delta goals rows c g i a apart m own x n h =
      elim (Bool-cases (is_goal_of owner id x)) [
        | inl e ↦
            let q : (x.id == c.goal_id) ≡ true = ground (arith, e, i) in
            rw (e, if◌then◌else◌, running-snoc (λ _. nought) rows c) (rw (q, a, h) refl)
        | inr e ↦
            let q : (x.id == c.goal_id) ≡ false = other e in
            rw (e, if◌then◌else◌, running-snoc (λ _. nought) rows c) (rw q h)
      ]
    where
      other : is_goal_of owner id x ≡ false → (x.id == c.goal_id) ≡ false
      other e = elim (Bool-cases (x.id == c.goal_id)) [
        | inl q ↦
            let same : x ≡ g =
              Pairwise-one (λ g. g.id) goals apart x g n m (ground (arith, q, i, own)) in
            let t = ap (is_goal_of owner id) same in cc
        | inr q ↦ q
      ]

  pub add_contribution-IsBalanced :
      (owner : PlanOwner) (id : ℕ) (delta : D) (by : ℕ) (book : GoalBook D)
      → IsBalanced book
      → Ensures
          (λ (r : SavingsGoal D × GoalBook D). IsBalanced r.1)
          (add_contribution owner id delta by book)
  unfolding add_contribution
  add_contribution-IsBalanced owner id delta by book b =
      after_check_of _ (λ (r : SavingsGoal D × GoalBook D). IsBalanced r.1)
        (get_goal owner id raised) _ (get_goal-In owner id raised) λ g h. entered g h.0 h.1
    where
      put : SavingsGoal D → SavingsGoal D
      put = add_amount owner id delta

      raised : GoalBook D
      raised = record book { goals = map put book.goals }

      entry : SavingsGoal D → SavingsGoalContribution D
      entry g = record {
        goal_id = g.id;
        user_id = some by;
        amount = delta;
        balance_after = g.current_amount;
      }

      balanced :
          (g : SavingsGoal D)
          → In g (map put book.goals)
          → is_goal_of owner id g ≡ true
          → All
              (λ x. x.current_amount ≡ totals (book.contributions ++ (entry g ∷ [])) x.id)
              (map put book.goals)
      balanced g m own = All-of_In _ _ λ z n.
          let (x, k, e) = In-map put z book.goals n in
          let (y, l, f) = In-map put g book.goals m in
          let o : is_goal_of owner id y ≡ true =
            sym (added_owner owner id delta y) ∙ ap (is_goal_of owner id) (sym f) ∙ own in
          let i : g.id ≡ id = ground (arith, own) in
          let t =
            added_balanced owner id delta book.goals book.contributions (entry g) y i refl
              b.distinct l o x k (All-In _ x book.goals b.balanced k) in
          subst (λ r. r.current_amount ≡ totals (book.contributions ++ (entry g ∷ [])) r.id) (sym e)
            t

      entered :
          (g : SavingsGoal D)
          → In g (map put book.goals)
          → is_goal_of owner id g ≡ true
          → IsBalanced (record raised { contributions = book.contributions ++ (entry g ∷ []) })
      entered g m own = record {
        distinct =
            map-Pairwise _ _ put book.goals
              (λ x y m n h q. h (sym (added_id owner id delta x) ∙ q ∙ added_id owner id delta y))
              b.distinct;
        numbered = numbered;
        past = All-append _ book.contributions (entry g ∷ []) b.past (All-In _ g _ numbered m, tt);
        balanced = balanced g m own;
        chained =
            IsChain-snoc (λ _. nought) book.contributions (entry g) b.chained
              (subst (λ s. g.current_amount ≡ s g.id)
                (running-snoc (λ _. nought) book.contributions (entry g))
                (All-In _ g _ (balanced g m own) m));
      }
        where
          numbered : All (λ x. x.id < book.next_goal_id) (map put book.goals)
          numbered = map-All _ _ put (λ x h. rw (added_id owner id delta x) h) book.goals b.numbered
