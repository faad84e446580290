-- ===== src/Planner/Sequential/Search.antt =====
-- The search loop: it ends, asks about a horizon only when the chain up to it is in the solver, and
-- does not give up before the last horizon has been refuted.
use ran_tan_plan.Prelude.{
  ℕ, zero, suc, ◌+◌, ◌-◌, ◌≤◌, ◌≡◌, refl, ap, ◌∙◌, subst, Bool, true, false, Option, some, List, [],
  ◌∷◌, ◌++◌, if◌then◌else◌, arith, leb, count_up, eq_of_some,
}
use ran_tan_plan.Planner.{
  next, Event, initial_state, registered, goal, type_bounds, checked, add_timestep_constraints,
}
use ran_tan_plan.Planner.Sequential.{
  Answer, sat, unsat, unknown, Setting, Outcome, fill, formula, stop, found, decide, loop,
}
use ran_tan_plan.Planner.Sequential.Log.{
  constraints, constraints-append, chain, InOrder, constraints_step, step-quiet, quiet-InOrder,
  question-InOrder,
}

module _ {Plan : Type 0} (c : Setting Plan) where
  abbrev pub m : Bool
  m = c.manages_parallelism

  pub fill_lem :
      (k i : ℕ) (log : List Event)
      → InOrder m log
      → constraints log ≡ chain m i
      → InOrder m (fill c (count_up k i) log)
        × (constraints (fill c (count_up k i) log) ≡ chain m (i + k))
  unfolding fill chain
  fill_lem zero i log o e = (o, let same : i ≡ i + zero = omega arith in e ∙ ap (chain m) same)
  fill_lem (suc k) i log o e =
      let block = add_timestep_constraints m true i in
      let at : suc i ≡ i + 1 = omega arith in
      let longer =
        constraints-append log block ∙ rw (e, constraints_step m i) refl ∙ ap (chain m) at in
      let (o', e') =
        fill_lem k (i + 1) (log ++ block) (quiet-InOrder m log block o (step-quiet m i)) longer in
      let same : i + 1 + k ≡ i + suc k = omega arith in (o', e' ∙ ap (chain m) same)

  pub append_nil : (xs : List Event) → xs ++ [] ≡ xs
  append_nil [] = refl
  append_nil (x ∷ xs) = ap (λ l. x ∷ l) (append_nil xs)

  goal_lem :
      (b : Bool) (h : ℕ) (log : List Event)
      → InOrder m log
      → InOrder m (log ++ goal h ∷ (if b then type_bounds h ∷ [] else []))
        × (constraints (log ++ goal h ∷ (if b then type_bounds h ∷ [] else [])) ≡ constraints log)
  goal_lem true h log o = (
    quiet-InOrder m log _ o refl,
    constraints-append log (goal h ∷ type_bounds h ∷ []) ∙ append_nil _,
  )
  goal_lem false h log o =
      (quiet-InOrder m log _ o refl, constraints-append log (goal h ∷ []) ∙ append_nil _)

  pub formula_lem :
      (filled h : ℕ) (log : List Event)
      → filled ≤ h
      → InOrder m log
      → constraints log ≡ chain m filled
      → InOrder m (formula c filled h log) × (constraints (formula c filled h log) ≡ chain m h)
  unfolding formula
  formula_lem filled h log le o e =
      let (o', e') = fill_lem (h - filled) filled log o e in
      let (o'', same) =
        goal_lem c.has_bounded_types h (fill c (count_up (h - filled) filled) log) o' in
      let whole : filled + (h - filled) ≡ h = omega arith in (o'', same ∙ e' ∙ ap (chain m) whole)

  abbrev pub next_h : ℕ → ℕ
  next_h h = next c.schedule h c.max_steps

  abbrev pub after : ℕ → ℕ → List Event → List Event
  after filled h log = formula c filled h log ++ checked h ∷ []

  pub if_rule :
      (P : Outcome Plan → Type 0) {r : Outcome Plan} (b : Bool) (x y : Option (Outcome Plan))
      → (if b then x else y) ≡ some r
      → (b ≡ true → x ≡ some r → P r)
      → (b ≡ false → y ≡ some r → P r)
      → P r
  if_rule P true x y e h k = h refl e
  if_rule P false x y e h k = k refl e

  decide_rule :
      (P : Outcome Plan → Type 0) {r : Outcome Plan} (a : Answer) (h : ℕ) (log : List Event)
      (rest : Option (Outcome Plan))
      → decide c a h log rest ≡ some r
      → (a ≡ sat → P (found c h log))
      → (a ≡ unknown true → P (stop c true log))
      → (rest ≡ some r → P r)
      → P r
  unfolding decide
  decide_rule P sat h log rest e f s k = subst P (eq_of_some e) (f refl)
  decide_rule P unsat h log rest e f s k = k e
  decide_rule P (unknown true) h log rest e f s k = subst P (eq_of_some e) (s refl)
  decide_rule P (unknown false) h log rest e f s k = k e

  -- A rule for outcomes: what holds of every way the loop may end holds of the search.
  pub loop_rule :
      (P : Outcome Plan → Type 0)
      → ((late : Bool) (log : List Event) → InOrder m log → P (stop c late log))
      → ((h : ℕ) (log : List Event) → InOrder m log → P (found c h log))
      → (fuel turn filled h : ℕ) (log : List Event) → filled ≤ h
      → InOrder m log
      → constraints log ≡ chain m filled
      → (r : Outcome Plan) → loop c fuel turn filled h log ≡ some r
      → P r
  unfolding loop
  loop_rule P stops finds zero turn filled h log le o e r x = cc
  loop_rule P stops finds (suc fuel) turn filled h log le o e r x =
      let (o', e') = formula_lem filled h log le o e in
      let done = question-InOrder m (formula c filled h log) h o' e' in
      let kept = constraints-append (formula c filled h log) (checked h ∷ []) ∙ append_nil _ ∙ e' in
      if_rule P (leb h c.max_steps) _ _ x
        (λ low y.
          if_rule P (c.in_time turn) _ _ y
            (λ _ z.
              decide_rule P (c.check turn (formula c filled h log) h) h (after filled h log) _ z
                (λ _. finds h _ done) (λ _. stops true _ done)
                (λ w.
                  if_rule P (leb (next_h h) h) _ _ w
                    (λ _ v. subst P (eq_of_some v) (stops false _ done))
                    (λ more v.
                      loop_rule P stops finds fuel (suc turn) h (next_h h) (after filled h log)
                        (ground arith) done kept r v)))
            (λ _ z. subst P (eq_of_some z) (stops true log o)))
        (λ _ y. subst P (eq_of_some y) (stops false log o))

  abbrev pub begin : List Event
  begin = initial_state ∷ registered 0 ∷ []

  pub begin_lem :
      InOrder m (fill c (count_up c.start_timestep 0) begin)
      × (constraints (fill c (count_up c.start_timestep 0) begin) ≡ chain m c.start_timestep)
  unfolding chain
  begin_lem =
      let (o, e) =
        fill_lem c.start_timestep 0 begin (λ before rest h k. absurd (none_yet before rest h k))
          refl in
      let same : 0 + c.start_timestep ≡ c.start_timestep = omega arith in (o, e ∙ ap (chain m) same)
    where
      none_yet : (before rest : List Event) (h : ℕ) → begin ≡ before ++ checked h ∷ rest → ⊥
      none_yet [] rest h e = cc
      none_yet (x ∷ []) rest h e = cc
      none_yet (x ∷ y ∷ []) rest h e = cc
      none_yet (x ∷ y ∷ z ∷ before) rest h e = cc
