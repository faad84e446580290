-- ===== src/Relaxed/Covered.antt =====
-- The layers have the facts of the states that are reached in as many steps.
use ran_tan_plan.Prelude.{
  ℕ, suc, ◌≡◌, refl, sym, ap, ◌∙◌, subst, inl, inr, Bool, true, some, List, [], ◌∷◌, In, ⊎_elim,
  eq_of_some, get_elem?, length, ℤ, pos, In-of_get_elem?, true-ne-false,
}
use ran_tan_plan.Expr.Node.{ExprId, ref}
use ran_tan_plan.Problem.{Problem, Action, EffectExpression}
use ran_tan_plan.Interference.{constant_value}
use ran_tan_plan.Relaxed.Condition.{Layer, find_grounded_fluent_index, find_grounded_fluent_id}
use ran_tan_plan.Relaxed.Layers.{fact_of_value, is_triggered, initial_filling}
use ran_tan_plan.Relaxed.World.{
  Valuation, IsCoherent, IsFluent, Initially, Fires, Happens, ReachedIn, start, step,
  ReachedIn-IsCoherent, Covers, IsSupported,
}
use ran_tan_plan.Relaxed.Facts.{fluent_found, id_of_fluent}
use ran_tan_plan.Relaxed.Satisfied.{branch}
use ran_tan_plan.Relaxed.Conditions.{conditions_satisfied_lem, are_preconditions_satisfied_lem}
use ran_tan_plan.Relaxed.Grown.{fact_of, Adds, Listed, nothing-IsFilling, initialize_fact_layer_lem}

-- A layer, the actions that it satisfies, and the layer after it.
pub record IsNext (p : Problem) (fuel : ℕ) (previous next : Layer) (found : List (ℕ × Action))
    : Type 0 where
  pub keeps : (z : ℤ) → In z previous → In z next
  pub listed :
      (j : ℕ) (a : Action) → get_elem? p.actions j ≡ some a → Listed p fuel previous j a found
  pub adds :
      (x : ℕ × Action)
      → In x found
      → (e : EffectExpression) → In e x.1.effects
      → Adds p fuel previous e next

-- The last layer, those before it, and the actions found in these.
pub data IsGraph (p : Problem) (fuel : ℕ)
    : Layer → List Layer → List (List (ℕ × Action)) → Type 0 where
  initial : IsGraph p fuel (initial_filling p).facts [] []
  layered :
      {previous next : Layer} {layers : List Layer} {found : List (ℕ × Action)}
      {before : List (List (ℕ × Action))}
      → IsGraph p fuel previous layers before
      → IsNext p fuel previous next found
      → IsGraph p fuel next (previous ∷ layers) (found ∷ before)

In-get_elem? :
    (actions : List Action) (a : Action) → In a actions → (j : ℕ) × (get_elem? actions j ≡ some a)
In-get_elem? [] a m = absurd m
In-get_elem? (x ∷ actions) a (inl e) = (0, ap some (sym e))
In-get_elem? (x ∷ actions) a (inr m) = let (j, e) = In-get_elem? actions a m in (suc j, e)

-- The initial facts are in every layer.
pub graph_initial :
    (p : Problem) (fuel : ℕ) {layer : Layer} {before : List Layer}
    {found : List (List (ℕ × Action))}
    → IsGraph p fuel layer before found
    → (z : ℤ) → In z (initial_filling p).facts
    → In z layer
graph_initial p fuel initial z m = m
graph_initial p fuel (layered g n) z m = n.keeps z (graph_initial p fuel g z m)

module _ (p : Problem) (fuel : ℕ) (supported : IsSupported p) where
  fact_of_fluent :
      (i : ℕ) (value : ExprId) (b : Bool)
      → IsFluent p i
      → constant_value p.pool value ≡ some b
      → fact_of p (ref i) value ≡ fact_of_value (find_grounded_fluent_index p (ref i)) (some b)
  fact_of_fluent i value b f e = rw (e, id_of_fluent p (ref i) (supported.fluents (ref i) f.0)) refl

  pub initially_covered : (v : Valuation) → Initially p v → Covers p v (initial_filling p).facts
  unfolding initial_filling
  initially_covered v h i f =
      let (a, m, fluent, value) = h i f in
      let (n, found) = fluent_found p i f.0 in
      let id : find_grounded_fluent_id p a.fluent_id ≡ pos n =
        ap (find_grounded_fluent_id p) fluent
        ∙ id_of_fluent p (ref i) (supported.fluents (ref i) f.0)
        ∙ found in
      let (_, _, all) = initialize_fact_layer_lem p p.initial_state _ nothing-IsFilling in
      subst (λ z. In z (initial_filling p).facts)
        (ap (λ x. fact_of p x a.value_id) fluent ∙ fact_of_fluent i a.value_id (v (ref i)) f value)
        (all a m (rw id refl))

  -- An action that is applied in a state that the layer covers is among those found.
  pub applied-In :
      (v : Valuation) (layer next : Layer) (found : List (ℕ × Action)) (j : ℕ) (a : Action)
      → IsNext p fuel layer next found
      → IsCoherent p v
      → Covers p v layer
      → get_elem? p.actions j ≡ some a
      → (a.has_precondition ≡ true → v a.precondition_id ≡ true)
      → In {A = ℕ × Action} (j, a) found
  applied-In v layer next found j a n coherent covers at applicable =
      let (b, tested, l) = n.listed j a at in
      l (
        are_preconditions_satisfied_lem p v layer fuel a b coherent covers supported.fluents
          (supported.preconditions a (In-of_get_elem? p.actions j a at)) applicable tested)

  triggered_lem :
      (v : Valuation) (layer : Layer) (a : Action) (e : EffectExpression) (b : Bool)
      → In a p.actions
      → In e a.effects
      → IsCoherent p v
      → Covers p v layer
      → Fires v e
      → is_triggered p fuel layer e ≡ some b
      → b ≡ true
  unfolding is_triggered
  triggered_lem v layer a e b ma me coherent covers fires h = elim (branch e.is_conditional _ _ h) [
    | inr (q, x) ↦ sym (eq_of_some x)
    | inl (q, x) ↦
        conditions_satisfied_lem p v layer fuel e.condition_id b coherent covers supported.fluents
          (supported.conditions a e ma me q)
          (⊎_elim (λ k. absurd (true-ne-false q k)) (λ k. k) fires) x
  ]

  pub next_covers :
      (v w : Valuation) (layer next : Layer) (found : List (ℕ × Action)) (j : ℕ) (a : Action)
      → IsNext p fuel layer next found
      → IsCoherent p v
      → Covers p v layer
      → get_elem? p.actions j ≡ some a
      → Happens p a v w
      → Covers p w next
  next_covers v w layer next found j a n coherent covers at h i f =
      let ma = In-of_get_elem? p.actions j a at in
      elim (h.after i f) [
        | inr same ↦
            subst (λ b. In (fact_of_value (find_grounded_fluent_index p (ref i)) (some b)) next)
              (sym same) (n.keeps _ (covers i f))
        | inl (e, me, fires, fluent, value) ↦
            let (b, triggered, added) =
              n.adds (j, a) (applied-In v layer next found j a n coherent covers at h.applicable) e
                me in
            let (c, k) = supported.constants a e i ma me f fluent in
            let final : w (ref i) ≡ c = value ∙ coherent.constant e.value_id c k in
            subst (λ x. In (fact_of_value (find_grounded_fluent_index p (ref i)) (some x)) next)
              (sym final)
              (subst (λ z. In z next)
                (ap (λ x. fact_of p x e.value_id) fluent ∙ fact_of_fluent i e.value_id c f k)
                (added (triggered_lem v layer a e b ma me coherent covers fires triggered)))
      ]

  -- A state that is reached in n steps is covered by the layer after n layers.
  pub graph_covers :
      {layer : Layer} {before : List Layer} {found : List (List (ℕ × Action))} {v : Valuation}
      → IsGraph p fuel layer before found
      → ReachedIn p (length before) v
      → Covers p v layer
  graph_covers {v = x} initial (start c h) = initially_covered x h
  graph_covers (layered g n) (step a m r h c) =
      let (j, at) = In-get_elem? p.actions a m in
      next_covers _ _ _ _ _ j a n (ReachedIn-IsCoherent r) (graph_covers g r) at h

  -- A layer that is the next one of itself covers every state.
  pub settled_covers :
      {layer : Layer} {found : List (ℕ × Action)} {k : ℕ} {v : Valuation}
      → IsNext p fuel layer layer found
      → ((z : ℤ) → In z (initial_filling p).facts → In z layer)
      → ReachedIn p k v
      → Covers p v layer
  settled_covers {v = x} n from (start c h) = λ i f. from _ (initially_covered x h i f)
  settled_covers n from (step a m r h c) =
      let (j, at) = In-get_elem? p.actions a m in
      next_covers _ _ _ _ _ j a n (ReachedIn-IsCoherent r) (settled_covers n from r) at h
