-- ===== src/Relaxed/Total.antt =====
-- `build` always ends: in a pool where children stand before their parents, with more fuel than the
-- handles of the conditions.
use ran_tan_plan.Prelude.{
  ℕ, zero, suc, ◌≡◌, refl, inl, inr, Bool, true, false, ap, some, List, [], ◌∷◌, In, if◌then◌else◌,
  length,
}
use ran_tan_plan.Expr.Pool.Laws.{IsOrdered}
use ran_tan_plan.Problem.{Problem, Action, EffectExpression}
use ran_tan_plan.Relaxed.Condition.{Layer, are_preconditions_satisfied, compute_applicable_actions}
use ran_tan_plan.Relaxed.Layers.{
  Filling, is_triggered, add_effects_to_layer, add_simple_effect_to_layer, add_actions_to_layer,
  RelaxedPlanningGraph, is_fixpoint_reached, has_none, with_actions, with_layer, current_layer,
  add_layers, build,
}
use ran_tan_plan.Relaxed.Answered.{Returns, either, decided, Room, conditions-Returns}

-- The conditions of an action leave room.
abbrev pub ActionRoom : ℕ → Action → Type 0
ActionRoom fuel a =
    Room fuel a.precondition_id
    × ((e : EffectExpression) → In e a.effects → Room fuel e.condition_id)

module _ (p : Problem) (o : IsOrdered p.pool) where
  applicable-Returns :
      (fuel : ℕ) (layer : Layer) (i : ℕ) (actions : List Action)
      → ((a : Action) → In a actions → ActionRoom fuel a)
      → (found : List (ℕ × Action)) × (compute_applicable_actions p fuel layer i actions
          ≡ some found)
        × ((x : ℕ × Action) → In x found → In x.1 actions)
  unfolding compute_applicable_actions are_preconditions_satisfied
  applicable-Returns fuel layer i [] room = ([], refl, λ x m. m)
  applicable-Returns fuel layer i (a ∷ actions) room =
      let (b, e) =
        either a.has_precondition _ _
          (conditions-Returns p o layer fuel a.precondition_id (room a (inl refl)).0)
          (decided true) in
      let (rest, e', from) =
        applicable-Returns fuel layer (suc i) actions (λ x m. room x (inr m)) in
      (if b then (i, a) ∷ rest else rest, rw (e, e') refl, λ x m. kept b rest x from m)
    where
      kept :
          (b : Bool) (rest : List (ℕ × Action)) (x : ℕ × Action)
          → ((y : ℕ × Action) → In y rest → In y.1 actions)
          → In x (if b then (i, a) ∷ rest else rest)
          → In x.1 (a ∷ actions)
      kept true rest x from (inl e) = inl (ap (λ (y : ℕ × Action). y.1) e)
      kept true rest x from (inr m) = inr (from x m)
      kept false rest x from m = inr (from x m)

  effects-Returns :
      (fuel : ℕ) (layer : Layer) (index : ℕ) (es : List EffectExpression) (t : Filling)
      → ((e : EffectExpression) → In e es → Room fuel e.condition_id)
      → Returns (add_effects_to_layer p fuel layer index es t)
  unfolding add_effects_to_layer is_triggered
  effects-Returns fuel layer index [] t room = (t, refl)
  effects-Returns fuel layer index (e ∷ es) t room =
      let (b, k) =
        either e.is_conditional _ _
          (conditions-Returns p o layer fuel e.condition_id (room e (inl refl))) (decided true) in
      rw k (
        effects-Returns fuel layer index es
          (if b then add_simple_effect_to_layer p index e t else t) (λ x m. room x (inr m)))

  actions-Returns :
      (fuel : ℕ) (layer : Layer) (index : ℕ) (actions : List (ℕ × Action)) (t : Filling)
      → ((x : ℕ × Action) → In x actions → ActionRoom fuel x.1)
      → Returns (add_actions_to_layer p fuel layer index actions t)
  unfolding add_actions_to_layer
  actions-Returns fuel layer index [] t room = (t, refl)
  actions-Returns fuel layer index ((i, a) ∷ actions) t room =
      let (s, e) = effects-Returns fuel layer index a.effects t (room (i, a) (inl refl)).1 in
      rw e (actions-Returns fuel layer index actions s (λ x m. room x (inr m)))

  layers-Returns :
      (fuel left : ℕ) (r : RelaxedPlanningGraph)
      → ((a : Action) → In a p.actions → ActionRoom fuel a)
      → Returns (add_layers p fuel left r)
  unfolding add_layers
  layers-Returns fuel zero r room = (r, refl)
  layers-Returns fuel (suc left) r room =
      let (actions, e, from) =
        applicable-Returns fuel (current_layer r.fact_layers) 0 p.actions room in
      let (t, e') =
        actions-Returns fuel (current_layer r.fact_layers) (length r.fact_layers) actions
          (record {
            facts = current_layer r.fact_layers;
            achievability_layer = r.achievability_layer;
          })
          (λ x m. room x.1 (from x m)) in
      either (is_fixpoint_reached r.fact_layers) (some r) _ (r, refl)
        (rw (e, e')
          (either (has_none actions) _ _ (with_actions r actions, refl)
            (layers-Returns fuel left (with_layer r actions t) room)))

  -- In a pool where children stand before their parents, with more fuel than the handles of the
  -- conditions and one, `build` returns a graph.
  pub build-Returns :
      (fuel : ℕ) → ((a : Action) → In a p.actions → ActionRoom fuel a) → Returns (build p fuel)
  unfolding build
  build-Returns fuel room = layers-Returns fuel _ _ room
