-- ===== src/Relaxed/Layers.antt =====
-- relaxed_planning_graph.cpp: the layers, up to the fixpoint or the limit.
use ran_tan_plan.Prelude.{
  int_beq, ℕ, zero, suc, ◌-◌, Bool, true, false, ◌&&◌, Option, none, some, List, [], ◌∷◌, ℤ, length,
  if◌then◌else◌, ◌>>=◌,
}
use ran_tan_plan.Problem.{Problem, Action, Assignment, EffectExpression}
use ran_tan_plan.Interference.{constant_value}
use ran_tan_plan.Relaxed.Condition.{
  missing, Layer, has_fact, encode_negative_fact_id, find_grounded_fluent_id, conditions_satisfied,
  compute_applicable_actions,
}

abbrev pub Achieved : Type 0
Achieved = List (ℤ × ℕ)

-- `achievability_layer_.find`
unfoldable pub first_layer : Achieved → ℤ → Option ℕ
first_layer [] z = none
first_layer ((y, n) ∷ m) z = let rest = first_layer m z in if int_beq y z then some n else rest

-- The layer that is being filled, with the map from facts to their first layers.
pub record Filling : Type 0 where
  pub facts : Layer
  pub achievability_layer : Achieved

-- A first layer is only entered where there is none.
unfoldable pub enter : ℤ → ℕ → Achieved → Option ℕ → Achieved
enter z index m (some n) = m
enter z index m none = (z, index) ∷ m

unfoldable pub achieve : ℤ → ℕ → Achieved → Achieved
achieve z index m = enter z index m (first_layer m z)

unfoldable pub add_fact : ℤ → ℕ → Filling → Filling
add_fact z index t = record {
  facts = z ∷ t.facts;
  achievability_layer = achieve z index t.achievability_layer;
}

-- The fact of a fluent with a value: the negative one for the constant `false`.
unfoldable pub fact_of_value : ℤ → Option Bool → ℤ
fact_of_value id (some true) = id
fact_of_value id (some false) = encode_negative_fact_id id
fact_of_value id none = id

unfoldable pub add_simple_effect_to_layer : Problem → ℕ → EffectExpression → Filling → Filling
add_simple_effect_to_layer p index e t =
    add_fact
      (fact_of_value (find_grounded_fluent_id p e.fluent_id) (constant_value p.pool e.value_id))
      index t

unfoldable pub initialize_fact_layer : Problem → List Assignment → Filling → Filling
initialize_fact_layer p [] t = t
initialize_fact_layer p (a ∷ assignments) t =
    let id = find_grounded_fluent_id p a.fluent_id in
    let known = add_fact (fact_of_value id (constant_value p.pool a.value_id)) 0 t in
    initialize_fact_layer p assignments (if int_beq id missing then t else known)

-- Whether an effect applies, by the layer before the one that is filled.
unfoldable pub is_triggered : Problem → ℕ → Layer → EffectExpression → Option Bool
is_triggered p fuel previous e =
    if e.is_conditional then conditions_satisfied p fuel previous e.condition_id else some true

unfoldable pub add_effects_to_layer :
    Problem → ℕ → Layer → ℕ → List EffectExpression → Filling → Option Filling
add_effects_to_layer p fuel previous index [] t = some t
add_effects_to_layer p fuel previous index (e ∷ effects) t = do
  triggered ← is_triggered p fuel previous e
  add_effects_to_layer p fuel previous index effects
      (if triggered then add_simple_effect_to_layer p index e t else t)

unfoldable pub add_actions_to_layer :
    Problem → ℕ → Layer → ℕ → List (ℕ × Action) → Filling → Option Filling
add_actions_to_layer p fuel previous index [] t = some t
add_actions_to_layer p fuel previous index ((i, a) ∷ actions) t = do
  filled ← add_effects_to_layer p fuel previous index a.effects t
  add_actions_to_layer p fuel previous index actions filled

pub record RelaxedPlanningGraph : Type 0 where
  pub fact_layers : List Layer
  pub action_layers : List (List (ℕ × Action))
  pub achievability_layer : Achieved

unfoldable pub all_in : Layer → Layer → Bool
all_in [] previous = true
all_in (z ∷ last) previous = has_fact previous z && all_in last previous

unfoldable pub is_fixpoint_reached : List Layer → Bool
is_fixpoint_reached (last ∷ previous ∷ layers) = all_in last previous
is_fixpoint_reached _ = false

abbrev pub current_layer : List Layer → Layer
current_layer [] = []
current_layer (layer ∷ layers) = layer

abbrev pub has_none : List (ℕ × Action) → Bool
has_none [] = true
has_none (a ∷ as') = false

abbrev pub with_actions : RelaxedPlanningGraph → List (ℕ × Action) → RelaxedPlanningGraph
with_actions r actions = record r { action_layers = actions ∷ r.action_layers }

abbrev pub with_layer : RelaxedPlanningGraph → List (ℕ × Action) → Filling → RelaxedPlanningGraph
with_layer r actions t = record {
  fact_layers = t.facts ∷ r.fact_layers;
  action_layers = actions ∷ r.action_layers;
  achievability_layer = t.achievability_layer;
}

-- The loop of `build` with the number of layers that may still be added.
unfoldable pub add_layers : Problem → ℕ → ℕ → RelaxedPlanningGraph → Option RelaxedPlanningGraph
add_layers p fuel zero r = some r
add_layers p fuel (suc left) r =
    let more = (do
      actions ← compute_applicable_actions p fuel (current_layer r.fact_layers) 0 p.actions
      filled ←
          add_actions_to_layer p fuel (current_layer r.fact_layers) (length r.fact_layers) actions
            (record {
              facts = current_layer r.fact_layers;
              achievability_layer = r.achievability_layer;
            })
      if has_none actions
          then some (with_actions r actions)
          else add_layers p fuel left (with_layer r actions filled)) in
    if is_fixpoint_reached r.fact_layers then some r else more

abbrev pub max_rpg_layers : ℕ
max_rpg_layers = 100

unfoldable pub initial_filling : Problem → Filling
initial_filling p =
    initialize_fact_layer p p.initial_state (record { facts = []; achievability_layer = [] })

-- `build`, without the answer whether the goals are achievable.
unfoldable pub build : Problem → ℕ → Option RelaxedPlanningGraph
build p fuel = add_layers p fuel (max_rpg_layers - 1) (record {
  fact_layers = (initial_filling p).facts ∷ [];
  action_layers = [];
  achievability_layer = (initial_filling p).achievability_layer;
})
