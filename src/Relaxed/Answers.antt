-- ===== src/Relaxed/Answers.antt =====
-- relaxed_planning_graph.cpp: what the graph says of goals and of actions.
use ran_tan_plan.Prelude.{
  int_beq, ℕ, Bool, true, false, not, ◌||◌, Option, none, some, List, [], ◌∷◌, ◌++◌, ℤ, pos, max,
  length, contains, range, if◌then◌else◌, ◌>>=◌,
}
use ran_tan_plan.Expr.Node.{ExprId}
use ran_tan_plan.Problem.{Problem, Action}
use ran_tan_plan.Relaxed.Condition.{missing, Layer, find_grounded_fluent_id, extract_cnf_conditions}
use ran_tan_plan.Relaxed.Layers.{Achieved, first_layer, RelaxedPlanningGraph}

unfoldable pub known_ids : Problem → List ExprId → List ℤ
known_ids p [] = []
known_ids p (e ∷ conditions) =
    let rest = known_ids p conditions in
    let id = find_grounded_fluent_id p e in if int_beq id missing then rest else id ∷ rest

-- `extract_goal_conditions`
unfoldable pub extract_goal_conditions : Problem → ℕ → List ExprId → Option (List ℤ)
extract_goal_conditions p fuel [] = some []
extract_goal_conditions p fuel (goal ∷ goals) = do
  conditions ← extract_cnf_conditions p fuel goal
  rest ← extract_goal_conditions p fuel goals
  some (known_ids p conditions ++ rest)

-- `achievability_layer_.contains`
abbrev pub is_some : Option ℕ → Bool
is_some (some n) = true
is_some none = false

unfoldable pub are_goals_achievable : Achieved → List ℤ → Bool
are_goals_achievable m [] = true
are_goals_achievable m (goal ∷ goals) =
    let rest = are_goals_achievable m goals in if is_some (first_layer m goal) then rest else false

unfoldable pub max_goal_layer : Achieved → List ℤ → ℕ → ℕ
max_goal_layer m [] n = n
max_goal_layer m (goal ∷ goals) n =
    max_goal_layer m goals (elim (first_layer m goal) [ some k ↦ max n k | none ↦ n ])

abbrev pub is_empty : List Layer → Bool
is_empty [] = true
is_empty (layer ∷ layers) = false

unfoldable pub get_minimum_steps_lower_bound : RelaxedPlanningGraph → List ℤ → ℤ
get_minimum_steps_lower_bound r goals =
    if not (are_goals_achievable r.achievability_layer goals) || is_empty r.fact_layers
    then missing
    else pos (max_goal_layer r.achievability_layer goals 0)

abbrev pub positions : List (ℕ × Action) → List ℕ
positions [] = []
positions ((i, a) ∷ actions) = i ∷ positions actions

unfoldable pub is_reachable_action : List (List (ℕ × Action)) → ℕ → Bool
is_reachable_action [] i = false
is_reachable_action (actions ∷ layers) i =
    let rest = is_reachable_action layers i in if contains (positions actions) i then true else rest

unfoldable pub removable_from : RelaxedPlanningGraph → List ℕ → List ℕ
removable_from r [] = []
removable_from r (i ∷ is) =
    let rest = removable_from r is in
    if is_reachable_action r.action_layers i then rest else i ∷ rest

unfoldable pub get_removable_action_indices : Problem → RelaxedPlanningGraph → List ℕ
get_removable_action_indices p r = removable_from r (range (length p.actions))
