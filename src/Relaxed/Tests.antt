-- ===== src/Relaxed/Tests.antt =====
-- The graph of the door, and two conditions that the graph gets wrong.
use ran_tan_plan.Prelude.{
  zero, suc, ◌≡◌, refl, inl, inr, false, none, some, List, [], ◌∷◌, In, arith, pos, subst, sym,
  ⊎_elim,
}
use ran_tan_plan.Expr.Kinds.{ExprKind, ExprOperator, kind_beq, op_beq}
use ran_tan_plan.Expr.Node.{ExprId, ref, id_beq, ExprNode, monostate}
use ran_tan_plan.Expr.Pool.{
  get, is_op, is_kind, is_constant, is_state_variable, is_function_application, children, arguments,
  argument_count, has_head_and_arguments,
}
use ran_tan_plan.Expr.Pool.Laws.{IsOrdered, Below}
use ran_tan_plan.H2.Build.{index_of}
use ran_tan_plan.Problem.{Problem, Action, TypeKind, is_bool_type}
use ran_tan_plan.Relaxed.Condition.{
  is_condition_satisfied, negation_satisfied, evaluate_ground_equality, operands,
  get_inner_condition, find_grounded_fluent_id, find_grounded_fluent_index, is_literal,
  is_fact_in_layer, has_fact,
}
use ran_tan_plan.Relaxed.Layers.{build, first_layer}
use ran_tan_plan.Relaxed.Answers.{
  get_minimum_steps_lower_bound, get_removable_action_indices, are_goals_achievable, max_goal_layer,
  removable_from, is_reachable_action,
}
use ran_tan_plan.Relaxed.Answered.{Returns, Room}
use ran_tan_plan.Relaxed.Total.{ActionRoom, build-Returns}
use ran_tan_plan.Relaxed.Door.{door, door_graph, leaf, pool}

door_bound : get_minimum_steps_lower_bound door_graph (pos 0 ∷ []) ≡ pos 1
unfolding get_minimum_steps_lower_bound are_goals_achievable max_goal_layer first_layer
door_bound = refl

none_removable : get_removable_action_indices door door_graph ≡ []
unfolding get_removable_action_indices removable_from is_reachable_action
none_removable = refl

pool-IsOrdered : IsOrdered pool
unfolding children get
pool-IsOrdered zero c m = absurd m
pool-IsOrdered (suc zero) c (inl e) = subst (Below 1) (sym e) (omega arith)
pool-IsOrdered (suc zero) c (inr m) = absurd m
pool-IsOrdered (suc (suc zero)) c m = absurd m
pool-IsOrdered (suc (suc (suc zero))) c m = absurd m
pool-IsOrdered (suc (suc (suc (suc zero)))) c m = absurd m
pool-IsOrdered (suc (suc (suc (suc (suc zero))))) c (inl e) = subst (Below 5) (sym e) (omega arith)
pool-IsOrdered (suc (suc (suc (suc (suc zero))))) c (inr (inl e)) =
    subst (Below 5) (sym e) (omega arith)
pool-IsOrdered (suc (suc (suc (suc (suc zero))))) c (inr (inr m)) = absurd m
pool-IsOrdered (suc (suc (suc (suc (suc (suc i)))))) c m = absurd m

door_room : (a : Action) → In a door.actions → ActionRoom 8 a
door_room a (inl e) = subst (ActionRoom 8) (sym e) (
  omega arith,
  λ x m. ⊎_elim (λ k. subst (λ y. Room 8 y.condition_id) (sym k) (omega arith)) (λ n. absurd n) m,
)
door_room a (inr (inl e)) = subst (ActionRoom 8) (sym e) (omega arith, λ x m. absurd m)
door_room a (inr (inr m)) = absurd m

build-Returns_example : Returns (build door 8)
build-Returns_example = build-Returns door pool-IsOrdered 8 door_room

-- 4 is `x = y` for two numbers, 6 its negation and 8 is `x < y`.
abbrev variable : ExprNode
variable = record {
  kind = ExprKind.state_variable;
  op = none;
  type_id = some 1;
  children = ref 0 ∷ [];
  payload = monostate;
}

abbrev apply : ExprOperator → List ExprId → ExprNode
apply o cs = record {
  kind = ExprKind.function_application;
  op = some o;
  type_id = some 0;
  children = cs;
  payload = monostate;
}

abbrev numbers : Problem
numbers = record door {
  pool = record {
    nodes =
        leaf ExprKind.fluent_symbol none
        ∷ variable
        ∷ record variable { type_id = some 1 }
        ∷ leaf ExprKind.function_symbol none
        ∷ apply ExprOperator.equals (ref 3 ∷ ref 1 ∷ ref 2 ∷ [])
        ∷ leaf ExprKind.function_symbol none
        ∷ apply ExprOperator.not (ref 5 ∷ ref 4 ∷ [])
        ∷ leaf ExprKind.function_symbol none
        ∷ apply ExprOperator.less_than (ref 7 ∷ ref 1 ∷ ref 2 ∷ [])
        ∷ [];
    keys = [];
  };
  types = TypeKind.bool ∷ TypeKind.int ∷ [];
  grounded_fluents = ref 1 ∷ ref 2 ∷ [];
}

-- The negation of an equality of two fluents is taken for false, whatever their values are.
inequality_missed : is_condition_satisfied numbers (pos 0 ∷ pos 1 ∷ []) 8 (ref 6) ≡ some false
unfolding is_condition_satisfied negation_satisfied evaluate_ground_equality operands
    get_inner_condition has_head_and_arguments argument_count arguments children get is_op op_beq
    is_kind kind_beq is_constant is_function_application is_state_variable
inequality_missed = refl

-- A comparison that has the type of the truth values is looked up as a fluent, and not found.
comparison_missed : is_condition_satisfied numbers (pos 0 ∷ pos 1 ∷ []) 8 (ref 8) ≡ some false
unfolding is_condition_satisfied is_literal is_bool_type is_fact_in_layer find_grounded_fluent_id
    find_grounded_fluent_index index_of id_beq has_fact get is_op op_beq is_kind kind_beq
    is_state_variable
comparison_missed = refl
