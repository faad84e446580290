-- ===== src/Interference/Tests.antt =====
-- Two actions that do not share a fluent, and what the collector makes of a fluent of both polarities.
use ran_tan_plan.Prelude.{ℕ, ◌≡◌, refl, true, false, Option, none, some, List, [], ◌∷◌}
use ran_tan_plan.Expr.Kinds.{ExprKind, ExprOperator, kind_beq, op_beq}
use ran_tan_plan.Expr.Node.{ExprId, null, ref, id_beq, ExprNode, monostate, bool}
use ran_tan_plan.Expr.Pool.{is_constant, ExprPool, get, is_op, is_kind, children, arguments}
use ran_tan_plan.Problem.{Problem, Action, EffectKind, TypeKind, is_bool_type}
use ran_tan_plan.Expr.Node.Equal.{is_in}
use ran_tan_plan.Problem.{is_assign}
use ran_tan_plan.Problem.Examples.{exchange, assign}
use ran_tan_plan.Interference.{
  negative, put, collect_fluent, collect_each, collect_from, nothing_collected, collect_all,
  analyze_action, actions_interfere, disturbs, has_intersection, analyze_preconditions,
  analyze_effects, analyze_condition, analyze_value, nothing_analyzed, names, constant_value,
}
use ran_tan_plan.Interference.Independent.{Independent}

abbrev leaf : ExprKind → Option ℕ → ExprNode
leaf k t = record { kind = k; op = none; type_id = t; children = []; payload = monostate }

abbrev variable : ℕ → ExprNode
variable i = record {
  kind = ExprKind.state_variable;
  op = none;
  type_id = some 0;
  children = ref i ∷ [];
  payload = monostate;
}

abbrev apply : ExprOperator → List ExprId → ExprNode
apply o cs = record {
  kind = ExprKind.function_application;
  op = some o;
  type_id = some 0;
  children = cs;
  payload = monostate;
}

-- 1 and 3 are the fluents `a` and `b`; 6 is `not a`, 7 `a or not a`.
abbrev pool : ExprPool
pool = record {
  nodes =
      leaf ExprKind.fluent_symbol (some 0)
      ∷ variable 0
      ∷ leaf ExprKind.fluent_symbol (some 0)
      ∷ variable 2
      ∷ record {
        kind = ExprKind.constant;
        op = none;
        type_id = none;
        children = [];
        payload = bool true;
      }
      ∷ leaf ExprKind.function_symbol none
      ∷ apply ExprOperator.not (ref 5 ∷ ref 1 ∷ [])
      ∷ apply ExprOperator.or (ref 5 ∷ ref 1 ∷ ref 6 ∷ [])
      ∷ [];
  keys = [];
}

abbrev set_true : ℕ → ExprId → Action
set_true i f = record {
  id = i;
  precondition_id = null;
  has_precondition = false;
  effects =
      record {
        kind = EffectKind.assign;
        fluent_id = f;
        value_id = ref 4;
        condition_id = null;
        is_conditional = false;
      }
      ∷ [];
}

abbrev two : Problem
two = record {
  pool = pool;
  types = TypeKind.bool ∷ [];
  grounded_fluents = ref 1 ∷ ref 3 ∷ [];
  actions = set_true 0 (ref 1) ∷ set_true 1 (ref 3) ∷ [];
  initial_state = [];
  goals = [];
}

-- The precondition `a or not a` reads `a` both ways; the collector keeps the last one.
both_polarities :
    collect_all two 9 (ref 7)
    ≡ some (record { boolean_fluents = (ref 1, negative) ∷ []; numeric_fluents = [] })
unfolding collect_all collect_from collect_each collect_fluent put nothing_collected is_op is_kind
    children arguments get is_bool_type id_beq kind_beq op_beq
both_polarities = refl

-- Of two actions that exchange two numbers, each one disturbs the other.
exchange_interferes :
    actions_interfere
      (analyze_action exchange 2 (assign 0 (ref 0) (ref 1)))
      (analyze_action exchange 2 (assign 1 (ref 1) (ref 0)))
    ≡ true
unfolding actions_interfere disturbs has_intersection is_in analyze_action analyze_preconditions
    analyze_effects analyze_condition analyze_value collect_all collect_from collect_each
    collect_fluent put nothing_collected nothing_analyzed names constant_value is_op is_kind
    is_constant children arguments get is_bool_type is_assign id_beq kind_beq op_beq
exchange_interferes = refl
