-- ===== src/Problem.antt =====
-- The parts of a planning problem that the analyses read: rantanplan/cpp/src/problem/problem.hpp,
-- action.hpp, effect.hpp, effect_expression.hpp, assignment.hpp and the kinds of type.hpp. Names,
-- parameters and costs of actions, which the analyses do not read, are left out.
pub mod Fluents
pub mod Examples
mod Tests
use ran_tan_plan.Prelude.{ℕ, Bool, true, false, Option, none, some, List, get_elem?}
use ran_tan_plan.Expr.Node.{ExprId}
use ran_tan_plan.Expr.Pool.{ExprPool, get}

pub data TypeKind : Type 0 where
  object bool int bounded_int real array set : TypeKind

pub data EffectKind : Type 0 where
  assign increase decrease : EffectKind

pub record EffectExpression : Type 0 where
  pub kind : EffectKind
  pub fluent_id : ExprId
  pub value_id : ExprId
  pub condition_id : ExprId
  pub is_conditional : Bool

-- An id is set when an action enters a problem; the id −1 of an action outside one is not modelled.
pub record Action : Type 0 where
  pub id : ℕ
  pub precondition_id : ExprId
  pub has_precondition : Bool
  pub effects : List EffectExpression

pub record Assignment : Type 0 where
  pub fluent_id : ExprId
  pub value_id : ExprId

-- `types` holds the kind of each entry of `types_`, and `goals` the expression of each goal.
pub record Problem : Type 0 where
  pub pool : ExprPool
  pub types : List TypeKind
  pub grounded_fluents : List ExprId
  pub actions : List Action
  pub initial_state : List Assignment
  pub goals : List ExprId

unfoldable pub is_assign : EffectKind → Bool
is_assign EffectKind.assign = true
is_assign _ = false

abbrev is_bool_kind : Option TypeKind → Bool
is_bool_kind (some TypeKind.bool) = true
is_bool_kind _ = false

abbrev type_at : List TypeKind → Option ℕ → Option TypeKind
type_at ts none = none
type_at ts (some i) = get_elem? ts i

unfoldable pub is_bool_type : Problem → ExprId → Bool
unfolding get
is_bool_type p id = elim (get p.pool id) [
  | none ↦ false
  | some n ↦ is_bool_kind (type_at p.types n.type_id)
]
