-- ===== src/ValueKind.antt =====
-- rantanplan/cpp/src/problem/effect_expression.cpp: how complex the value of an effect is. The
-- recursion takes fuel, `none` when it is used up or a handle is outside the pool; the class of the
-- arguments is kept with their values, as the source computes it again from the same arguments.
pub mod Correct
pub mod Classify
mod Tests
use ran_tan_plan.Prelude.{
  ℕ, zero, suc, Bool, true, false, Option, none, some, List, [], ◌∷◌, if◌then◌else◌, ◌>>=◌,
}
use ran_tan_plan.Expr.Kinds.{ExprKind, ExprOperator}
use ran_tan_plan.Expr.Node.{ExprId, null, ref, ExprNode}
use ran_tan_plan.Expr.Pool.{ExprPool, get, tail}

pub data ValueKind : Type 0 where
  constant linear nonlinear : ValueKind

-- `std::max`
pub worse : ValueKind → ValueKind → ValueKind
worse constant k = k
worse linear constant = linear
worse linear k = k
worse nonlinear k = nonlinear

pub worst : List ValueKind → ValueKind
worst [] = constant
worst (k ∷ ks) = worse k (worst ks)

-- A node without children.
pub leaf_kind : ExprKind → ValueKind
leaf_kind ExprKind.constant = constant
leaf_kind ExprKind.parameter = constant
leaf_kind ExprKind.variable = constant
leaf_kind ExprKind.state_variable = linear
leaf_kind ExprKind.fluent_symbol = linear
leaf_kind _ = nonlinear

-- A product: a constant factor keeps the kind of the other one.
pub product : List ValueKind → ValueKind
product (l ∷ r ∷ []) = elim l [
  | constant ↦ r
  | linear ↦ elim r [ constant ↦ linear | linear ↦ nonlinear | nonlinear ↦ nonlinear ]
  | nonlinear ↦ elim r [ constant ↦ nonlinear | linear ↦ nonlinear | nonlinear ↦ nonlinear ]
]
product _ = nonlinear

pub quotient : List ValueKind → ValueKind
quotient (l ∷ constant ∷ []) = l
quotient _ = nonlinear

-- The switch over the operator, for operands that are not all constant.
pub operator_kind : Option ExprOperator → List ValueKind → ValueKind
operator_kind (some ExprOperator.plus) ks = worst ks
operator_kind (some ExprOperator.minus) ks = worst ks
operator_kind (some ExprOperator.multiply) ks = product ks
operator_kind (some ExprOperator.divide) ks = quotient ks
operator_kind _ ks = nonlinear

pub application_kind : Option ExprOperator → List ValueKind → ValueKind
application_kind o ks = elim (worst ks) [
  | constant ↦ constant
  | linear ↦ operator_kind o ks
  | nonlinear ↦ operator_kind o ks
]

pub kinds_of : (ExprId → Option ValueKind) → List ExprId → Option (List ValueKind)
kinds_of call [] = some []
kinds_of call (e ∷ es) = do k ← call e; ks ← kinds_of call es; some (k ∷ ks)

pub is_variable : ExprKind → Bool
is_variable ExprKind.state_variable = true
is_variable _ = false

-- A node, given the kinds of its arguments.
pub node_kind : ExprNode → List ExprId → Option (List ValueKind) → Option ValueKind
node_kind n [] deeper = some (leaf_kind n.kind)
node_kind n (c ∷ cs) deeper =
    if is_variable n.kind then some linear else deeper >>= (λ ks. some (application_kind n.op ks))

pub classify_value_kind : ExprPool → ℕ → ExprId → Option ValueKind
classify_value_kind p fuel null = some constant
classify_value_kind p zero (ref i) = none
classify_value_kind p (suc fuel) (ref i) = do
  n ← get p (ref i)
  node_kind n n.children (kinds_of (classify_value_kind p fuel) (tail n.children))
