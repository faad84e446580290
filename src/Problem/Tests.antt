-- ===== src/Problem/Tests.antt =====
-- The fluents of a conjunction.
use ran_tan_plan.Prelude.{some, [], ◌∷◌}
use ran_tan_plan.Expr.Kinds.{ExprKind, ExprOperator}
use ran_tan_plan.Expr.Node.{ref, monostate}
use ran_tan_plan.Expr.Pool.{ExprPool, children}
use ran_tan_plan.Problem.Examples.{number}

-- A sum of a fluent and itself.
abbrev sum_pool : ExprPool
sum_pool = record {
  nodes =
      number
      ∷ record {
        kind = ExprKind.function_application;
        op = some ExprOperator.plus;
        type_id = some 0;
        children = ref 0 ∷ ref 0 ∷ [];
        payload = monostate;
      }
      ∷ [];
  keys = [];
}
