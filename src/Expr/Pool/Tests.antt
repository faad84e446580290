-- ===== src/Expr/Pool/Tests.antt =====
-- The pool on concrete nodes.
use ran_tan_plan.Prelude.{◌≡◌, true, false, none, some, [], ◌↔◌}
use ran_tan_plan.Expr.Kinds.{ExprKind}
use ran_tan_plan.Expr.Node.{ExprId, ExprNode, fin, bool}
use ran_tan_plan.Expr.Node.Tests.{double_text_tiny}
use ran_tan_plan.Expr.Node.Key.{Similar}
use ran_tan_plan.Expr.Pool.{empty, intern, get, intern_double_constant}
use ran_tan_plan.Expr.Pool.Laws.{IsInterned, empty-IsInterned}
use ran_tan_plan.Expr.Pool.Sharing.{intern_lem, intern_same_iff, intern_double_collision}

intern_double_collision_example :
    intern_double_constant (intern_double_constant empty (fin false 0) none).1 (fin false 1) none
    ≡ intern_double_constant empty (fin false 0) none
intern_double_collision_example =
    intern_double_collision empty (fin false 0) (fin false 1) none empty-IsInterned double_text_tiny

abbrev true_node : ExprNode
true_node = record {
  kind = ExprKind.constant;
  op = none;
  type_id = none;
  children = [];
  payload = bool true;
}

abbrev false_node : ExprNode
false_node = record {
  kind = ExprKind.constant;
  op = none;
  type_id = none;
  children = [];
  payload = bool false;
}

intern_lem_example :
    IsInterned (intern empty true_node).1
    × ((id : ExprId) (m : ExprNode)
        → get empty id ≡ some m
        → get (intern empty true_node).1 id ≡ some m)
    × ((m : ExprNode) × (get (intern empty true_node).1 (intern empty true_node).0 ≡ some m)
        × Similar m true_node)
intern_lem_example = intern_lem empty true_node empty-IsInterned

intern_same_iff_example :
    ((intern empty true_node).0 ≡ (intern (intern empty true_node).1 false_node).0)
    ↔ Similar true_node false_node
intern_same_iff_example = intern_same_iff empty true_node false_node empty-IsInterned
