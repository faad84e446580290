-- ===== src/Expr/Operators/Tests.antt =====
-- Names of operators.
use ran_tan_plan.Prelude.{◌≡◌, refl, [], ◌∷◌, true}
use ran_tan_plan.Expr.Kinds.{ExprOperator, op_beq}
use ran_tan_plan.Expr.Pool.{text_beq}
use ran_tan_plan.Expr.Operators.{
  up_names, standard_names, look_up, string_to_expr_operator, expr_operator_to_string,
  map_up_operator, operator_round_trip, is_standard_operator,
}

up_and : map_up_operator (b'u' ∷ b'p' ∷ b':' ∷ b'a' ∷ b'n' ∷ b'd' ∷ []) ≡ b'a' ∷ b'n' ∷ b'd' ∷ []
unfolding map_up_operator string_to_expr_operator expr_operator_to_string look_up up_names
    standard_names text_beq op_beq
up_and = refl

and_is_standard : is_standard_operator (b'a' ∷ b'n' ∷ b'd' ∷ []) ≡ true
unfolding is_standard_operator string_to_expr_operator look_up up_names standard_names text_beq
    op_beq
and_is_standard = refl

operator_round_trip_example :
    string_to_expr_operator (expr_operator_to_string ExprOperator.iff) ≡ ExprOperator.equals
operator_round_trip_example = operator_round_trip ExprOperator.iff
