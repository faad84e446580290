-- ===== src/ValueKind/Tests.antt =====
-- Twice a fluent is linear, and the product of a fluent with itself is not.
use ran_tan_plan.Prelude.{
  zero, suc, ◌≡◌, refl, sym, subst, inl, inr, none, some, [], ◌∷◌, arith, pos,
}
use ran_tan_plan.Expr.Kinds.{ExprKind, ExprOperator}
use ran_tan_plan.Expr.Node.{ExprId, ref, ExprNode, ExprPayload, monostate, int64}
use ran_tan_plan.Expr.Pool.{ExprPool, get, children}
use ran_tan_plan.Expr.Pool.Laws.{Below, IsOrdered}
use ran_tan_plan.ValueKind.{
  ValueKind, linear, nonlinear, worse, worst, leaf_kind, product, operator_kind, application_kind,
  kinds_of, is_variable, node_kind, classify_value_kind,
}
use ran_tan_plan.ValueKind.Correct.{Meaning}
use ran_tan_plan.ValueKind.Classify.{classify_value_kind_lem}

abbrev leaf : ExprKind → ExprPayload → ExprNode
leaf k v = record { kind = k; op = none; type_id = none; children = []; payload = v }

abbrev times : ExprId → ExprId → ExprNode
times l r = record {
  kind = ExprKind.function_application;
  op = some ExprOperator.multiply;
  type_id = none;
  children = ref 0 ∷ l ∷ r ∷ [];
  payload = monostate;
}

-- The symbol, the number 2, the fluent `x`, then `2 * x` and `x * x`.
abbrev pool : ExprPool
pool = record {
  nodes =
      leaf ExprKind.function_symbol monostate
      ∷ leaf ExprKind.constant (int64 (pos 2))
      ∷ leaf ExprKind.state_variable monostate
      ∷ times (ref 1) (ref 2)
      ∷ times (ref 2) (ref 2)
      ∷ [];
  keys = [];
}

twice_x_linear : classify_value_kind pool 5 (ref 3) ≡ some linear
unfolding classify_value_kind node_kind kinds_of application_kind operator_kind product worst worse
    leaf_kind is_variable get
twice_x_linear = refl

square_nonlinear : classify_value_kind pool 5 (ref 4) ≡ some nonlinear
unfolding classify_value_kind node_kind kinds_of application_kind operator_kind product worst worse
    leaf_kind is_variable get
square_nonlinear = refl

pool-IsOrdered : IsOrdered pool
unfolding children get
pool-IsOrdered zero c m = absurd m
pool-IsOrdered (suc zero) c m = absurd m
pool-IsOrdered (suc (suc zero)) c m = absurd m
pool-IsOrdered (suc (suc (suc zero))) c (inl e) = subst (Below 3) (sym e) (omega arith)
pool-IsOrdered (suc (suc (suc zero))) c (inr (inl e)) = subst (Below 3) (sym e) (omega arith)
pool-IsOrdered (suc (suc (suc zero))) c (inr (inr (inl e))) = subst (Below 3) (sym e) (omega arith)
pool-IsOrdered (suc (suc (suc zero))) c (inr (inr (inr m))) = absurd m
pool-IsOrdered (suc (suc (suc (suc zero)))) c (inl e) = subst (Below 4) (sym e) (omega arith)
pool-IsOrdered (suc (suc (suc (suc zero)))) c (inr (inl e)) = subst (Below 4) (sym e) (omega arith)
pool-IsOrdered (suc (suc (suc (suc zero)))) c (inr (inr (inl e))) =
    subst (Below 4) (sym e) (omega arith)
pool-IsOrdered (suc (suc (suc (suc zero)))) c (inr (inr (inr m))) = absurd m
pool-IsOrdered (suc (suc (suc (suc (suc i))))) c m = absurd m

classify_value_kind_lem_example :
    (k : ValueKind) × (classify_value_kind pool 5 (ref 3) ≡ some k) × Meaning pool (ref 3) k
classify_value_kind_lem_example =
    classify_value_kind_lem pool 5 (ref 3) pool-IsOrdered (omega arith) (omega arith)
