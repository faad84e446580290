-- ===== src/Relaxed/Condition.antt =====
-- relaxed_planning_graph.cpp: fact ids, and which conditions and actions a layer satisfies.
use ran_tan_plan.Prelude.{
  int_beq, ℕ, zero, suc, ◌+◌, Bool, true, false, not, ◌&&◌, ◌||◌, Option, none, some, List, [], ◌∷◌,
  ◌++◌, ℤ, pos, negsuc, leb, if◌then◌else◌, ◌>>=◌,
}
use ran_tan_plan.Expr.Kinds.{ExprKind, ExprOperator}
use ran_tan_plan.Expr.Node.{ExprId, null, ref, id_beq}
use ran_tan_plan.Expr.Pool.{
  is_op, is_kind, is_constant, is_state_variable, children, arguments, argument_count,
  has_head_and_arguments,
}
use ran_tan_plan.Problem.{Problem, Action, is_bool_type}
use ran_tan_plan.H2.Build.{index_of}

-- −1, where nothing is found.
abbrev pub missing : ℤ
missing = negsuc 0

abbrev pub Layer : Type 0
Layer = List ℤ

unfoldable pub has_fact : Layer → ℤ → Bool
has_fact [] z = false
has_fact (y ∷ layer) z = let rest = has_fact layer z in if int_beq y z then true else rest

-- `encode_negative_fact_id`: -(id + 2)
unfoldable pub encode_negative_fact_id : ℤ → ℤ
encode_negative_fact_id (pos n) = negsuc (n + 1)
encode_negative_fact_id (negsuc zero) = negsuc 0
encode_negative_fact_id (negsuc (suc n)) = pos n

abbrev pub or_missing : Option ℕ → ℤ
or_missing none = missing
or_missing (some i) = pos i

-- `Problem::find_grounded_fluent_index`
unfoldable pub find_grounded_fluent_index : Problem → ExprId → ℤ
find_grounded_fluent_index p null = missing
find_grounded_fluent_index p (ref i) = or_missing (index_of (ref i) p.grounded_fluents)

abbrev pub first : List ExprId → ExprId
first [] = null
first (c ∷ cs) = c

unfoldable pub get_inner_condition : Problem → ExprId → ExprId
get_inner_condition p e =
    if has_head_and_arguments p.pool e && leb 1 (argument_count p.pool e)
    then first (arguments p.pool e)
    else first (children p.pool e)

unfoldable pub find_grounded_fluent_id : Problem → ExprId → ℤ
find_grounded_fluent_id p e =
    let inner = find_grounded_fluent_index p (get_inner_condition p e) in
    if is_op p.pool e ExprOperator.not
    then if int_beq inner missing then missing else encode_negative_fact_id inner
    else find_grounded_fluent_index p e

-- The operands of a connective, without its head symbol where it has one.
unfoldable pub operands : Problem → ExprId → List ExprId
operands p e = if has_head_and_arguments p.pool e then arguments p.pool e else children p.pool e

unfoldable pub is_fact_in_layer : Problem → Layer → ExprId → Bool
is_fact_in_layer p layer e =
    let id = find_grounded_fluent_id p e in not (int_beq id missing) && has_fact layer id

abbrev pub equal_constants : Problem → List ExprId → Bool
equal_constants p (a ∷ b ∷ []) =
    if is_constant p.pool a && is_constant p.pool b then id_beq a b else true
equal_constants p _ = true

unfoldable pub evaluate_ground_equality : Problem → ExprId → Bool
evaluate_ground_equality p e = equal_constants p (operands p e)

-- The loop over a conjunction returns early at an operand that is not satisfied.
unfoldable pub all_satisfied : (ExprId → Option Bool) → List ExprId → Option Bool
all_satisfied call [] = some true
all_satisfied call (c ∷ cs) = do here ← call c; if here then all_satisfied call cs else some false

-- The loop over a disjunction returns early at an operand that is satisfied; without one the answer is
-- true as well.
unfoldable pub try_each : (ExprId → Option Bool) → List ExprId → Option Bool
try_each call [] = some true
try_each call (c ∷ cs) = do here ← call c; if here then some true else try_each call cs

-- A condition that is neither an equality nor a connective.
unfoldable pub is_literal : Problem → ExprId → Bool
is_literal p e = is_state_variable p.pool e || is_bool_type p e

-- `is_condition_satisfied` at a negation `e` of `inner`; `call` is the recursive call.
unfoldable pub negation_satisfied :
    Problem → Layer → (ExprId → Option Bool) → ExprId → ExprId → Option Bool
negation_satisfied p layer call e null = some true
negation_satisfied p layer call e (ref i) =
    if is_op p.pool (ref i) ExprOperator.equals
    then some (not (evaluate_ground_equality p (ref i)))
    else if is_op p.pool (ref i) ExprOperator.not
    then elim (get_inner_condition p (ref i)) [ null ↦ some true | ref j ↦ call (ref j) ]
    else if is_op p.pool (ref i) ExprOperator.and
    then some true
    else if is_op p.pool (ref i) ExprOperator.or
    then some true
    else if is_literal p (ref i)
    then some (is_fact_in_layer p layer e)
    else some true

unfoldable pub is_condition_satisfied : Problem → Layer → ℕ → ExprId → Option Bool
is_condition_satisfied p layer zero e = none
is_condition_satisfied p layer (suc fuel) e =
    let call = is_condition_satisfied p layer fuel in
    if is_op p.pool e ExprOperator.equals
    then some (evaluate_ground_equality p e)
    else if is_op p.pool e ExprOperator.not
    then negation_satisfied p layer call e (get_inner_condition p e)
    else if is_op p.pool e ExprOperator.or
    then try_each call (operands p e)
    else if is_op p.pool e ExprOperator.and
    then all_satisfied call (operands p e)
    else if is_literal p e
    then some (is_fact_in_layer p layer e)
    else some true

-- The loop of `extract_cnf_conditions` over the arguments of a conjunction.
unfoldable pub extract_each : (ExprId → Option (List ExprId)) → List ExprId → Option (List ExprId)
extract_each call [] = some []
extract_each call (c ∷ cs) = do here ← call c; rest ← extract_each call cs; some (here ++ rest)

unfoldable pub extract_cnf_conditions : Problem → ℕ → ExprId → Option (List ExprId)
extract_cnf_conditions p zero e = none
extract_cnf_conditions p (suc fuel) e =
    if is_op p.pool e ExprOperator.and
    then extract_each (extract_cnf_conditions p fuel) (arguments p.pool e)
    else if is_kind p.pool e ExprKind.fluent_symbol || is_kind p.pool e ExprKind.function_symbol
    then some []
    else some (e ∷ [])

-- The conditions of an expression, all satisfied in a layer.
unfoldable pub conditions_satisfied : Problem → ℕ → Layer → ExprId → Option Bool
conditions_satisfied p fuel layer e = do
  conditions ← extract_cnf_conditions p fuel e
  all_satisfied (is_condition_satisfied p layer fuel) conditions

unfoldable pub are_preconditions_satisfied : Problem → ℕ → Layer → Action → Option Bool
are_preconditions_satisfied p fuel layer a =
    if a.has_precondition then conditions_satisfied p fuel layer a.precondition_id else some true

-- The actions from position i on.
unfoldable pub compute_applicable_actions :
    Problem → ℕ → Layer → ℕ → List Action → Option (List (ℕ × Action))
compute_applicable_actions p fuel layer i [] = some []
compute_applicable_actions p fuel layer i (a ∷ actions) = do
  here ← are_preconditions_satisfied p fuel layer a
  rest ← compute_applicable_actions p fuel layer (suc i) actions
  some (if here then (i, a) ∷ rest else rest)
