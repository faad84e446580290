-- ===== src/H2/Build/Tests.antt =====
-- The checker on a small problem: one action swaps a token from `a` to `b`.
use ran_tan_plan.Prelude.{
  ℕ, zero, suc, ◌≡◌, refl, Bool, true, false, none, some, [], ◌∷◌, arith, In, inl, inr, ◌||◌, sym,
  subst, ◌++◌,
}
use ran_tan_plan.Expr.Kinds.{ExprKind, ExprOperator, kind_beq, op_beq}
use ran_tan_plan.Expr.Node.{ExprId, null, ref, id_beq, ExprNode, monostate, bool}
use ran_tan_plan.Expr.Pool.{
  ExprPool, is_state_variable, is_function_application, is_op, is_kind, children, is_bool_constant,
  get,
}
use ran_tan_plan.Problem.{
  Problem, Action, EffectExpression, EffectKind, TypeKind, is_bool_type, is_assign,
}
use ran_tan_plan.H2.{
  ActionData, mark_co_reachable, note, all_reachable, all_co_reachable, all_pairs, applicable,
  mark_reachable, pair_up, compatible, persist, add_pairs, keep_pair, keep_precondition, fire,
  visit, round, fixpoint,
}
use ran_tan_plan.H2.Build.{
  Checker, index_of, bool_facts, collect_list, is_conjunction, collect, added, deleted, concat_map,
  action_data, all_data, no_marks, initially_true, init_facts, init_reachable, init_pair,
  init_pairs, initial_tables, compute, mutex_pair_count, count_pairs, count_with,
}
use ran_tan_plan.H2.Build.World.{Valuation}
use ran_tan_plan.Expr.Pool.Laws.{Below, IsOrdered}
use ran_tan_plan.H2.Build.Total.{compute_returns}
use ran_tan_plan.H2.Build.Repeated.{compute-repeated}
use ran_tan_plan.H2.Diagonal.{NoDiagonal}

abbrev leaf : ExprKind → ExprNode
leaf k = record { kind = k; op = none; type_id = some 0; children = []; payload = monostate }

abbrev variable : ℕ → ExprNode
variable i = record {
  kind = ExprKind.state_variable;
  op = none;
  type_id = some 0;
  children = ref i ∷ [];
  payload = monostate;
}

abbrev constant : Bool → ExprNode
constant b = record {
  kind = ExprKind.constant;
  op = none;
  type_id = none;
  children = [];
  payload = bool b;
}

-- 1 is the fluent `a`, 3 the fluent `b`, 4 and 5 are the constants.
abbrev swap_pool : ExprPool
swap_pool = record {
  nodes =
      leaf ExprKind.fluent_symbol
      ∷ variable 0
      ∷ leaf ExprKind.fluent_symbol
      ∷ variable 2
      ∷ constant true
      ∷ constant false
      ∷ [];
  keys = [];
}

abbrev assign : ExprId → ExprId → EffectExpression
assign f v = record {
  kind = EffectKind.assign;
  fluent_id = f;
  value_id = v;
  condition_id = null;
  is_conditional = false;
}

abbrev swap_action : Action
swap_action = record {
  id = 0;
  precondition_id = ref 1;
  has_precondition = true;
  effects = assign (ref 3) (ref 4) ∷ assign (ref 1) (ref 5) ∷ [];
}

abbrev swap : Problem
swap = record {
  pool = swap_pool;
  types = TypeKind.bool ∷ [];
  grounded_fluents = ref 1 ∷ ref 3 ∷ [];
  actions = swap_action ∷ [];
  goals = [];
  initial_state =
      record { fluent_id = ref 1; value_id = ref 4 }
      ∷ record { fluent_id = ref 3; value_id = ref 5 }
      ∷ [];
}

abbrev swap_checker : Checker
swap_checker = record {
  index_to_fact = ref 1 ∷ ref 3 ∷ [];
  actions = record { preconditions = 0 ∷ []; add_effects = 1 ∷ []; del_effects = 0 ∷ [] } ∷ [];
  tables = record {
    reachable = true ∷ true ∷ [];
    co_reachable = (false ∷ false ∷ []) ∷ (false ∷ false ∷ []) ∷ [];
    changed = false;
  };
}

-- The same action with the precondition `a and a`.
abbrev repeated : Problem
repeated = record swap {
  pool = record swap_pool {
    nodes =
        swap_pool.nodes
        ++ leaf ExprKind.function_symbol
          ∷ record {
            kind = ExprKind.function_application;
            op = some ExprOperator.and;
            type_id = some 0;
            children = ref 6 ∷ ref 1 ∷ ref 1 ∷ [];
            payload = monostate;
          }
          ∷ [];
  };
  actions = record swap_action { precondition_id = ref 7 } ∷ [];
}

abbrev repeated_data : ActionData
repeated_data = record { preconditions = 0 ∷ 0 ∷ []; add_effects = 1 ∷ []; del_effects = 0 ∷ [] }

-- `b` is not found reachable.
abbrev repeated_checker : Checker
repeated_checker = record {
  index_to_fact = ref 1 ∷ ref 3 ∷ [];
  actions = repeated_data ∷ [];
  tables = record {
    reachable = true ∷ false ∷ [];
    co_reachable = (false ∷ false ∷ []) ∷ (false ∷ false ∷ []) ∷ [];
    changed = false;
  };
}

repeated_made : compute repeated 9 ≡ some repeated_checker
unfolding compute bool_facts all_data action_data collect collect_list is_conjunction index_of added
    deleted concat_map no_marks initially_true init_facts init_reachable init_pair init_pairs
    initial_tables fixpoint round visit fire keep_precondition keep_pair add_pairs persist
    compatible pair_up mark_reachable applicable all_pairs all_co_reachable all_reachable note
    mark_co_reachable is_bool_type is_assign is_bool_constant is_state_variable
    is_function_application is_op is_kind children get id_beq kind_beq op_beq
repeated_made = refl

compute-repeated_example :
    (applicable repeated_checker.tables repeated_data ≡ false) × NoDiagonal repeated_checker.tables
compute-repeated_example =
    compute-repeated repeated 9 repeated_checker repeated_data repeated_made (λ d. d.0 (inl refl))

abbrev token_at_a : Valuation
token_at_a e = id_beq e (ref 1) || id_beq e (ref 4)

place : ExprId → ℕ
place null = 0
place (ref i) = suc i

mutex_pair_count_swap : mutex_pair_count swap_checker ≡ 1
unfolding mutex_pair_count count_pairs count_with
mutex_pair_count_swap = refl

swap_pool-IsOrdered : IsOrdered swap_pool
unfolding children get
swap_pool-IsOrdered zero c m = absurd m
swap_pool-IsOrdered (suc zero) c (inl e) = subst (Below 1) (sym e) (omega arith)
swap_pool-IsOrdered (suc zero) c (inr m) = absurd m
swap_pool-IsOrdered (suc (suc zero)) c m = absurd m
swap_pool-IsOrdered (suc (suc (suc zero))) c (inl e) = subst (Below 3) (sym e) (omega arith)
swap_pool-IsOrdered (suc (suc (suc zero))) c (inr m) = absurd m
swap_pool-IsOrdered (suc (suc (suc (suc zero)))) c m = absurd m
swap_pool-IsOrdered (suc (suc (suc (suc (suc zero))))) c m = absurd m
swap_pool-IsOrdered (suc (suc (suc (suc (suc (suc i)))))) c m = absurd m

swap-Below : (a : Action) → In a swap.actions → Below 9 a.precondition_id
swap-Below a (inl e) = subst (λ (x : Action). Below 9 x.precondition_id) (sym e) (omega arith)
swap-Below a (inr m) = absurd m

compute_returns_example : (c : Checker) × (compute swap 9 ≡ some c)
compute_returns_example = compute_returns swap 9 swap_pool-IsOrdered swap-Below
