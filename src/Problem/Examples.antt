-- ===== src/Problem/Examples.antt =====
-- Two actions that exchange the numbers `x` and `y`: each of them reads what the other one writes.
use ran_tan_plan.Prelude.{ℕ, zero, suc, false, none, some, [], ◌∷◌}
use ran_tan_plan.Expr.Kinds.{ExprKind}
use ran_tan_plan.Expr.Node.{ExprId, null, ref, ExprNode, monostate}
use ran_tan_plan.Expr.Pool.{ExprPool, get, children}
use ran_tan_plan.Expr.Pool.Laws.{IsOrdered}
use ran_tan_plan.Problem.{Problem, Action, EffectKind, TypeKind}

abbrev pub number : ExprNode
number = record {
  kind = ExprKind.state_variable;
  op = none;
  type_id = some 0;
  children = [];
  payload = monostate;
}

abbrev pub numbers : ExprPool
numbers = record { nodes = number ∷ number ∷ []; keys = [] }

abbrev pub assign : ℕ → ExprId → ExprId → Action
assign i f v = record {
  id = i;
  precondition_id = null;
  has_precondition = false;
  effects =
      record {
        kind = EffectKind.assign;
        fluent_id = f;
        value_id = v;
        condition_id = null;
        is_conditional = false;
      }
      ∷ [];
}

-- A number is moved on: `x := y` and `y := z`.
abbrev pub shift : Problem
shift = record {
  pool = record { nodes = number ∷ number ∷ number ∷ []; keys = [] };
  types = TypeKind.int ∷ [];
  grounded_fluents = ref 0 ∷ ref 1 ∷ ref 2 ∷ [];
  actions = assign 0 (ref 0) (ref 1) ∷ assign 1 (ref 1) (ref 2) ∷ [];
  initial_state = [];
  goals = [];
}

pub shift-IsOrdered : IsOrdered shift.pool
unfolding children get
shift-IsOrdered zero c m = absurd m
shift-IsOrdered (suc zero) c m = absurd m
shift-IsOrdered (suc (suc zero)) c m = absurd m
shift-IsOrdered (suc (suc (suc i))) c m = absurd m

abbrev pub exchange : Problem
exchange = record {
  pool = numbers;
  types = TypeKind.int ∷ [];
  grounded_fluents = ref 0 ∷ ref 1 ∷ [];
  actions = assign 0 (ref 0) (ref 1) ∷ assign 1 (ref 1) (ref 0) ∷ [];
  initial_state = [];
  goals = [];
}

pub numbers-IsOrdered : IsOrdered numbers
unfolding children get
numbers-IsOrdered zero c m = absurd m
numbers-IsOrdered (suc zero) c m = absurd m
numbers-IsOrdered (suc (suc i)) c m = absurd m
