-- ===== src/Expr/Pool.antt =====
-- rantanplan/cpp/src/problem/expr_pool.hpp and expr_pool.cpp: the pool of interned expressions. A
-- read outside the pool, which the source excludes by an assertion, gives `none`, and a test of such
-- a node `false`. The 32-bit id wraps only past 2 ^ 31 nodes, which is out of the model.
pub mod Laws
pub mod Sharing
mod Tests
use ran_tan_plan.Prelude.{
  ℕ, zero, suc, ◌-◌, Bool, true, false, ◌&&◌, ◌||◌, not, Option, none, some, List, [], ◌∷◌, ◌++◌,
  length, get_elem?, ◌==◌, if◌then◌else◌, Text, ℤ,
}
use ran_tan_plan.Expr.Kinds.{ExprKind, ExprOperator, kind_beq, op_beq}
use ran_tan_plan.Expr.Node.{
  ExprId, null, ref, valid, Double, ExprPayload, monostate, bool, int64, double, string, ExprNode,
  canonical_key,
}

unfoldable pub text_beq : Text → Text → Bool
text_beq [] [] = true
text_beq [] (d ∷ t) = false
text_beq (c ∷ s) [] = false
text_beq (c ∷ s) (d ∷ t) = (c == d) && text_beq s t

pub record ExprPool : Type 0 where
  pub nodes : List ExprNode
  pub keys : List (Text × ExprId)

pub empty : ExprPool
empty = record { nodes = []; keys = [] }

-- `intern_.find(key)`
pub find_key : Text → List (Text × ExprId) → Option ExprId
unfolding text_beq
find_key k [] = none
find_key k ((j, id) ∷ m) = if text_beq j k then some id else find_key k m

append : ExprPool → Text → ExprNode → ExprId × ExprPool
append p key n = (
  ref (length p.nodes),
  record { nodes = p.nodes ++ n ∷ []; keys = (key, ref (length p.nodes)) ∷ p.keys },
)

pub intern : ExprPool → ExprNode → ExprId × ExprPool
unfolding find_key append
intern p n = elim (find_key (canonical_key n) p.keys) [
  | some id ↦ (id, p)
  | none ↦ append p (canonical_key n) n
]

unfoldable pub get : ExprPool → ExprId → Option ExprNode
get p null = none
get p (ref i) = get_elem? p.nodes i

-- What a test says of a node that may be missing.
abbrev pub on_node : Option ExprNode → (ExprNode → Bool) → Bool
on_node none test = false
on_node (some n) test = test n

unfoldable pub is_kind : ExprPool → ExprId → ExprKind → Bool
unfolding get kind_beq
is_kind p id k = on_node (get p id) (λ n. kind_beq n.kind k)

abbrev pub some_op_beq : Option ExprOperator → ExprOperator → Bool
some_op_beq none o = false
some_op_beq (some a) o = op_beq a o

unfoldable pub is_op : ExprPool → ExprId → ExprOperator → Bool
unfolding get op_beq
is_op p id o = on_node (get p id) (λ n. some_op_beq n.op o)

unfoldable pub is_constant : ExprPool → ExprId → Bool
unfolding is_kind
is_constant p id = is_kind p id ExprKind.constant

unfoldable pub is_state_variable : ExprPool → ExprId → Bool
unfolding is_kind
is_state_variable p id = is_kind p id ExprKind.state_variable

unfoldable pub is_function_application : ExprPool → ExprId → Bool
unfolding is_kind
is_function_application p id = is_kind p id ExprKind.function_application

abbrev pub node_children : Option ExprNode → List ExprId
node_children none = []
node_children (some n) = n.children

unfoldable pub children : ExprPool → ExprId → List ExprId
unfolding get
children p id = node_children (get p id)

abbrev pub tail : List ExprId → List ExprId
tail [] = []
tail (c ∷ cs) = cs

unfoldable pub arguments : ExprPool → ExprId → List ExprId
unfolding children
arguments p id = tail (children p id)

unfoldable pub has_head_and_arguments : ExprPool → ExprId → Bool
unfolding is_function_application is_state_variable
has_head_and_arguments p id = is_function_application p id || is_state_variable p id

unfoldable pub argument_count : ExprPool → ExprId → ℕ
unfolding children
argument_count p id = length (children p id) - 1

abbrev is_nil : List ExprId → Bool
is_nil [] = true
is_nil (c ∷ cs) = false

abbrev is_bool_payload : Bool → ExprPayload → Bool
is_bool_payload true (bool b) = b
is_bool_payload false (bool b) = not b
is_bool_payload v p = false

-- `is_true_constant` and `is_false_constant`
unfoldable pub is_bool_constant : Bool → ExprPool → ExprId → Bool
unfolding get kind_beq
is_bool_constant v p id =
    on_node (get p id)
      (λ n. is_nil n.children && (kind_beq n.kind ExprKind.constant && is_bool_payload v n.payload))

constant_node : Option ℕ → ExprPayload → ExprNode
constant_node t v = record {
  kind = ExprKind.constant;
  op = none;
  type_id = t;
  children = [];
  payload = v;
}

pub intern_int_constant : ExprPool → ℤ → ExprId × ExprPool
unfolding intern constant_node
intern_int_constant p v = intern p (constant_node none (int64 v))

pub intern_double_constant : ExprPool → Double → Option ℕ → ExprId × ExprPool
unfolding intern constant_node
intern_double_constant p v t = intern p (constant_node t (double v))

pub intern_bool_constant : ExprPool → Bool → ExprId × ExprPool
unfolding intern constant_node
intern_bool_constant p v = intern p (constant_node none (bool v))
