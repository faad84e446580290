-- ===== src/Expr/Operators.antt =====
-- rantanplan/cpp/src/problem/expr_enums.hpp: the names of the operators. The chain of comparisons in
-- `string_to_expr_operator` is a table that is searched from the top.
mod Tests
use ran_tan_plan.Prelude.{
  ◌≡◌, refl, sym, ap, ◌∙◌, ◌≢◌, Bool, true, List, [], ◌∷◌, ◌++◌, Text, if◌then◌else◌, ==_refl, not,
  ◌==◌,
}
use ran_tan_plan.Expr.Kinds.{ExprOperator, op_beq, op_beq_iff}
use ran_tan_plan.Expr.Pool.{text_beq}

-- What follows `up:` in the notation of the unified planning library.
up_names : List (Text × ExprOperator)
up_names =
    (b'p' ∷ b'l' ∷ b'u' ∷ b's' ∷ [], ExprOperator.plus)
    ∷ (b'm' ∷ b'i' ∷ b'n' ∷ b'u' ∷ b's' ∷ [], ExprOperator.minus)
    ∷ (b't' ∷ b'i' ∷ b'm' ∷ b'e' ∷ b's' ∷ [], ExprOperator.multiply)
    ∷ (b'd' ∷ b'i' ∷ b'v' ∷ [], ExprOperator.divide)
    ∷ (b'm' ∷ b'o' ∷ b'd' ∷ [], ExprOperator.modulo)
    ∷ (b'a' ∷ b'b' ∷ b's' ∷ [], ExprOperator.absolute)
    ∷ (b'm' ∷ b'a' ∷ b'x' ∷ [], ExprOperator.maximum)
    ∷ (b'm' ∷ b'i' ∷ b'n' ∷ [], ExprOperator.minimum)
    ∷ (b'e' ∷ b'q' ∷ b'u' ∷ b'a' ∷ b'l' ∷ b's' ∷ [], ExprOperator.equals)
    ∷ (b'l' ∷ b'e' ∷ [], ExprOperator.less_equal)
    ∷ (b'l' ∷ b't' ∷ [], ExprOperator.less_than)
    ∷ (b'g' ∷ b'e' ∷ [], ExprOperator.greater_equal)
    ∷ (b'g' ∷ b't' ∷ [], ExprOperator.greater_than)
    ∷ (b'a' ∷ b'n' ∷ b'd' ∷ [], ExprOperator.and)
    ∷ (b'o' ∷ b'r' ∷ [], ExprOperator.or)
    ∷ (b'n' ∷ b'o' ∷ b't' ∷ [], ExprOperator.not)
    ∷ (b'i' ∷ b'm' ∷ b'p' ∷ b'l' ∷ b'i' ∷ b'e' ∷ b's' ∷ [], ExprOperator.implies)
    ∷ (b'i' ∷ b'f' ∷ b'f' ∷ [], ExprOperator.iff)
    ∷ (
      b's' ∷ b'e' ∷ b't' ∷ b'_' ∷ b'm' ∷ b'e' ∷ b'm' ∷ b'b' ∷ b'e' ∷ b'r' ∷ [],
      ExprOperator.set_member,
    )
    ∷ (b's' ∷ b'e' ∷ b't' ∷ b'_' ∷ b'a' ∷ b'd' ∷ b'd' ∷ [], ExprOperator.set_add)
    ∷ (
      b's' ∷ b'e' ∷ b't' ∷ b'_' ∷ b'r' ∷ b'e' ∷ b'm' ∷ b'o' ∷ b'v' ∷ b'e' ∷ [],
      ExprOperator.set_remove,
    )
    ∷ (b's' ∷ b'e' ∷ b't' ∷ b'_' ∷ b'u' ∷ b'n' ∷ b'i' ∷ b'o' ∷ b'n' ∷ [], ExprOperator.set_union)
    ∷ (
      b's' ∷ b'e' ∷ b't' ∷ b'_' ∷ b'i' ∷ b'n' ∷ b't' ∷ b'e' ∷ b'r' ∷ b's' ∷ b'e' ∷ b'c' ∷ b't' ∷ [],
      ExprOperator.set_intersect,
    )
    ∷ (
      b's' ∷ b'e' ∷ b't' ∷ b'_' ∷ b'd' ∷ b'i' ∷ b'f' ∷ b'f' ∷ b'e' ∷ b'r' ∷ b'e' ∷ b'n' ∷ b'c'
          ∷ b'e' ∷ [],
      ExprOperator.set_difference,
    )
    ∷ (
      b's' ∷ b'e' ∷ b't' ∷ b'_' ∷ b'c' ∷ b'o' ∷ b'n' ∷ b's' ∷ b't' ∷ b'a' ∷ b'n' ∷ b't' ∷ [],
      ExprOperator.set_constant,
    )
    ∷ (
      b's' ∷ b'e' ∷ b't' ∷ b'_' ∷ b's' ∷ b'u' ∷ b'b' ∷ b's' ∷ b'e' ∷ b't' ∷ b'e' ∷ b'q' ∷ [],
      ExprOperator.set_subseteq,
    )
    ∷ (
      b's' ∷ b'e' ∷ b't' ∷ b'_' ∷ b'd' ∷ b'i' ∷ b's' ∷ b'j' ∷ b'o' ∷ b'i' ∷ b'n' ∷ b't' ∷ [],
      ExprOperator.set_disjoint,
    )
    ∷ (
      b's' ∷ b'e' ∷ b't' ∷ b'_' ∷ b'c' ∷ b'a' ∷ b'r' ∷ b'd' ∷ b'i' ∷ b'n' ∷ b'a' ∷ b'l' ∷ b'i'
          ∷ b't' ∷ b'y' ∷ [],
      ExprOperator.set_cardinality,
    )
    ∷ (
      b'a' ∷ b'r' ∷ b'r' ∷ b'a' ∷ b'y' ∷ b'_' ∷ b'r' ∷ b'e' ∷ b'a' ∷ b'd' ∷ [],
      ExprOperator.array_read,
    )
    ∷ (
      b'a' ∷ b'r' ∷ b'r' ∷ b'a' ∷ b'y' ∷ b'_' ∷ b'w' ∷ b'r' ∷ b'i' ∷ b't' ∷ b'e' ∷ [],
      ExprOperator.array_write,
    )
    ∷ (
      b'a' ∷ b'r' ∷ b'r' ∷ b'a' ∷ b'y' ∷ b'_' ∷ b'c' ∷ b'o' ∷ b'n' ∷ b's' ∷ b't' ∷ b'a' ∷ b'n'
          ∷ b't' ∷ [],
      ExprOperator.array_constant,
    )
    ∷ (b'c' ∷ b'o' ∷ b'u' ∷ b'n' ∷ b't' ∷ [], ExprOperator.count)
    ∷ []

-- The notation of PDDL.
standard_names : List (Text × ExprOperator)
standard_names =
    (b'+' ∷ [], ExprOperator.plus)
    ∷ (b'-' ∷ [], ExprOperator.minus)
    ∷ (b'*' ∷ [], ExprOperator.multiply)
    ∷ (b'/' ∷ [], ExprOperator.divide)
    ∷ (b'm' ∷ b'o' ∷ b'd' ∷ [], ExprOperator.modulo)
    ∷ (b'a' ∷ b'b' ∷ b's' ∷ [], ExprOperator.absolute)
    ∷ (b'm' ∷ b'a' ∷ b'x' ∷ [], ExprOperator.maximum)
    ∷ (b'm' ∷ b'i' ∷ b'n' ∷ [], ExprOperator.minimum)
    ∷ (b'=' ∷ [], ExprOperator.equals)
    ∷ (b'=' ∷ b'=' ∷ [], ExprOperator.equals)
    ∷ (b'<' ∷ b'=' ∷ [], ExprOperator.less_equal)
    ∷ (b'<' ∷ [], ExprOperator.less_than)
    ∷ (b'>' ∷ b'=' ∷ [], ExprOperator.greater_equal)
    ∷ (b'>' ∷ [], ExprOperator.greater_than)
    ∷ (b'a' ∷ b'n' ∷ b'd' ∷ [], ExprOperator.and)
    ∷ (b'o' ∷ b'r' ∷ [], ExprOperator.or)
    ∷ (b'n' ∷ b'o' ∷ b't' ∷ [], ExprOperator.not)
    ∷ (b'=' ∷ b'>' ∷ [], ExprOperator.implies)
    ∷ (b'<' ∷ b'=' ∷ b'>' ∷ [], ExprOperator.iff)
    ∷ []

look_up : Text → List (Text × ExprOperator) → ExprOperator
look_up s [] = ExprOperator.unknown
look_up s ((name, o) ∷ names) = let rest = look_up s names in if text_beq s name then o else rest

abbrev prefixed : List (Text × ExprOperator) → List (Text × ExprOperator)
prefixed [] = []
prefixed ((name, o) ∷ names) = (b'u' ∷ b'p' ∷ b':' ∷ name, o) ∷ prefixed names

pub string_to_expr_operator : Text → ExprOperator
string_to_expr_operator s = look_up s (prefixed up_names ++ standard_names)

pub expr_operator_to_string : ExprOperator → Text
expr_operator_to_string ExprOperator.plus = b'+' ∷ []
expr_operator_to_string ExprOperator.minus = b'-' ∷ []
expr_operator_to_string ExprOperator.multiply = b'*' ∷ []
expr_operator_to_string ExprOperator.divide = b'/' ∷ []
expr_operator_to_string ExprOperator.modulo = b'm' ∷ b'o' ∷ b'd' ∷ []
expr_operator_to_string ExprOperator.absolute = b'a' ∷ b'b' ∷ b's' ∷ []
expr_operator_to_string ExprOperator.maximum = b'm' ∷ b'a' ∷ b'x' ∷ []
expr_operator_to_string ExprOperator.minimum = b'm' ∷ b'i' ∷ b'n' ∷ []
expr_operator_to_string ExprOperator.equals = b'=' ∷ []
expr_operator_to_string ExprOperator.less_equal = b'<' ∷ b'=' ∷ []
expr_operator_to_string ExprOperator.less_than = b'<' ∷ []
expr_operator_to_string ExprOperator.greater_equal = b'>' ∷ b'=' ∷ []
expr_operator_to_string ExprOperator.greater_than = b'>' ∷ []
expr_operator_to_string ExprOperator.and = b'a' ∷ b'n' ∷ b'd' ∷ []
expr_operator_to_string ExprOperator.or = b'o' ∷ b'r' ∷ []
expr_operator_to_string ExprOperator.not = b'n' ∷ b'o' ∷ b't' ∷ []
expr_operator_to_string ExprOperator.implies = b'=' ∷ b'>' ∷ []
expr_operator_to_string ExprOperator.iff = b'=' ∷ []
expr_operator_to_string ExprOperator.set_member =
    b'u' ∷ b'p' ∷ b':' ∷ b's' ∷ b'e' ∷ b't' ∷ b'_' ∷ b'm' ∷ b'e' ∷ b'm' ∷ b'b' ∷ b'e' ∷ b'r' ∷ []
expr_operator_to_string ExprOperator.set_add =
    b'u' ∷ b'p' ∷ b':' ∷ b's' ∷ b'e' ∷ b't' ∷ b'_' ∷ b'a' ∷ b'd' ∷ b'd' ∷ []
expr_operator_to_string ExprOperator.set_remove =
    b'u' ∷ b'p' ∷ b':' ∷ b's' ∷ b'e' ∷ b't' ∷ b'_' ∷ b'r' ∷ b'e' ∷ b'm' ∷ b'o' ∷ b'v' ∷ b'e' ∷ []
expr_operator_to_string ExprOperator.set_union =
    b'u' ∷ b'p' ∷ b':' ∷ b's' ∷ b'e' ∷ b't' ∷ b'_' ∷ b'u' ∷ b'n' ∷ b'i' ∷ b'o' ∷ b'n' ∷ []
expr_operator_to_string ExprOperator.set_intersect =
    b'u' ∷ b'p' ∷ b':' ∷ b's' ∷ b'e' ∷ b't' ∷ b'_' ∷ b'i' ∷ b'n' ∷ b't' ∷ b'e' ∷ b'r' ∷ b's' ∷ b'e'
    ∷ b'c' ∷ b't' ∷ []
expr_operator_to_string ExprOperator.set_difference =
    b'u' ∷ b'p' ∷ b':' ∷ b's' ∷ b'e' ∷ b't' ∷ b'_' ∷ b'd' ∷ b'i' ∷ b'f' ∷ b'f' ∷ b'e' ∷ b'r' ∷ b'e'
    ∷ b'n' ∷ b'c' ∷ b'e' ∷ []
expr_operator_to_string ExprOperator.set_constant =
    b'u' ∷ b'p' ∷ b':' ∷ b's' ∷ b'e' ∷ b't' ∷ b'_' ∷ b'c' ∷ b'o' ∷ b'n' ∷ b's' ∷ b't' ∷ b'a' ∷ b'n'
    ∷ b't' ∷ []
expr_operator_to_string ExprOperator.set_cardinality =
    b'u' ∷ b'p' ∷ b':' ∷ b's' ∷ b'e' ∷ b't' ∷ b'_' ∷ b'c' ∷ b'a' ∷ b'r' ∷ b'd' ∷ b'i' ∷ b'n' ∷ b'a'
    ∷ b'l' ∷ b'i' ∷ b't' ∷ b'y' ∷ []
expr_operator_to_string ExprOperator.set_subseteq =
    b'u' ∷ b'p' ∷ b':' ∷ b's' ∷ b'e' ∷ b't' ∷ b'_' ∷ b's' ∷ b'u' ∷ b'b' ∷ b's' ∷ b'e' ∷ b't' ∷ b'e'
    ∷ b'q' ∷ []
expr_operator_to_string ExprOperator.set_disjoint =
    b'u' ∷ b'p' ∷ b':' ∷ b's' ∷ b'e' ∷ b't' ∷ b'_' ∷ b'd' ∷ b'i' ∷ b's' ∷ b'j' ∷ b'o' ∷ b'i' ∷ b'n'
    ∷ b't' ∷ []
expr_operator_to_string ExprOperator.count =
    b'u' ∷ b'p' ∷ b':' ∷ b'c' ∷ b'o' ∷ b'u' ∷ b'n' ∷ b't' ∷ []
expr_operator_to_string ExprOperator.array_read =
    b'u' ∷ b'p' ∷ b':' ∷ b'a' ∷ b'r' ∷ b'r' ∷ b'a' ∷ b'y' ∷ b'_' ∷ b'r' ∷ b'e' ∷ b'a' ∷ b'd' ∷ []
expr_operator_to_string ExprOperator.array_write =
    b'u' ∷ b'p' ∷ b':' ∷ b'a' ∷ b'r' ∷ b'r' ∷ b'a' ∷ b'y' ∷ b'_' ∷ b'w' ∷ b'r' ∷ b'i' ∷ b't' ∷ b'e'
    ∷ []
expr_operator_to_string ExprOperator.array_constant =
    b'u' ∷ b'p' ∷ b':' ∷ b'a' ∷ b'r' ∷ b'r' ∷ b'a' ∷ b'y' ∷ b'_' ∷ b'c' ∷ b'o' ∷ b'n' ∷ b's' ∷ b't'
    ∷ b'a' ∷ b'n' ∷ b't' ∷ []
expr_operator_to_string ExprOperator.unknown = []

pub map_up_operator : Text → Text
map_up_operator name =
    let op = string_to_expr_operator name in
    if op_beq op ExprOperator.unknown then name else expr_operator_to_string op

pub is_standard_operator : Text → Bool
is_standard_operator s = not (op_beq (string_to_expr_operator s) ExprOperator.unknown)

-- The operator that the printed name of an operator is read as.
abbrev pub reread : ExprOperator → ExprOperator
reread ExprOperator.iff = ExprOperator.equals
reread o = o

-- The printed name of an operator is read as that operator, but for the equivalence, which prints as
-- the equality does and is read as one.
pub operator_round_trip :
    (o : ExprOperator) → string_to_expr_operator (expr_operator_to_string o) ≡ reread o
unfolding string_to_expr_operator expr_operator_to_string look_up up_names standard_names text_beq
operator_round_trip ExprOperator.iff = refl
operator_round_trip _ = refl
