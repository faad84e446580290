-- ===== src/Expr/Kinds.antt =====
-- rantanplan/cpp/src/problem/expr_enums.hpp: the kinds of expressions and the operators, each with
-- the number that the C++ enumeration gives it.
use ran_tan_plan.Prelude.{
  ℕ, ◌≡◌, refl, sym, ap, ◌∙◌, ◌↔◌, Bool, true, ◌||◌, [], ◌∷◌, get_or, ◌==◌, ==_iff, ==_refl,
}

pub data ExprKind : Type 0 where
  unknown constant parameter fluent_symbol function_symbol : ExprKind
  state_variable function_application variable : ExprKind

pub kind_code : ExprKind → ℕ
kind_code unknown = 0
kind_code constant = 1
kind_code parameter = 2
kind_code fluent_symbol = 3
kind_code function_symbol = 4
kind_code state_variable = 5
kind_code function_application = 6
kind_code variable = 7

pub data ExprOperator : Type 0 where
  plus minus multiply divide modulo absolute maximum minimum : ExprOperator
  equals less_equal less_than greater_equal greater_than : ExprOperator
  and or not implies iff : ExprOperator
  set_member set_add set_remove set_union set_intersect set_difference set_constant : ExprOperator
  set_cardinality set_subseteq set_disjoint : ExprOperator
  array_read array_write array_constant : ExprOperator
  count : ExprOperator
  unknown : ExprOperator

pub op_code : ExprOperator → ℕ
op_code plus = 0
op_code minus = 1
op_code multiply = 2
op_code divide = 3
op_code modulo = 4
op_code absolute = 5
op_code maximum = 6
op_code minimum = 7
op_code equals = 8
op_code less_equal = 9
op_code less_than = 10
op_code greater_equal = 11
op_code greater_than = 12
op_code and = 13
op_code or = 14
op_code not = 15
op_code implies = 16
op_code iff = 17
op_code set_member = 18
op_code set_add = 19
op_code set_remove = 20
op_code set_union = 21
op_code set_intersect = 22
op_code set_difference = 23
op_code set_constant = 24
op_code set_cardinality = 25
op_code set_subseteq = 26
op_code set_disjoint = 27
op_code array_read = 28
op_code array_write = 29
op_code array_constant = 30
op_code count = 31
op_code unknown = 32

unfoldable pub kind_beq : ExprKind → ExprKind → Bool
unfolding kind_code
kind_beq a b = kind_code a == kind_code b

unfoldable pub op_beq : ExprOperator → ExprOperator → Bool
unfolding op_code
op_beq a b = op_code a == op_code b

-- The codes are read back, so no two enumerators share one.
kind_of_code : ℕ → ExprKind
kind_of_code n =
    get_or
      (ExprKind.unknown ∷ ExprKind.constant ∷ ExprKind.parameter ∷ ExprKind.fluent_symbol
        ∷ ExprKind.function_symbol ∷ ExprKind.state_variable ∷ ExprKind.function_application
        ∷ ExprKind.variable ∷ [])
      n ExprKind.unknown

op_of_code : ℕ → ExprOperator
op_of_code n =
    get_or
      (ExprOperator.plus ∷ ExprOperator.minus ∷ ExprOperator.multiply ∷ ExprOperator.divide
        ∷ ExprOperator.modulo ∷ ExprOperator.absolute ∷ ExprOperator.maximum ∷ ExprOperator.minimum
        ∷ ExprOperator.equals ∷ ExprOperator.less_equal ∷ ExprOperator.less_than
        ∷ ExprOperator.greater_equal ∷ ExprOperator.greater_than ∷ ExprOperator.and
        ∷ ExprOperator.or ∷ ExprOperator.not ∷ ExprOperator.implies ∷ ExprOperator.iff
        ∷ ExprOperator.set_member ∷ ExprOperator.set_add ∷ ExprOperator.set_remove
        ∷ ExprOperator.set_union ∷ ExprOperator.set_intersect ∷ ExprOperator.set_difference
        ∷ ExprOperator.set_constant ∷ ExprOperator.set_cardinality ∷ ExprOperator.set_subseteq
        ∷ ExprOperator.set_disjoint ∷ ExprOperator.array_read ∷ ExprOperator.array_write
        ∷ ExprOperator.array_constant ∷ ExprOperator.count ∷ ExprOperator.unknown ∷ [])
      n ExprOperator.unknown

kind_of_code-kind_code : (k : ExprKind) → kind_of_code (kind_code k) ≡ k
unfolding kind_of_code kind_code
kind_of_code-kind_code unknown = refl
kind_of_code-kind_code constant = refl
kind_of_code-kind_code parameter = refl
kind_of_code-kind_code fluent_symbol = refl
kind_of_code-kind_code function_symbol = refl
kind_of_code-kind_code state_variable = refl
kind_of_code-kind_code function_application = refl
kind_of_code-kind_code variable = refl

pub kind_code-injective : (a b : ExprKind) → kind_code a ≡ kind_code b → a ≡ b
kind_code-injective a b h =
    sym (kind_of_code-kind_code a) ∙ ap kind_of_code h ∙ kind_of_code-kind_code b

pub kind_beq_iff : (a b : ExprKind) → (kind_beq a b ≡ true) ↔ (a ≡ b)
unfolding kind_beq
kind_beq_iff a b =
    (λ h. kind_code-injective a b ((==_iff _ _).0 h), λ e. rw e (==_refl (kind_code b)))

op_of_code-op_code : (k : ExprOperator) → op_of_code (op_code k) ≡ k
unfolding op_of_code op_code
op_of_code-op_code plus = refl
op_of_code-op_code minus = refl
op_of_code-op_code multiply = refl
op_of_code-op_code divide = refl
op_of_code-op_code modulo = refl
op_of_code-op_code absolute = refl
op_of_code-op_code maximum = refl
op_of_code-op_code minimum = refl
op_of_code-op_code equals = refl
op_of_code-op_code less_equal = refl
op_of_code-op_code less_than = refl
op_of_code-op_code greater_equal = refl
op_of_code-op_code greater_than = refl
op_of_code-op_code and = refl
op_of_code-op_code or = refl
op_of_code-op_code not = refl
op_of_code-op_code implies = refl
op_of_code-op_code iff = refl
op_of_code-op_code set_member = refl
op_of_code-op_code set_add = refl
op_of_code-op_code set_remove = refl
op_of_code-op_code set_union = refl
op_of_code-op_code set_intersect = refl
op_of_code-op_code set_difference = refl
op_of_code-op_code set_constant = refl
op_of_code-op_code set_cardinality = refl
op_of_code-op_code set_subseteq = refl
op_of_code-op_code set_disjoint = refl
op_of_code-op_code array_read = refl
op_of_code-op_code array_write = refl
op_of_code-op_code array_constant = refl
op_of_code-op_code count = refl
op_of_code-op_code unknown = refl

pub op_code-injective : (a b : ExprOperator) → op_code a ≡ op_code b → a ≡ b
op_code-injective a b h = sym (op_of_code-op_code a) ∙ ap op_of_code h ∙ op_of_code-op_code b

pub op_beq_iff : (a b : ExprOperator) → (op_beq a b ≡ true) ↔ (a ≡ b)
unfolding op_beq
op_beq_iff a b = (λ h. op_code-injective a b ((==_iff _ _).0 h), λ e. rw e (==_refl (op_code b)))

-- `is_arithmetic_operator`
pub is_arithmetic_operator : ExprOperator → Bool
unfolding op_beq
is_arithmetic_operator o =
    op_beq o plus
    || op_beq o minus
    || op_beq o multiply
    || op_beq o divide
    || op_beq o modulo
    || op_beq o absolute
    || op_beq o maximum
    || op_beq o minimum

-- `is_comparison_operator`
pub is_comparison_operator : ExprOperator → Bool
unfolding op_beq
is_comparison_operator o =
    op_beq o equals
    || op_beq o less_equal
    || op_beq o less_than
    || op_beq o greater_equal
    || op_beq o greater_than

-- `is_logical_operator`
pub is_logical_operator : ExprOperator → Bool
unfolding op_beq
is_logical_operator o =
    op_beq o and || op_beq o or || op_beq o not || op_beq o implies || op_beq o iff
