-- ===== src/Expr/Substitution/Tests.antt =====
-- Replacing the parameter `x` of `(x)` by an object `a`.
use ran_tan_plan.Prelude.{
  ℕ, ◌≤◌, ◌≡◌, refl, Bool, true, false, Option, none, some, [], ◌∷◌, Text, arith, if◌then◌else◌,
}
use ran_tan_plan.Expr.Kinds.{ExprKind, kind_beq}
use ran_tan_plan.Expr.Node.{ExprId, ExprNode, string, monostate}
use ran_tan_plan.Expr.Pool.{ExprPool, empty, intern, text_beq}
use ran_tan_plan.Expr.Pool.Laws.{IsInterned, empty-IsInterned, intern-IsInterned, get-intern}
use ran_tan_plan.Expr.Substitution.{Substitution, find_subst, substitute, substitute_vars}
use ran_tan_plan.Expr.Substitution.Trees.{
  Tree, node, end, cons, height, heights, Denotes, DenotesAll, subst_tree, subst_trees, Agrees,
  Matches,
}
use ran_tan_plan.Expr.Substitution.Correct.{Done, intern-Denotes, Extends-Denotes}
use ran_tan_plan.Expr.Substitution.Grounding.{substitute_lem, substitute_vars_lem}

abbrev leaf : ExprKind → ℕ → ExprNode
leaf k c = record { kind = k; op = none; type_id = none; children = []; payload = string (c ∷ []) }

abbrev over : ExprId → ExprNode
over id = record {
  kind = ExprKind.state_variable;
  op = none;
  type_id = none;
  children = id ∷ [];
  payload = monostate;
}

abbrev leaf_tree : ExprKind → ℕ → Tree
leaf_tree k c = node k none none (string (c ∷ [])) end

abbrev over_tree : Tree → Tree
over_tree t = node ExprKind.state_variable none none monostate (cons t end)

-- The object, then the parameter or variable, then the fluent of it.
abbrev object : ExprId × ExprPool
object = intern empty (leaf ExprKind.constant b'a')

abbrev name : ExprKind → ExprId × ExprPool
name k = intern object.1 (leaf k b'x')

abbrev fluent : ExprKind → ExprId × ExprPool
fluent k = intern (name k).1 (over (name k).0)

object-IsInterned : IsInterned object.1
object-IsInterned = intern-IsInterned empty (leaf ExprKind.constant b'a') empty-IsInterned

name-IsInterned : (k : ExprKind) → IsInterned (name k).1
name-IsInterned k = intern-IsInterned object.1 (leaf k b'x') object-IsInterned

fluent-Denotes : (k : ExprKind) → Denotes (fluent k).1 (fluent k).0 (over_tree (leaf_tree k b'x'))
unfolding DenotesAll
fluent-Denotes k =
    intern-Denotes (name k).1 (over (name k).0) (cons (leaf_tree k b'x') end) (name-IsInterned k)
      (intern-Denotes object.1 (leaf k b'x') end object-IsInterned tt, tt)

abbrev x_by_a : Substitution
x_by_a = (b'x' ∷ [], object.0) ∷ []

abbrev x_by_tree : Text → Option Tree
x_by_tree s = if text_beq s (b'x' ∷ []) then some (leaf_tree ExprKind.constant b'a') else none

x-Agrees : (k : ExprKind) → Agrees (fluent k).1 x_by_a x_by_tree
unfolding find_subst DenotesAll
x-Agrees k s = pick (text_beq s (b'x' ∷ []))
  where
    a_there : Denotes (fluent k).1 object.0 (leaf_tree ExprKind.constant b'a')
    a_there =
        Extends-Denotes object.1 (fluent k).1
          (λ id n e.
            get-intern (name k).1 (over (name k).0) id n (get-intern object.1 (leaf k b'x') id n e))
          object.0 (leaf_tree ExprKind.constant b'a')
          (intern-Denotes empty (leaf ExprKind.constant b'a') end empty-IsInterned tt)

    pick :
        (b : Bool)
        → Matches
            (fluent k).1
            (if b then some object.0 else none)
            (if b then some (leaf_tree ExprKind.constant b'a') else none)
    pick true = a_there
    pick false = tt

small : (k : ExprKind) → height (over_tree (leaf_tree k b'x')) ≤ 2
unfolding height heights
small k = omega arith

substitute_lem_example :
    (r : ExprId × ExprPool) × (substitute x_by_a 2
        (fluent ExprKind.parameter).1
        (fluent ExprKind.parameter).0
      ≡ some r)
    × Done
        (fluent ExprKind.parameter).1
        (subst_tree ExprKind.parameter x_by_tree (over_tree (leaf_tree ExprKind.parameter b'x')))
        r
substitute_lem_example =
    substitute_lem x_by_a x_by_tree 2 (fluent ExprKind.parameter).1 (fluent ExprKind.parameter).0
      (over_tree (leaf_tree ExprKind.parameter b'x'))
      (intern-IsInterned _ _ (name-IsInterned ExprKind.parameter)) (x-Agrees ExprKind.parameter)
      (fluent-Denotes ExprKind.parameter) (small ExprKind.parameter)

substitute_vars_lem_example :
    (r : ExprId × ExprPool) × (substitute_vars x_by_a 2
        (fluent ExprKind.variable).1
        (fluent ExprKind.variable).0
      ≡ some r)
    × Done
        (fluent ExprKind.variable).1
        (subst_tree ExprKind.variable x_by_tree (over_tree (leaf_tree ExprKind.variable b'x')))
        r
substitute_vars_lem_example =
    substitute_vars_lem x_by_a x_by_tree 2 (fluent ExprKind.variable).1 (fluent ExprKind.variable).0
      (over_tree (leaf_tree ExprKind.variable b'x'))
      (intern-IsInterned _ _ (name-IsInterned ExprKind.variable)) (x-Agrees ExprKind.variable)
      (fluent-Denotes ExprKind.variable) (small ExprKind.variable)

-- The tree that comes out has the object in the parameter's place.
replaced :
    subst_tree ExprKind.parameter x_by_tree (over_tree (leaf_tree ExprKind.parameter b'x'))
    ≡ over_tree (leaf_tree ExprKind.constant b'a')
unfolding subst_tree subst_trees kind_beq text_beq
replaced = refl
