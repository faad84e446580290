-- ===== src/Expr/Substitution/Grounding.antt =====
-- The contracts of `substitute` and `substitute_vars`.
use ran_tan_plan.Prelude.{ℕ, ◌≤◌, ◌≡◌, Option, some, Text}
use ran_tan_plan.Expr.Kinds.{ExprKind}
use ran_tan_plan.Expr.Node.{ExprId}
use ran_tan_plan.Expr.Pool.{ExprPool}
use ran_tan_plan.Expr.Pool.Laws.{IsInterned}
use ran_tan_plan.Expr.Substitution.{Substitution, substitute, substitute_vars}
use ran_tan_plan.Expr.Substitution.Trees.{Tree, height, Denotes, subst_tree, Agrees}
use ran_tan_plan.Expr.Substitution.Correct.{Done, kind_lem}

-- In a pool whose key table and nodes agree, with a map whose entries stand for the trees of σ and
-- fuel for the height of the expression, `substitute` returns: the pool still agrees with its key
-- table and has every old node at its handle, and the handle returned stands for the tree of the
-- expression with every parameter that σ names replaced.
pub substitute_lem :
    (m : Substitution) (σ : Text → Option Tree) (fuel : ℕ) (p : ExprPool) (e : ExprId) (t : Tree)
    → IsInterned p
    → Agrees p m σ
    → Denotes p e t
    → height t ≤ fuel
    → (r : ExprId × ExprPool) × (substitute m fuel p e ≡ some r)
      × Done p (subst_tree ExprKind.parameter σ t) r
unfolding substitute
substitute_lem m σ fuel p e t v a d h = kind_lem ExprKind.parameter m σ fuel p e t v a d h

-- Under the same conditions `substitute_vars` returns, and does to bound variables what `substitute`
-- does to parameters.
pub substitute_vars_lem :
    (m : Substitution) (σ : Text → Option Tree) (fuel : ℕ) (p : ExprPool) (e : ExprId) (t : Tree)
    → IsInterned p
    → Agrees p m σ
    → Denotes p e t
    → height t ≤ fuel
    → (r : ExprId × ExprPool) × (substitute_vars m fuel p e ≡ some r)
      × Done p (subst_tree ExprKind.variable σ t) r
unfolding substitute_vars
substitute_vars_lem m σ fuel p e t v a d h = kind_lem ExprKind.variable m σ fuel p e t v a d h
