-- ===== src/Expr/Substitution/Trees.antt =====
-- Expressions as trees: what a handle of the pool stands for, and substitution on trees.
use ran_tan_plan.Prelude.{ℕ, suc, ◌≡◌, Option, none, some, List, [], ◌∷◌, Text, if◌then◌else◌, max}
use ran_tan_plan.Expr.Kinds.{ExprKind, ExprOperator, kind_beq}
use ran_tan_plan.Expr.Node.{
  ExprId, null, ExprNode, ExprPayload, monostate, bool, int64, double, string,
}
use ran_tan_plan.Expr.Node.Key.{SamePayload}
use ran_tan_plan.Expr.Pool.{ExprPool, get}
use ran_tan_plan.Expr.Substitution.{Substitution, find_subst}

mutual
  pub data Tree : Type 0 where
    missing : Tree
    node : ExprKind → Option ExprOperator → Option ℕ → ExprPayload → Trees → Tree

  pub data Trees : Type 0 where
    end : Trees
    cons : Tree → Trees → Trees

unfoldable mutual
  pub height : Tree → ℕ
  height missing = 0
  height (node k o t v ts) = suc (heights ts)

  pub heights : Trees → ℕ
  heights end = 0
  heights (cons t ts) = max (height t) (heights ts)

unfoldable mutual
  -- The handle stands for the tree; a double of the tree may be one that prints alike.
  pub Denotes : ExprPool → ExprId → Tree → Type 0
  Denotes p e missing = e ≡ null
  Denotes p e (node k o t v ts) =
      (n : ExprNode) × (get p e ≡ some n)
      × (n.kind ≡ k)
      × (n.op ≡ o)
      × (n.type_id ≡ t)
      × SamePayload n.payload v
      × DenotesAll p n.children ts

  pub DenotesAll : ExprPool → List ExprId → Trees → Type 0
  DenotesAll p [] end = Unit {0}
  DenotesAll p [] (cons t ts) = ⊥
  DenotesAll p (c ∷ cs) end = ⊥
  DenotesAll p (c ∷ cs) (cons t ts) = Denotes p c t × DenotesAll p cs ts

-- What a name stands for replaces the leaf that has it.
abbrev pub named : (Text → Option Tree) → ExprPayload → Tree → Tree
named σ (string s) t = elim (σ s) [ some r ↦ r | none ↦ t ]
named σ monostate t = t
named σ (bool b) t = t
named σ (int64 z) t = t
named σ (double d) t = t

unfoldable mutual
  pub subst_tree : ExprKind → (Text → Option Tree) → Tree → Tree
  subst_tree kind σ missing = missing
  subst_tree kind σ (node k o t v ts) =
      let deeper = subst_trees kind σ ts in
      if kind_beq k kind then named σ v (node k o t v ts) else node k o t v deeper

  pub subst_trees : ExprKind → (Text → Option Tree) → Trees → Trees
  subst_trees kind σ end = end
  subst_trees kind σ (cons t ts) = cons (subst_tree kind σ t) (subst_trees kind σ ts)

-- The map of the program and the one on trees have the same names, for the same expressions.
abbrev pub Matches : ExprPool → Option ExprId → Option Tree → Type 0
Matches p none none = Unit {0}
Matches p (some r) (some t) = Denotes p r t
Matches p _ _ = ⊥

abbrev pub Agrees : ExprPool → Substitution → (Text → Option Tree) → Type 0
Agrees p m σ = (s : Text) → Matches p (find_subst s m) (σ s)
