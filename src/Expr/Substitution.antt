-- ===== src/Expr/Substitution.antt =====
-- rantanplan/cpp/src/problem/substitution.hpp and substitution.cpp: replacing parameters
-- (`substitute`) or bound variables (`substitute_vars`) by expressions. The two differ only in the
-- kind of node that is looked up. The recursion takes fuel; `none` is fuel used up or a handle outside
-- the pool.
pub mod Trees
pub mod Correct
pub mod Grounding
mod Tests
use ran_tan_plan.Prelude.{
  ℕ, zero, suc, Bool, true, false, not, ◌||◌, Option, none, some, List, [], ◌∷◌, Text,
  if◌then◌else◌, ◌>>=◌,
}
use ran_tan_plan.Expr.Kinds.{ExprKind, kind_beq}
use ran_tan_plan.Expr.Node.{
  ExprId, null, ref, id_beq, ExprNode, ExprPayload, monostate, bool, int64, double, string,
}
use ran_tan_plan.Expr.Pool.{ExprPool, intern, get, text_beq}

abbrev pub Substitution : Type 0
Substitution = List (Text × ExprId)

-- `subst.find(name)`
pub find_subst : Text → Substitution → Option ExprId
find_subst s [] = none
find_subst s ((name, id) ∷ m) =
    let rest = find_subst s m in if text_beq s name then some id else rest

-- What a node of the kind that is replaced becomes.
pub replacement : Substitution → ExprPayload → ExprId → ExprId
replacement m (string s) e = elim (find_subst s m) [ some r ↦ r | none ↦ e ]
replacement m _ e = e

-- The loop over the children: the new ones, `any_changed` and the pool.
pub new_children :
    (ExprPool → ExprId → Option (ExprId × ExprPool))
    → ExprPool
    → List ExprId
    → Option (List ExprId × Bool × ExprPool)
new_children call p [] = some ([], false, p)
new_children call p (c ∷ cs) = do
  r ← call p c
  rest ← new_children call r.1 cs
  some (r.0 ∷ rest.0, not (id_beq r.0 c) || rest.1, rest.2)

-- The node is made again if a child changed.
pub rebuild : ExprId → ExprNode → List ExprId × Bool × ExprPool → ExprId × ExprPool
rebuild e n (cs, changed, p) = if changed then intern p (record n { children = cs }) else (e, p)

-- A node that is not replaced: a leaf stays, another one is made of the new children.
pub descend :
    ExprPool
    → ExprId
    → ExprNode
    → List ExprId
    → Option (List ExprId × Bool × ExprPool)
    → Option (ExprId × ExprPool)
descend p e n [] deeper = some (e, p)
descend p e n (c ∷ cs) deeper = do r ← deeper; some (rebuild e n r)

pub substitute_kind : ExprKind → Substitution → ℕ → ExprPool → ExprId → Option (ExprId × ExprPool)
substitute_kind k m fuel p null = some (null, p)
substitute_kind k m zero p (ref i) = none
substitute_kind k m (suc fuel) p (ref i) = do
  n ← get p (ref i)
  if kind_beq n.kind k
      then some (replacement m n.payload (ref i), p)
      else descend p (ref i) n n.children (new_children (substitute_kind k m fuel) p n.children)

pub substitute : Substitution → ℕ → ExprPool → ExprId → Option (ExprId × ExprPool)
substitute = substitute_kind ExprKind.parameter

pub substitute_vars : Substitution → ℕ → ExprPool → ExprId → Option (ExprId × ExprPool)
substitute_vars = substitute_kind ExprKind.variable
