-- ===== src/Expr/Pool/Sharing.antt =====
-- What `ExprPool::intern` promises to its callers: the pool only grows, the handle leads to the
-- expression, and two expressions get one handle exactly when they are alike.
use ran_tan_plan.Prelude.{ℕ, ◌≡◌, refl, sym, ap, ◌∙◌, subst, ◌↔◌, Option, some, eq_of_some}
use ran_tan_plan.Expr.Node.{ExprId, null, ref, ExprNode, canonical_key, Double, double, double_text}
use ran_tan_plan.Expr.Node.Key.{Similar, Similar-of_key, canonical_key_iff}
use ran_tan_plan.Expr.Pool.{ExprPool, find_key, intern, get, intern_double_constant, constant_node}
use ran_tan_plan.Expr.Pool.Laws.{IsInterned, intern-IsInterned, get-intern, get-intern_self}

-- In a pool whose key table and nodes agree, `intern` keeps them in agreement, keeps every node at
-- its handle, and returns a handle at which there is a node like the one asked for.
pub intern_lem :
    (p : ExprPool) (n : ExprNode)
    → IsInterned p
    → IsInterned (intern p n).1
      × ((id : ExprId) (m : ExprNode) → get p id ≡ some m → get (intern p n).1 id ≡ some m)
      × ((m : ExprNode) × (get (intern p n).1 (intern p n).0 ≡ some m) × Similar m n)
intern_lem p n v = (intern-IsInterned p n v, get-intern p n, get-intern_self p n v)

-- A node whose key the pool has is given the handle of the first one, and nothing is added.
pub intern_found :
    (p : ExprPool) (n m : ExprNode) (id : ExprId)
    → IsInterned p
    → get p id ≡ some m
    → Similar m n
    → intern p n ≡ (id, p)
unfolding intern get
intern_found p n m null v at s = cc
intern_found p n m (ref i) v at s =
    let key = ap (λ k. find_key k p.keys) (sym ((canonical_key_iff m n).1 s)) ∙ v.complete i m at in
    rw (key, intern) refl

Similar-sym : (m n : ExprNode) → Similar m n → Similar n m
Similar-sym m n s = Similar-of_key n m (sym ((canonical_key_iff m n).1 s))

Similar-trans : (m n o : ExprNode) → Similar m n → Similar n o → Similar m o
Similar-trans m n o s t =
    Similar-of_key m o ((canonical_key_iff m n).1 s ∙ (canonical_key_iff n o).1 t)

-- In a pool whose key table and nodes agree, two nodes that are interned one after the other get one
-- handle exactly when they agree in kind, operator, type, children and payload, where doubles agree
-- if they print alike.
pub intern_same_iff :
    (p : ExprPool) (m n : ExprNode)
    → IsInterned p
    → ((intern p m).0 ≡ (intern (intern p m).1 n).0) ↔ Similar m n
intern_same_iff p m n v =
    let (m', at, like) = get-intern_self p m v in
    let v' = intern-IsInterned p m v in
    let (n', at', like') = get-intern_self (intern p m).1 n v' in
    (
      λ same.
          let moved = get-intern (intern p m).1 n (intern p m).0 m' at in
          let one : m' ≡ n' =
            eq_of_some (sym moved ∙ ap (get (intern (intern p m).1 n).1) same ∙ at') in
          Similar-trans m m' n (Similar-sym m' m like) (subst (λ x. Similar x n) (sym one) like'),
      λ s.
          ap (λ (r : ExprId × ExprPool). r.0)
            (sym (
              intern_found (intern p m).1 n m' (intern p m).0 v' at (Similar-trans m' m n like s))),
    )

-- In such a pool two handles of nodes that are alike are one.
pub same_handle :
    (p : ExprPool) (i j : ExprId) (m n : ExprNode)
    → IsInterned p
    → get p i ≡ some m
    → get p j ≡ some n
    → (i ≡ j) ↔ Similar m n
same_handle p i j m n v a b = (
  λ e.
      let one : m ≡ n = eq_of_some (sym a ∙ ap (get p) e ∙ b) in
      (canonical_key_iff m n).0 (ap canonical_key one),
  λ s.
      ap (λ (r : ExprId × ExprPool). r.0)
        (sym (intern_found p n m i v a s)
          ∙ intern_found p n n j v b ((canonical_key_iff n n).0 refl)),
)

-- In such a pool two double constants that print alike to six digits share one node: the second one
-- is read back as the first.
pub intern_double_collision :
    (p : ExprPool) (x y : Double) (t : Option ℕ)
    → IsInterned p
    → double_text x ≡ double_text y
    → intern_double_constant (intern_double_constant p x t).1 y t ≡ intern_double_constant p x t
unfolding intern_double_constant constant_node
intern_double_collision p x y t v e =
    let nx = constant_node t (double x) in
    let (m, at, like) = get-intern_self p nx v in
    let alike : Similar nx (constant_node t (double y)) = record {
      kind = refl;
      op = refl;
      type_id = refl;
      children = refl;
      payload = e;
    } in
    intern_found (intern p nx).1 (constant_node t (double y)) m (intern p nx).0
      (intern-IsInterned p nx v) at (Similar-trans m nx _ like alike)
