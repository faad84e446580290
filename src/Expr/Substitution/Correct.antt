-- ===== src/Expr/Substitution/Correct.antt =====
-- `substitute` and `substitute_vars` on handles do what substitution on trees does.
use ran_tan_plan.Prelude.{
  ℕ, zero, suc, ◌≤◌, ◌≡◌, refl, sym, ap, ◌∙◌, subst, inl, inr, Bool, true, false, not, ◌||◌, Option,
  none, some, List, [], ◌∷◌, Text, arith, Bool-cases,
}
use ran_tan_plan.Expr.Kinds.{ExprKind, ExprOperator, kind_beq}
use ran_tan_plan.Expr.Node.{
  ExprId, null, ref, id_beq, ExprNode, ExprPayload, monostate, bool, int64, double, string,
}
use ran_tan_plan.Expr.Node.Key.{SamePayload}
use ran_tan_plan.Expr.Node.Equal.{id_beq→eq, SamePayload-trans}
use ran_tan_plan.Expr.Pool.{ExprPool, intern, get}
use ran_tan_plan.Expr.Pool.Laws.{IsInterned}
use ran_tan_plan.Expr.Pool.Sharing.{intern_lem}
use ran_tan_plan.Expr.Substitution.{
  Substitution, find_subst, replacement, new_children, rebuild, descend, substitute_kind,
}
use ran_tan_plan.Expr.Substitution.Trees.{
  Tree, missing, node, Trees, end, cons, height, heights, Denotes, DenotesAll, named, subst_tree,
  subst_trees, Matches, Agrees,
}

-- The second pool has every node of the first at its handle.
abbrev pub Extends : ExprPool → ExprPool → Type 0
Extends p q = (id : ExprId) (n : ExprNode) → get p id ≡ some n → get q id ≡ some n

mutual
  unfolding Denotes DenotesAll

  pub Extends-Denotes :
      (p q : ExprPool) → Extends p q → (e : ExprId) (t : Tree) → Denotes p e t → Denotes q e t
  Extends-Denotes p q x e missing d = d
  Extends-Denotes p q x e (node k o ty v ts) (n, at, ek, eo, et, ev, ds) =
      (n, x e n at, ek, eo, et, ev, Extends-DenotesAll p q x n.children ts ds)

  pub Extends-DenotesAll :
      (p q : ExprPool)
      → Extends p q
      → (cs : List ExprId) (ts : Trees) → DenotesAll p cs ts
      → DenotesAll q cs ts
  Extends-DenotesAll p q x [] end d = d
  Extends-DenotesAll p q x [] (cons t ts) d = d
  Extends-DenotesAll p q x (c ∷ cs) end d = d
  Extends-DenotesAll p q x (c ∷ cs) (cons t ts) (d, ds) =
      (Extends-Denotes p q x c t d, Extends-DenotesAll p q x cs ts ds)

Extends-Agrees :
    (p q : ExprPool) (m : Substitution) (σ : Text → Option Tree)
    → Extends p q
    → Agrees p m σ
    → Agrees q m σ
Extends-Agrees p q m σ x a s = pick (find_subst s m) (σ s) (a s)
  where
    pick : (f : Option ExprId) (t : Option Tree) → Matches p f t → Matches q f t
    pick none none h = h
    pick none (some t) h = h
    pick (some r) none h = h
    pick (some r) (some t) h = Extends-Denotes p q x r t h

-- A node of the kind that is replaced.
named_lem :
    (m : Substitution) (σ : Text → Option Tree) (p : ExprPool) (e : ExprId) (s : Text) (t : Tree)
    → Agrees p m σ
    → Denotes p e t
    → Denotes p (replacement m (string s) e) (named σ (string s) t)
unfolding replacement
named_lem m σ p e s t a d = pick (find_subst s m) (σ s) (a s)
  where
    pick :
        (f : Option ExprId) (r : Option Tree)
        → Matches p f r
        → Denotes p (elim f [ some r ↦ r | none ↦ e ]) (elim r [ some r ↦ r | none ↦ t ])
    pick none none h = d
    pick none (some t) h = absurd h
    pick (some r) none h = absurd h
    pick (some r) (some t) h = h

replacement_lem :
    (m : Substitution) (σ : Text → Option Tree) (p : ExprPool) (e : ExprId) (v w : ExprPayload)
    (t : Tree)
    → Agrees p m σ
    → SamePayload v w
    → Denotes p e t
    → Denotes p (replacement m v e) (named σ w t)
unfolding replacement
replacement_lem m σ p e monostate w t a s d = subst (λ x. Denotes p e (named σ x t)) s d
replacement_lem m σ p e (bool b) w t a s d = subst (λ x. Denotes p e (named σ x t)) s d
replacement_lem m σ p e (int64 z) w t a s d = subst (λ x. Denotes p e (named σ x t)) s d
replacement_lem m σ p e (string name) w t a s d =
    subst (λ x. Denotes p (replacement m (string name) e) (named σ x t)) s
      (named_lem m σ p e name t a d)
replacement_lem m σ p e (double x) monostate t a s d = d
replacement_lem m σ p e (double x) (bool b) t a s d = d
replacement_lem m σ p e (double x) (int64 z) t a s d = d
replacement_lem m σ p e (double x) (double y) t a s d = d
replacement_lem m σ p e (double x) (string name) t a s d = absurd (cc)

-- What `intern` returns stands for the node that was asked for.
pub intern-Denotes :
    (p : ExprPool) (n : ExprNode) (ts : Trees)
    → IsInterned p
    → DenotesAll p n.children ts
    → Denotes (intern p n).1 (intern p n).0 (node n.kind n.op n.type_id n.payload ts)
unfolding Denotes
intern-Denotes p n ts v d =
    let (fine, keeps, (x, found, like)) = intern_lem p n v in
    (
      x,
      found,
      like.kind,
      like.op,
      like.type_id,
      like.payload,
      Extends-DenotesAll p _ keeps x.children ts
          (subst (λ l. DenotesAll p l ts) (sym like.children) d),
    )

-- What a call of the recursion leaves.
pub record Done (p : ExprPool) (t : Tree) (r : ExprId × ExprPool) : Type 0 where
  pub interned : IsInterned r.1
  pub extends : Extends p r.1
  pub denotes : Denotes r.1 r.0 t

record DoneAll (p : ExprPool) (cs : List ExprId) (ts : Trees) (r : List ExprId × Bool × ExprPool)
    : Type 0 where
  interned : IsInterned r.2
  extends : Extends p r.2
  denotes : DenotesAll r.2 r.0 ts
  unchanged : r.1 ≡ false → r.0 ≡ cs

or_left : (a b : Bool) → (a || b) ≡ false → a ≡ false
or_left a b h = ground arith

or_right : (a b : Bool) → (a || b) ≡ false → b ≡ false
or_right a b h = ground arith

rebuild_lem :
    (p : ExprPool) (i : ℕ) (n : ExprNode) (ts : Trees) (k : ExprKind) (o : Option ExprOperator)
    (ty : Option ℕ) (v : ExprPayload) (r : List ExprId × Bool × ExprPool)
    → get p (ref i) ≡ some n
    → n.kind ≡ k
    → n.op ≡ o
    → n.type_id ≡ ty
    → SamePayload n.payload v
    → DoneAll p n.children ts r
    → Done p (node k o ty v ts) (rebuild (ref i) n r)
unfolding rebuild Denotes DenotesAll
rebuild_lem p i n ts k o ty v (cs, true, q) at ek eo et ev d =
    let (fine, keeps, (x, found, like)) = intern_lem q (record n { children = cs }) d.interned in
    record {
      interned = fine;
      extends = λ id y h. keeps id y (d.extends id y h);
      denotes = (
        x,
        found,
        like.kind ∙ ek,
        like.op ∙ eo,
        like.type_id ∙ et,
        SamePayload-trans x.payload n.payload v like.payload ev,
        Extends-DenotesAll q _ keeps x.children ts
            (subst (λ l. DenotesAll q l ts) (sym like.children) d.denotes),
      );
    }
rebuild_lem p i n ts k o ty v (cs, false, q) at ek eo et ev d = record {
  interned = d.interned;
  extends = d.extends;
  denotes = (
    n,
    d.extends (ref i) n at,
    ek,
    eo,
    et,
    ev,
    subst (λ l. DenotesAll q l ts) (d.unchanged refl) d.denotes,
  );
}

module _ (kind : ExprKind) (m : Substitution) (σ : Text → Option Tree) where
  abbrev pub CallOk : (ExprPool → ExprId → Option (ExprId × ExprPool)) → ℕ → Type 0
  CallOk call k =
      (p : ExprPool) (e : ExprId) (t : Tree)
      → IsInterned p
      → Agrees p m σ
      → Denotes p e t
      → height t ≤ k
      → (r : ExprId × ExprPool) × (call p e ≡ some r) × Done p (subst_tree kind σ t) r

  children_lem :
      (call : ExprPool → ExprId → Option (ExprId × ExprPool)) (k : ℕ)
      → CallOk call k
      → (p : ExprPool) (cs : List ExprId) (ts : Trees) → IsInterned p
      → Agrees p m σ
      → DenotesAll p cs ts
      → heights ts ≤ k
      → (r : List ExprId × Bool × ExprPool) × (new_children call p cs ≡ some r)
        × DoneAll p cs (subst_trees kind σ ts) r
  unfolding new_children DenotesAll subst_trees heights
  children_lem call k ok p [] end v a d h = (
    ([], false, p),
    refl,
    record { interned = v; extends = λ id n e. e; denotes = tt; unchanged = λ e. refl },
  )
  children_lem call k ok p [] (cons t ts) v a d h = absurd d
  children_lem call k ok p (c ∷ cs) end v a d h = absurd d
  children_lem call k ok p (c ∷ cs) (cons t ts) v a (d, ds) h =
      let (r, e, one) = ok p c t v a d (omega arith) in
      let (rs, es, all) =
        children_lem call k ok r.1 cs ts one.interned (Extends-Agrees p r.1 m σ one.extends a)
          (Extends-DenotesAll p r.1 one.extends cs ts ds) (omega arith) in
      (
        (r.0 ∷ rs.0, not (id_beq r.0 c) || rs.1, rs.2),
        rw (e, es) refl,
        record {
          interned = all.interned;
          extends = λ id n x. all.extends id n (one.extends id n x);
          denotes = (
            Extends-Denotes r.1 rs.2 all.extends r.0 (subst_tree kind σ t) one.denotes,
            all.denotes,
          );
          unchanged = λ x.
              both (same (id_beq r.0 c) refl (or_left (not (id_beq r.0 c)) rs.1 x))
                (all.unchanged (or_right (not (id_beq r.0 c)) rs.1 x));
        },
      )
    where
      same : {x y : ExprId} (b : Bool) → id_beq x y ≡ b → not b ≡ false → x ≡ y
      same {x} {y} true e h = id_beq→eq x y e
      same false e h = cc

      both : {x y : ExprId} {xs ys : List ExprId} → x ≡ y → xs ≡ ys → x ∷ xs ≡ y ∷ ys
      both e h = cc

  descend_lem :
      (call : ExprPool → ExprId → Option (ExprId × ExprPool)) (k : ℕ)
      → CallOk call k
      → (p : ExprPool) (i : ℕ) (n : ExprNode) (cs : List ExprId) (ts : Trees)
        (o : Option ExprOperator) (ty : Option ℕ) (v : ExprPayload)
      → IsInterned p
      → Agrees p m σ
      → get p (ref i) ≡ some n
      → n.children ≡ cs
      → n.op ≡ o
      → n.type_id ≡ ty
      → SamePayload n.payload v
      → DenotesAll p cs ts
      → heights ts ≤ k
      → (r : ExprId × ExprPool) × (descend p (ref i) n cs (new_children call p cs) ≡ some r)
        × Done p (node n.kind o ty v (subst_trees kind σ ts)) r
  unfolding descend rebuild DenotesAll subst_trees
  descend_lem call k ok p i n [] (cons t ts) o ty v w a at same eo et ev ds h = absurd ds
  descend_lem call k ok p i n [] end o ty v w a at same eo et ev ds h =
      let leaf : DoneAll p n.children end ([], false, p) = record {
        interned = w;
        extends = λ id x e. e;
        denotes = tt;
        unchanged = λ e. sym same;
      } in
      ((ref i, p), refl, rebuild_lem p i n end n.kind o ty v ([], false, p) at refl eo et ev leaf)
  descend_lem call k ok p i n (c ∷ cs) ts o ty v w a at same eo et ev ds h =
      let (r, e, all) = children_lem call k ok p (c ∷ cs) ts w a ds h in
      (
        rebuild (ref i) n r,
        rw e refl,
        rebuild_lem p i n (subst_trees kind σ ts) n.kind o ty v r at refl eo et ev
            (subst (λ l. DoneAll p l (subst_trees kind σ ts) r) (sym same) all),
      )

  pub kind_lem : (fuel : ℕ) → CallOk (substitute_kind kind m fuel) fuel
  unfolding substitute_kind Denotes subst_tree height get
  kind_lem fuel p null missing v a d h =
      ((null, p), refl, record { interned = v; extends = λ id n e. e; denotes = refl })
  kind_lem fuel p null (node k o ty w ts) v a (n, at, _, _, _, _, _) h = absurd (cc)
  kind_lem fuel p (ref i) missing v a d h = absurd (cc)
  kind_lem zero p (ref i) (node k o ty w ts) v a d h = absurd (omega arith)
  kind_lem (suc fuel) p (ref i) (node k o ty w ts) v a (n, at, ek, eo, et, ev, ds) h =
      elim (Bool-cases (kind_beq n.kind kind)) [
        | inl yes' ↦
            let whole : Denotes p (ref i) (node k o ty w ts) = (n, at, ek, eo, et, ev, ds) in
            let yes'' : kind_beq k kind ≡ true = ap (λ x. kind_beq x kind) (sym ek) ∙ yes' in
            (
              (replacement m n.payload (ref i), p),
              rw (at, yes') refl,
              record {
                interned = v;
                extends = λ id x e. e;
                denotes =
                    rw yes''
                      (replacement_lem m σ p (ref i) n.payload w (node k o ty w ts) a ev whole);
              },
            )
        | inr no' ↦
            let no'' : kind_beq k kind ≡ false = ap (λ x. kind_beq x kind) (sym ek) ∙ no' in
            let (r, e, done) =
              descend_lem (substitute_kind kind m fuel) fuel (kind_lem fuel) p i n n.children ts o
                ty w v a at refl eo et ev ds (omega arith) in
            (
              r,
              rw (at, no') e,
              rw no'' (subst (λ x. Done p (node x o ty w (subst_trees kind σ ts)) r) ek done),
            )
      ]
