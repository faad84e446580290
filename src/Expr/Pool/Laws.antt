-- ===== src/Expr/Pool/Laws.antt =====
-- Interning (`ExprPool::intern`): the pool only grows, holds each expression once, and hands out the
-- handle of the expression that was asked for, but for doubles that print alike.
use ran_tan_plan.Prelude.{
  ℕ, ◌<◌, ◌≡◌, refl, sym, ◌∙◌, subst, ◌≢◌, ◌⊎◌, inl, inr, true, Option, none, some, List, [], ◌∷◌,
  arith, Text, length, get_elem?, In, ==_refl, Bool-cases, Option-cases, get_elem?-append_left,
  get_elem?-append_length, get_elem?-append_cases,
}
use ran_tan_plan.Expr.Kinds.{ExprKind, kind_beq, kind_beq_iff}
use ran_tan_plan.Expr.Node.{ExprId, null, ref, ExprNode, canonical_key}
use ran_tan_plan.Expr.Node.Key.{Similar, Similar-of_key, canonical_key_iff}
use ran_tan_plan.Expr.Pool.{
  ExprPool, text_beq, find_key, append, intern, get, is_kind, on_node, children, node_children,
  empty,
}

text_beq_refl : (s : Text) → text_beq s s ≡ true
unfolding text_beq
text_beq_refl [] = refl
text_beq_refl (c ∷ s) = rw (==_refl c, text_beq_refl s)

text_beq→eq : (s t : Text) → text_beq s t ≡ true → s ≡ t
unfolding text_beq
text_beq→eq [] [] h = refl
text_beq→eq [] (d ∷ t) h = cc
text_beq→eq (c ∷ s) [] h = cc
text_beq→eq (c ∷ s) (d ∷ t) h = ground (arith, text_beq→eq s t)

-- The map of keys and the vector of nodes agree.
pub record IsInterned (p : ExprPool) : Type 0 where
  pub keyed :
      (k : Text) (id : ExprId)
      → find_key k p.keys ≡ some id
      → (i : ℕ) × (n : ExprNode) × (id ≡ ref i)
        × (get_elem? p.nodes i ≡ some n)
        × (canonical_key n ≡ k)
  pub complete :
      (i : ℕ) (n : ExprNode)
      → get_elem? p.nodes i ≡ some n
      → find_key (canonical_key n) p.keys ≡ some (ref i)

pub empty-IsInterned : IsInterned empty
unfolding empty find_key
empty-IsInterned = record { keyed = λ k id h. cc; complete = λ i n h. cc }

find_key-cons :
    (j k : Text) (id : ExprId) (m : List (Text × ExprId)) (r : ExprId)
    → find_key k ((j, id) ∷ m) ≡ some r
    → ((j ≡ k) × (id ≡ r)) ⊎ (find_key k m ≡ some r)
unfolding find_key
find_key-cons j k id m r h = ground (arith, text_beq→eq j k)

find_key_self :
    (k : Text) (id : ExprId) (m : List (Text × ExprId)) → find_key k ((k, id) ∷ m) ≡ some id
unfolding find_key
find_key_self k id m = rw (text_beq_refl k)

find_key_skip :
    (j k : Text) (id : ExprId) (m : List (Text × ExprId))
    → j ≢ k
    → find_key k ((j, id) ∷ m) ≡ find_key k m
unfolding find_key
find_key_skip j k id m h = elim (Bool-cases (text_beq j k)) [
  | inl e ↦ absurd (h (text_beq→eq j k e))
  | inr e ↦ rw e
]

append-IsInterned :
    (p : ExprPool) (n : ExprNode)
    → IsInterned p
    → find_key (canonical_key n) p.keys ≡ none
    → IsInterned (append p (canonical_key n) n).1
unfolding append
append-IsInterned p n v fresh = record {
  keyed = λ k id h. elim (find_key-cons (canonical_key n) k (ref (length p.nodes)) p.keys id h) [
    | inl (same, e) ↦ (length p.nodes, n, sym e, get_elem?-append_length p.nodes n [], same)
    | inr old ↦
        let (i, m, e, at, key) = v.keyed k id old in
        (i, m, e, get_elem?-append_left p.nodes (n ∷ []) i m at, key)
  ];
  complete = λ i m h. elim (get_elem?-append_cases p.nodes n i m h) [
    | inl old ↦
        find_key_skip (canonical_key n) (canonical_key m) _ p.keys
          (λ e. other (v.complete i m old) e)
        ∙ v.complete i m old
    | inr (e, same) ↦ rw (e, ← same) (find_key_self (canonical_key n) (ref (length p.nodes)) p.keys)
  ];
}
  where
    other : {k : Text} {id : ExprId} → find_key k p.keys ≡ some id → canonical_key n ≡ k → ⊥
    other h e = cc

pub intern-IsInterned : (p : ExprPool) (n : ExprNode) → IsInterned p → IsInterned (intern p n).1
unfolding intern
intern-IsInterned p n v = elim (Option-cases (find_key (canonical_key n) p.keys)) [
  | inl e ↦ rw (e, intern) (append-IsInterned p n v e)
  | inr (id, e) ↦ rw (e, intern) v
]

-- Nothing that the pool holds is changed or moved.
pub get-intern :
    (p : ExprPool) (n : ExprNode) (id : ExprId) (m : ExprNode)
    → get p id ≡ some m
    → get (intern p n).1 id ≡ some m
unfolding intern append get
get-intern p n null m h = h
get-intern p n (ref i) m h = elim (Option-cases (find_key (canonical_key n) p.keys)) [
  | inl e ↦ rw (e, intern) (get_elem?-append_left p.nodes (n ∷ []) i m h)
  | inr (id, e) ↦ rw (e, intern) h
]

-- The handle that `intern` returns leads to the node asked for, up to doubles that print alike.
pub get-intern_self :
    (p : ExprPool) (n : ExprNode)
    → IsInterned p
    → (m : ExprNode) × (get (intern p n).1 (intern p n).0 ≡ some m) × Similar m n
unfolding intern append get
get-intern_self p n v = elim (Option-cases (find_key (canonical_key n) p.keys)) [
  | inl e ↦
      (n, rw (e, intern) (get_elem?-append_length p.nodes n []), (canonical_key_iff n n).0 refl)
  | inr (id, e) ↦
      let (i, m, at, node, key) = v.keyed (canonical_key n) id e in
      (m, rw (e, intern, at) node, Similar-of_key m n key)
]

-- A node has one kind.
pub is_kind_unique :
    (p : ExprPool) (id : ExprId) (a b : ExprKind)
    → is_kind p id a ≡ true
    → is_kind p id b ≡ true
    → a ≡ b
unfolding is_kind
is_kind_unique p id a b h k = elim (Option-cases (get p id)) [
  | inl e ↦ absurd (none_not (get p id) a e h)
  | inr (n, e) ↦ one (get p id) n e h k
]
  where
    none_not :
        (o : Option ExprNode) (c : ExprKind)
        → o ≡ none
        → on_node o (λ n. kind_beq n.kind c) ≡ true
        → ⊥
    none_not none c e m = cc
    none_not (some n) c e m = cc

    one :
        (o : Option ExprNode) (n : ExprNode)
        → o ≡ some n
        → on_node o (λ n. kind_beq n.kind a) ≡ true
        → on_node o (λ n. kind_beq n.kind b) ≡ true
        → a ≡ b
    one none n e x y = cc
    one (some m) n e x y = sym ((kind_beq_iff m.kind a).0 x) ∙ (kind_beq_iff m.kind b).0 y

-- The handle lies below a bound.
abbrev pub Below : ℕ → ExprId → Type 0
Below n null = Unit {0}
Below n (ref i) = i < n

-- Children stand before their parents.
abbrev pub IsOrdered : ExprPool → Type 0
IsOrdered p = (i : ℕ) (c : ExprId) → In c (children p (ref i)) → Below i c

In-node_children :
    (o : Option ExprNode) (c : ExprId)
    → In c (node_children o)
    → (n : ExprNode) × (o ≡ some n) × In c n.children
In-node_children none c m = absurd m
In-node_children (some n) c m = (n, refl, m)

append-IsOrdered :
    (p : ExprPool) (n : ExprNode) (key : Text)
    → IsOrdered p
    → ((c : ExprId) → In c n.children → Below (length p.nodes) c)
    → IsOrdered (append p key n).1
unfolding append children get
append-IsOrdered p n key o h i c m =
    let (x, e, at) = In-node_children _ c m in
    elim (get_elem?-append_cases p.nodes n i x e) [
      | inl old ↦ o i c (subst (λ y. In c (node_children y)) (sym old) at)
      | inr (last, same) ↦
          subst (λ k. Below k c) (sym last)
            (h c (subst (λ (y : ExprNode). In c y.children) (sym same) at))
    ]

-- A node whose children are in the pool keeps the order.
pub intern-IsOrdered :
    (p : ExprPool) (n : ExprNode)
    → IsOrdered p
    → ((c : ExprId) → In c n.children → Below (length p.nodes) c)
    → IsOrdered (intern p n).1
unfolding intern
intern-IsOrdered p n o h = elim (Option-cases (find_key (canonical_key n) p.keys)) [
  | inl e ↦ rw (e, intern) (append-IsOrdered p n (canonical_key n) o h)
  | inr (id, e) ↦ rw (e, intern) o
]
