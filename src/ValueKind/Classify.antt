-- ===== src/ValueKind/Classify.antt =====
-- `classify_value_kind` returns, and its answer means what it says.
use ran_tan_plan.Prelude.{
  ℕ, zero, suc, ◌<◌, ◌≡◌, refl, sym, subst, ◌≢◌, inl, inr, true, false, Option, some, List, [], ◌∷◌,
  arith, In, Bool-cases, length, get_elem?,
}
use ran_tan_plan.Expr.Kinds.{ExprKind}
use ran_tan_plan.Expr.Node.{ExprId, null, ref, ExprNode}
use ran_tan_plan.Expr.Pool.{ExprPool, get, tail, children, node_children}
use ran_tan_plan.Expr.Pool.Laws.{Below, IsOrdered}
use ran_tan_plan.ValueKind.{
  ValueKind, constant, linear, nonlinear, worst, leaf_kind, operator_kind, application_kind,
  kinds_of, is_variable, node_kind, classify_value_kind,
}
use ran_tan_plan.ValueKind.Correct.{
  IsStatic, literal, bound_parameter, bound_variable, IsConstant, missing, leaf, apply, fluent,
  Meaning, AllMeaning, worst-AllConstant, operator_lem,
}

get_elem?_of_lt :
    {A : Type 0} (xs : List A) (i : ℕ) → i < length xs → (a : A) × (get_elem? xs i ≡ some a)
get_elem?_of_lt [] i h = absurd (omega arith)
get_elem?_of_lt (x ∷ xs) zero h = (x, refl)
get_elem?_of_lt (x ∷ xs) (suc i) h = get_elem?_of_lt xs i (omega arith)

get_of_lt : (p : ExprPool) (i : ℕ) → i < length p.nodes → (n : ExprNode) × (get p (ref i) ≡ some n)
unfolding get
get_of_lt p i h = get_elem?_of_lt p.nodes i h

child_of :
    (p : ExprPool) (i : ℕ) (n : ExprNode) (c : ExprId)
    → get p (ref i) ≡ some n
    → In c n.children
    → In c (children p (ref i))
unfolding children
child_of p i n c at m = subst (λ y. In c (node_children y)) (sym at) m

is_variable→eq : (k : ExprKind) → is_variable k ≡ true → k ≡ ExprKind.state_variable
unfolding is_variable
is_variable→eq ExprKind.state_variable h = refl
is_variable→eq _ h = cc

not_variable : (k : ExprKind) → is_variable k ≡ false → k ≢ ExprKind.state_variable
unfolding is_variable
not_variable k h e = cc

module _ (p : ExprPool) (i : ℕ) (n : ExprNode) (at : get p (ref i) ≡ some n) where
  leaf_lem : Meaning p (ref i) (leaf_kind n.kind)
  unfolding leaf_kind
  leaf_lem = pick n.kind refl
    where
      static : (k : ExprKind) → n.kind ≡ k → IsStatic k → IsConstant p (ref i)
      static k e s = leaf n at (subst IsStatic (sym e) s)

      pick : (k : ExprKind) → n.kind ≡ k → Meaning p (ref i) (leaf_kind k)
      pick ExprKind.constant e = static _ e literal
      pick ExprKind.parameter e = static _ e bound_parameter
      pick ExprKind.variable e = static _ e bound_variable
      pick ExprKind.state_variable e = fluent n at (inl e)
      pick ExprKind.fluent_symbol e = fluent n at (inr e)
      pick ExprKind.unknown e = tt
      pick ExprKind.function_symbol e = tt
      pick ExprKind.function_application e = tt

  application_lem :
      (ks : List ValueKind)
      → n.kind ≢ ExprKind.state_variable
      → AllMeaning p (tail n.children) ks
      → Meaning p (ref i) (application_kind n.op ks)
  unfolding application_kind
  application_lem ks v a = pick (worst ks) refl
    where
      pick :
          (k : ValueKind)
          → worst ks ≡ k
          → Meaning p (ref i) (elim k [
            | constant ↦ constant
            | linear ↦ operator_kind n.op ks
            | nonlinear ↦ operator_kind n.op ks
          ])
      pick constant e = apply n at v (worst-AllConstant p (tail n.children) ks a e)
      pick linear e = operator_lem p i n at n.op ks refl a (λ h. cc)
      pick nonlinear e = operator_lem p i n at n.op ks refl a (λ h. cc)

  -- The arguments have kinds, so the node has one.
  node_lem :
      (cs : List ExprId) (r : Option (List ValueKind)) (ks : List ValueKind)
      → r ≡ some ks
      → AllMeaning p (tail n.children) ks
      → (k : ValueKind) × (node_kind n cs r ≡ some k) × Meaning p (ref i) k
  unfolding node_kind
  node_lem [] r ks e a = (leaf_kind n.kind, refl, leaf_lem)
  node_lem (c ∷ cs) r ks e a = elim (Bool-cases (is_variable n.kind)) [
    | inl v ↦ (linear, rw v, fluent n at (inl (is_variable→eq n.kind v)))
    | inr v ↦ (application_kind n.op ks, rw (v, e), application_lem ks (not_variable n.kind v) a)
  ]

kinds_lem :
    (p : ExprPool) (call : ExprId → Option ValueKind) (es : List ExprId)
    → ((e : ExprId) → In e es → (k : ValueKind) × (call e ≡ some k) × Meaning p e k)
    → (ks : List ValueKind) × (kinds_of call es ≡ some ks) × AllMeaning p es ks
unfolding kinds_of
kinds_lem p call [] h = ([], refl, tt)
kinds_lem p call (e ∷ es) h =
    let (k, one, means) = h e (inl refl) in
    let (ks, rest, all) = kinds_lem p call es (λ x m. h x (inr m)) in
    (k ∷ ks, rw (one, rest), (means, all))

-- In a pool where children stand before their parents, with more fuel than the handle,
-- `classify_value_kind` gives a kind for every handle of the pool and for the null handle; if the
-- kind is constant then no state variable is reached through arguments, and if it is linear then the
-- expression is built from state variables by sums, differences, and multiples and quotients by
-- constant expressions.
pub classify_value_kind_lem :
    (p : ExprPool) (fuel : ℕ) (e : ExprId)
    → IsOrdered p
    → Below (length p.nodes) e
    → Below fuel e
    → (k : ValueKind) × (classify_value_kind p fuel e ≡ some k) × Meaning p e k
unfolding classify_value_kind
classify_value_kind_lem p zero null o h b = (constant, refl, missing)
classify_value_kind_lem p (suc fuel) null o h b = (constant, refl, missing)
classify_value_kind_lem p zero (ref i) o h b = absurd (omega arith)
classify_value_kind_lem p (suc fuel) (ref i) o h b =
    let (n, at) = get_of_lt p i h in
    let (ks, e, all) = kinds_lem p (classify_value_kind p fuel) (tail n.children) (λ c m.
      let l = o i c (child_of p i n c at (in_tail n.children c m)) in
      classify_value_kind_lem p fuel c o (below c _ h l) (lower c _ b l)) in
    let (k, same, means) = node_lem p i n at n.children _ ks e all in (k, rw at same, means)
  where
    in_tail : (cs : List ExprId) (c : ExprId) → In c (tail cs) → In c cs
    in_tail [] c m = absurd m
    in_tail (d ∷ cs) c m = inr m

    lower : (c : ExprId) (k : ℕ) → i < suc k → Below i c → Below k c
    lower null k l m = tt
    lower (ref c) k l m = omega arith

    below : (c : ExprId) (k : ℕ) → i < k → Below i c → Below k c
    below null k l m = tt
    below (ref c) k l m = omega arith
