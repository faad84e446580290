-- ===== src/Relaxed/Satisfied.antt =====
-- A condition that holds in a state is satisfied in a layer that has the facts of the state.
use ran_tan_plan.Prelude.{
  ℕ, zero, suc, ◌≡◌, refl, sym, ap, ◌∙◌, subst, ◌⊎◌, inl, inr, Bool, true, false, not, ◌&&◌, Option,
  some, List, [], ◌∷◌, In, Bool-cases, if◌then◌else◌, eq_of_some, true-ne-false, and_left,
  and_right, >>=-eq-some,
}
use ran_tan_plan.Expr.Kinds.{ExprOperator}
use ran_tan_plan.Expr.Node.{ExprId, null, ref}
use ran_tan_plan.Expr.Pool.{is_op, get, is_state_variable, is_kind, is_constant}
use ran_tan_plan.Problem.{Problem, is_bool_type}
use ran_tan_plan.Relaxed.Condition.{
  Layer, equal_constants, get_inner_condition, operands, is_fact_in_layer, evaluate_ground_equality,
  all_satisfied, try_each, is_literal, negation_satisfied, is_condition_satisfied,
}
use ran_tan_plan.Relaxed.World.{
  Valuation, IsCoherent, Covers, Part, conjunct, negated, is_plain, IsRecognized,
}
use ran_tan_plan.Relaxed.Facts.{positive_in_layer, negative_in_layer}

pub branch :
    {A : Type 0} (c : Bool) (x y : A) {z : A}
    → (if c then x else y) ≡ z
    → ((c ≡ true) × (x ≡ z)) ⊎ ((c ≡ false) × (y ≡ z))
branch true x y h = inl (refl, h)
branch false x y h = inr (refl, h)

answered : {x : Bool} (b : Bool) → some x ≡ some b → x ≡ true → b ≡ true
answered b h k = sym (eq_of_some h) ∙ k

try_each_lem :
    (call : ExprId → Option Bool) (cs : List ExprId) (b : Bool)
    → try_each call cs ≡ some b
    → b ≡ true
unfolding try_each
try_each_lem call [] b h = answered b h refl
try_each_lem call (c ∷ cs) b h =
    let (here, e, k) = >>=-eq-some (call c) _ h in
    elim (branch here (some true) (try_each call cs) k) [
      | inl (_, x) ↦ answered b x refl
      | inr (_, x) ↦ try_each_lem call cs b x
    ]

pub all_satisfied_lem :
    (call : ExprId → Option Bool) (cs : List ExprId) (b : Bool)
    → ((c : ExprId) → In c cs → (x : Bool) → call c ≡ some x → x ≡ true)
    → all_satisfied call cs ≡ some b
    → b ≡ true
unfolding all_satisfied
all_satisfied_lem call [] b ok h = answered b h refl
all_satisfied_lem call (c ∷ cs) b ok h =
    let (here, e, k) = >>=-eq-some (call c) _ h in
    elim (branch here (all_satisfied call cs) (some false) k) [
      | inl (_, x) ↦ all_satisfied_lem call cs b (λ d m. ok d (inr m)) x
      | inr (no', x) ↦ absurd (true-ne-false (ok c (inl refl) here e) no')
    ]

module _ (p : Problem) (v : Valuation) (layer : Layer) (root : ExprId) (coherent : IsCoherent p v)
    (covers : Covers p v layer)
    (plain_fluents : (e : ExprId)
      → In e p.grounded_fluents
      → is_op p.pool e ExprOperator.not ≡ false)
    (known : IsRecognized p root) where
  sides_lem :
      (e : ExprId) (cs : List ExprId)
      → is_op p.pool e ExprOperator.equals ≡ true
      → v e ≡ true
      → operands p e ≡ cs
      → equal_constants p cs ≡ true
  sides_lem e [] k holds h = refl
  sides_lem e (a ∷ []) k holds h = refl
  sides_lem e (a ∷ b ∷ c ∷ cs) k holds h = refl
  sides_lem e (a ∷ b ∷ []) k holds h =
      elim (Bool-cases (is_constant p.pool a && is_constant p.pool b)) [
        | inr q ↦ rw q refl
        | inl q ↦ rw q (
            sym
              (coherent.equality e a b k h (and_left _ _ q) (and_right (is_constant p.pool a) _ q))
            ∙ holds)
      ]

  equality_lem :
      (e : ExprId)
      → is_op p.pool e ExprOperator.equals ≡ true
      → v e ≡ true
      → evaluate_ground_equality p e ≡ true
  unfolding evaluate_ground_equality
  equality_lem e k holds = sides_lem e (operands p e) k holds refl

  negated_equality_lem :
      (e : ExprId) (i : ℕ)
      → Part p root e
      → is_op p.pool e ExprOperator.not ≡ true
      → get_inner_condition p e ≡ ref i
      → is_op p.pool (ref i) ExprOperator.equals ≡ true
      → v (ref i) ≡ false
      → evaluate_ground_equality p (ref i) ≡ false
  unfolding evaluate_ground_equality
  negated_equality_lem e i part k inner q fails =
      let (a, b, sides, ca, cb) =
        known.negated_equality e part k
          (subst (λ x. is_op p.pool x ExprOperator.equals ≡ true) (sym inner) q) in
      let sides' : operands p (ref i) ≡ a ∷ b ∷ [] = ap (operands p) (sym inner) ∙ sides in
      rw (sides', ca, cb) (sym (coherent.equality (ref i) a b q sides' ca cb) ∙ fails)

  -- What the recursive call gives for the parts that hold.
  abbrev CallOk : (ExprId → Option Bool) → Type 0
  CallOk call = (c : ExprId) → Part p root c → v c ≡ true → (x : Bool) → call c ≡ some x → x ≡ true

  double_lem :
      (call : ExprId → Option Bool) (i : ℕ) (c : ExprId) (b : Bool)
      → CallOk call
      → Part p root (ref i)
      → is_op p.pool (ref i) ExprOperator.not ≡ true
      → v (ref i) ≡ false
      → get_inner_condition p (ref i) ≡ c
      → elim c [ null ↦ some true | ref j ↦ call (ref j) ] ≡ some b
      → b ≡ true
  double_lem call i null b ok part k fails inner h = answered b h refl
  double_lem call i (ref j) b ok part k fails inner h =
      ok (ref j) (subst (λ x. Part p root x) inner (negated part k))
        (not_false (v (ref j)) (sym (coherent.negation (ref i) j k inner) ∙ fails)) b h
    where
      not_false : (x : Bool) → not x ≡ false → x ≡ true
      not_false true e = refl
      not_false false e = cc

  negation_lem :
      (call : ExprId → Option Bool) (e inner : ExprId) (b : Bool)
      → CallOk call
      → Part p root e
      → is_op p.pool e ExprOperator.not ≡ true
      → v e ≡ true
      → get_inner_condition p e ≡ inner
      → negation_satisfied p layer call e inner ≡ some b
      → b ≡ true
  unfolding negation_satisfied
  negation_lem call e null b ok part k holds inner h = answered b h refl
  negation_lem call e (ref i) b ok part k holds inner h =
      let fails : v (ref i) ≡ false =
        not_true (v (ref i)) (sym (coherent.negation e i k inner) ∙ holds) in
      let part' : Part p root (ref i) = subst (λ x. Part p root x) inner (negated part k) in
      elim (branch (is_op p.pool (ref i) ExprOperator.equals) _ _ h) [
        | inl (q, x) ↦ answered b x (ap not (negated_equality_lem e i part k inner q fails))
        | inr (q1, h1) ↦ elim (branch (is_op p.pool (ref i) ExprOperator.not) _ _ h1) [
          | inl (q, x) ↦ double_lem call i (get_inner_condition p (ref i)) b ok part' q fails refl x
          | inr (q2, h2) ↦ elim (branch (is_op p.pool (ref i) ExprOperator.and) _ _ h2) [
            | inl (q, x) ↦ answered b x refl
            | inr (q3, h3) ↦ elim (branch (is_op p.pool (ref i) ExprOperator.or) _ _ h3) [
              | inl (q, x) ↦ answered b x refl
              | inr (q4, h4) ↦ elim (branch (is_literal p (ref i)) _ _ h4) [
                | inr (q, x) ↦ answered b x refl
                | inl (q, x) ↦
                    let m = known.literal (ref i) part' (rw (q1, q2, q3, q4) refl) q in
                    answered b x (
                      negative_in_layer p v layer e i covers (m, known.typed (ref i) part' m) k
                        inner fails)
              ]
            ]
          ]
        ]
      ]
    where
      not_true : (x : Bool) → not x ≡ true → x ≡ false
      not_true false e = refl
      not_true true e = cc

  literal_lem :
      (e : ExprId)
      → Part p root e
      → is_plain p e ≡ true
      → is_literal p e ≡ true
      → v e ≡ true
      → is_fact_in_layer p layer e ≡ true
  unfolding is_state_variable is_kind is_bool_type get is_literal
  literal_lem null part plain lit holds = absurd (true-ne-false lit refl)
  literal_lem (ref i) part plain lit holds =
      let m = known.literal (ref i) part plain lit in
      positive_in_layer p v layer i covers (m, known.typed (ref i) part m) (plain_fluents (ref i) m)
        holds

  pub condition_lem :
      (fuel : ℕ) (e : ExprId) (b : Bool)
      → Part p root e
      → v e ≡ true
      → is_condition_satisfied p layer fuel e ≡ some b
      → b ≡ true
  unfolding is_condition_satisfied
  condition_lem zero e b part holds h = cc
  condition_lem (suc fuel) e b part holds h =
      let ok : CallOk (is_condition_satisfied p layer fuel) =
        λ c q k x m. condition_lem fuel c x q k m in
      elim (branch (is_op p.pool e ExprOperator.equals) _ _ h) [
        | inl (q, x) ↦ answered b x (equality_lem e q holds)
        | inr (q1, h1) ↦ elim (branch (is_op p.pool e ExprOperator.not) _ _ h1) [
          | inl (q, x) ↦ negation_lem _ e _ b ok part q holds refl x
          | inr (q2, h2) ↦ elim (branch (is_op p.pool e ExprOperator.or) _ _ h2) [
            | inl (q, x) ↦ try_each_lem _ _ b x
            | inr (q3, h3) ↦ elim (branch (is_op p.pool e ExprOperator.and) _ _ h3) [
              | inl (q, x) ↦
                  all_satisfied_lem _ _ b
                    (λ c m. ok c (conjunct part q m) (coherent.conjunction e c q holds m)) x
              | inr (q4, h4) ↦ elim (branch (is_literal p e) _ _ h4) [
                | inr (q, x) ↦ answered b x refl
                | inl (q, x) ↦ answered b x (literal_lem e part (rw (q1, q2, q3, q4) refl) q holds)
              ]
            ]
          ]
        ]
      ]
