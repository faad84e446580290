-- ===== src/Relaxed/Conditions.antt =====
-- An action that can be applied in a state has its preconditions satisfied in a layer that has the facts
-- of the state.
use ran_tan_plan.Prelude.{
  ℕ, zero, suc, ◌≡◌, refl, sym, subst, inl, inr, Bool, true, false, Option, some, List, [], ◌∷◌, In,
  Bool-cases, >>=-eq-some, ⊎_elim, In-append, eq_of_some,
}
use ran_tan_plan.Expr.Kinds.{ExprOperator}
use ran_tan_plan.Expr.Node.{ExprId}
use ran_tan_plan.Expr.Pool.{is_op, arguments, children, tail, has_head_and_arguments}
use ran_tan_plan.Problem.{Problem, Action}
use ran_tan_plan.Relaxed.Condition.{
  Layer, operands, is_condition_satisfied, extract_each, extract_cnf_conditions,
  conditions_satisfied, are_preconditions_satisfied,
}
use ran_tan_plan.Relaxed.World.{Valuation, IsCoherent, Covers, Part, whole, conjunct, IsRecognized}
use ran_tan_plan.Relaxed.Satisfied.{branch, all_satisfied_lem, condition_lem}

in_tail : (cs : List ExprId) (c : ExprId) → In c (tail cs) → In c cs
in_tail [] c m = m
in_tail (x ∷ cs) c m = inr m

argument-operand : (p : Problem) (e c : ExprId) → In c (arguments p.pool e) → In c (operands p e)
unfolding operands arguments
argument-operand p e c m = elim (Bool-cases (has_head_and_arguments p.pool e)) [
  | inl k ↦ rw k m
  | inr k ↦ rw k (in_tail (children p.pool e) c m)
]

abbrev pub Holds : Problem → Valuation → ExprId → ExprId → Type 0
Holds p v root c = Part p root c × (v c ≡ true)

pub extract_each_lem :
    (P : ExprId → Type 0) (call : ExprId → Option (List ExprId)) (es cs : List ExprId)
    → ((e : ExprId)
        → In e es
        → (ds : List ExprId) → call e ≡ some ds
        → (c : ExprId) → In c ds
        → P c)
    → extract_each call es ≡ some cs
    → (c : ExprId) → In c cs
    → P c
unfolding extract_each
extract_each_lem P call [] cs ok h c m = absurd (subst (λ l. In c l) (sym (eq_of_some h)) m)
extract_each_lem P call (e ∷ es) cs ok h c m =
    let (here, e1, h1) = >>=-eq-some (call e) _ h in
    let (rest, e2, h2) = >>=-eq-some (extract_each call es) _ h1 in
    ⊎_elim (λ k. ok e (inl refl) here e1 c k)
      (λ k. extract_each_lem P call es rest (λ d q. ok d (inr q)) e2 c k)
      (In-append c here rest (subst (λ l. In c l) (sym (eq_of_some h2)) m))

pub extract_lem :
    (p : Problem) (v : Valuation) (root : ExprId) (fuel : ℕ) (e : ExprId) (cs : List ExprId)
    → IsCoherent p v
    → Holds p v root e
    → extract_cnf_conditions p fuel e ≡ some cs
    → (c : ExprId) → In c cs
    → Holds p v root c
unfolding extract_cnf_conditions
extract_lem p v root zero e cs coherent holds h = cc
extract_lem p v root (suc fuel) e cs coherent (part, holds) h =
    elim (branch (is_op p.pool e ExprOperator.and) _ _ h) [
      | inl (q, x) ↦
          extract_each_lem (Holds p v root) _ (arguments p.pool e) cs
            (λ d m ds k.
              let at = argument-operand p e d m in
              extract_lem p v root fuel d ds coherent
                (conjunct part q at, coherent.conjunction e d q holds at) k)
            x
      | inr (q, h1) ↦ elim (branch _ (some []) (some (e ∷ [])) h1) [
        | inl (_, x) ↦ λ c m. absurd (subst (λ l. In c l) (sym (eq_of_some x)) m)
        | inr (_, x) ↦ λ c m.
            ⊎_elim (λ same. subst (Holds p v root) (sym same) (part, holds)) (λ k. absurd k)
              (subst (λ l. In c l) (sym (eq_of_some x)) m)
      ]
    ]

-- The setting of the lemmas below.
abbrev pub PlainFluents : Problem → Type 0
PlainFluents p = (e : ExprId) → In e p.grounded_fluents → is_op p.pool e ExprOperator.not ≡ false

pub conditions_satisfied_lem :
    (p : Problem) (v : Valuation) (layer : Layer) (fuel : ℕ) (e : ExprId) (b : Bool)
    → IsCoherent p v
    → Covers p v layer
    → PlainFluents p
    → IsRecognized p e
    → v e ≡ true
    → conditions_satisfied p fuel layer e ≡ some b
    → b ≡ true
unfolding conditions_satisfied
conditions_satisfied_lem p v layer fuel e b coherent covers plain known holds h =
    let (cs, extracted, k) = >>=-eq-some (extract_cnf_conditions p fuel e) _ h in
    all_satisfied_lem (is_condition_satisfied p layer fuel) cs b
      (λ c m x q.
        let (part, true') = extract_lem p v e fuel e cs coherent (whole, holds) extracted c m in
        condition_lem p v layer e coherent covers plain known fuel c x part true' q)
      k

pub are_preconditions_satisfied_lem :
    (p : Problem) (v : Valuation) (layer : Layer) (fuel : ℕ) (a : Action) (b : Bool)
    → IsCoherent p v
    → Covers p v layer
    → PlainFluents p
    → (a.has_precondition ≡ true → IsRecognized p a.precondition_id)
    → (a.has_precondition ≡ true → v a.precondition_id ≡ true)
    → are_preconditions_satisfied p fuel layer a ≡ some b
    → b ≡ true
unfolding are_preconditions_satisfied
are_preconditions_satisfied_lem p v layer fuel a b coherent covers plain known holds h =
    elim (branch a.has_precondition _ _ h) [
      | inl (q, x) ↦
          conditions_satisfied_lem p v layer fuel a.precondition_id b coherent covers plain
            (known q) (holds q) x
      | inr (q, x) ↦ sym (eq_of_some x)
    ]
