-- ===== src/Relaxed/Answered.antt =====
-- Whether a condition is satisfied is always answered: in a pool where children stand before their
-- parents, with more fuel than the handle and one.
use ran_tan_plan.Prelude.{
  ℕ, zero, suc, ◌<◌, ◌≡◌, refl, sym, subst, ◌⊎◌, inl, inr, Bool, true, false, not, ◌||◌, Option,
  some, List, [], ◌∷◌, ◌++◌, In, arith, Bool-cases, if◌then◌else◌, if_true, if_false, ⊎_elim,
  eq_of_some,
}
use ran_tan_plan.Expr.Kinds.{ExprOperator, ExprKind}
use ran_tan_plan.Expr.Node.{ExprId, null, ref}
use ran_tan_plan.Expr.Pool.{is_op, is_kind, get, children, arguments, tail, has_head_and_arguments}
use ran_tan_plan.Expr.Pool.Laws.{IsOrdered}
use ran_tan_plan.Problem.{Problem}
use ran_tan_plan.Relaxed.Condition.{
  Layer, is_literal, is_fact_in_layer, evaluate_ground_equality, first, get_inner_condition,
  operands, all_satisfied, try_each, negation_satisfied, is_condition_satisfied, extract_each,
  extract_cnf_conditions, conditions_satisfied,
}
use ran_tan_plan.Relaxed.Satisfied.{branch}
use ran_tan_plan.Relaxed.Conditions.{extract_each_lem}

abbrev pub Returns : {A : Type 0} → Option A → Type 0
Returns {A} o = (a : A) × (o ≡ some a)

pub either :
    {A : Type 0} (b : Bool) (x y : Option A) → Returns x → Returns y → Returns (if b then x else y)
either true x y h k = h
either false x y h k = k

pub decided : {A : Type 0} (a : A) → Returns (some a)
decided a = (a, refl)

-- More fuel than the handle and one.
abbrev pub Room : ℕ → ExprId → Type 0
Room fuel null = 0 < fuel
Room fuel (ref i) = suc i < fuel

Room-suc : (fuel : ℕ) (e : ExprId) → Room fuel e → Room (suc fuel) e
Room-suc fuel null h = omega arith
Room-suc fuel (ref i) h = omega arith

all_satisfied-Returns :
    (call : ExprId → Option Bool) (cs : List ExprId)
    → ((c : ExprId) → In c cs → Returns (call c))
    → Returns (all_satisfied call cs)
unfolding all_satisfied
all_satisfied-Returns call [] h = (true, refl)
all_satisfied-Returns call (c ∷ cs) h =
    let (b, e) = h c (inl refl) in
    rw e (either b _ _ (all_satisfied-Returns call cs (λ d m. h d (inr m))) (false, refl))

try_each-Returns :
    (call : ExprId → Option Bool) (cs : List ExprId)
    → ((c : ExprId) → In c cs → Returns (call c))
    → Returns (try_each call cs)
unfolding try_each
try_each-Returns call [] h = (true, refl)
try_each-Returns call (c ∷ cs) h =
    let (b, e) = h c (inl refl) in
    rw e (either b _ _ (true, refl) (try_each-Returns call cs (λ d m. h d (inr m))))

extract_each-Returns :
    (call : ExprId → Option (List ExprId)) (cs : List ExprId)
    → ((c : ExprId) → In c cs → Returns (call c))
    → Returns (extract_each call cs)
unfolding extract_each
extract_each-Returns call [] h = ([], refl)
extract_each-Returns call (c ∷ cs) h =
    let (here, e) = h c (inl refl) in
    let (rest, e') = extract_each-Returns call cs (λ d m. h d (inr m)) in
    (here ++ rest, rw (e, e') refl)

module _ (p : Problem) (o : IsOrdered p.pool) where
  child-Room :
      (fuel : ℕ) (e c : ExprId) → Room (suc fuel) e → In c (children p.pool e) → Room fuel c
  unfolding children get
  child-Room fuel null c h m = absurd m
  child-Room fuel (ref i) null h m = omega arith
  child-Room fuel (ref i) (ref j) h m = omega (arith, o i (ref j) m)

  in_tail : (cs : List ExprId) (c : ExprId) → In c (tail cs) → In c cs
  in_tail [] c m = m
  in_tail (x ∷ cs) c m = inr m

  argument-child : (e c : ExprId) → In c (arguments p.pool e) → In c (children p.pool e)
  unfolding arguments
  argument-child e c m = in_tail (children p.pool e) c m

  operand-child : (e c : ExprId) → In c (operands p e) → In c (children p.pool e)
  unfolding operands
  operand-child e c m = elim (Bool-cases (has_head_and_arguments p.pool e)) [
    | inl k ↦ argument-child e c (subst (λ l. In c l) (if_true _ _ _ k) m)
    | inr k ↦ subst (λ l. In c l) (if_false _ _ _ k) m
  ]

  first_cases : (cs : List ExprId) → (first cs ≡ null) ⊎ In (first cs) cs
  first_cases [] = inl refl
  first_cases (c ∷ cs) = inr (inl refl)

  choose :
      (b : Bool) (x y : ExprId) (cs : List ExprId)
      → (x ≡ null) ⊎ In x cs
      → (y ≡ null) ⊎ In y cs
      → ((if b then x else y) ≡ null) ⊎ In (if b then x else y) cs
  choose true x y cs h k = h
  choose false x y cs h k = k

  inner-child :
      (e : ExprId)
      → (get_inner_condition p e ≡ null) ⊎ In (get_inner_condition p e) (children p.pool e)
  unfolding get_inner_condition
  inner-child e =
      choose _ _ _ _
        (⊎_elim (λ h. inl h) (λ m. inr (argument-child e _ m)) (first_cases (arguments p.pool e)))
        (first_cases (children p.pool e))

  inner-Room :
      (fuel : ℕ) (e : ExprId) (i : ℕ)
      → Room (suc fuel) e
      → get_inner_condition p e ≡ ref i
      → Room fuel (ref i)
  inner-Room fuel e i h same = elim (inner-child e) [
    | inl n ↦ cc
    | inr m ↦ child-Room fuel e (ref i) h (subst (λ c. In c (children p.pool e)) same m)
  ]

  double-Returns :
      (call : ExprId → Option Bool) (fuel i : ℕ) (c : ExprId)
      → ((d : ExprId) → Room fuel d → Returns (call d))
      → Room fuel (ref i)
      → get_inner_condition p (ref i) ≡ c
      → Returns (elim c [ null ↦ some true | ref j ↦ call (ref j) ])
  double-Returns call fuel i null ok h same = (true, refl)
  double-Returns call fuel i (ref j) ok h same =
      ok (ref j) (inner-Room fuel (ref i) j (Room-suc fuel (ref i) h) same)

  negation-Returns :
      (layer : Layer) (call : ExprId → Option Bool) (fuel : ℕ) (e inner : ExprId)
      → ((d : ExprId) → Room fuel d → Returns (call d))
      → Room (suc fuel) e
      → get_inner_condition p e ≡ inner
      → Returns (negation_satisfied p layer call e inner)
  unfolding negation_satisfied
  negation-Returns layer call fuel e null ok h same = (true, refl)
  negation-Returns layer call fuel e (ref i) ok h same =
      let n = ref i in
      either (is_op p.pool n ExprOperator.equals) _ _ (decided (not (evaluate_ground_equality p n)))
        (either (is_op p.pool n ExprOperator.not) _ _
          (double-Returns call fuel i (get_inner_condition p n) ok (inner-Room fuel e i h same)
            refl)
          (either (is_op p.pool n ExprOperator.and) _ _ (decided true) (
            either (is_op p.pool n ExprOperator.or) _ _ (decided true)
              (either (is_literal p n) _ _ (decided (is_fact_in_layer p layer e)) (decided true)))))

  condition-Returns :
      (layer : Layer) (fuel : ℕ) (e : ExprId)
      → Room fuel e
      → Returns (is_condition_satisfied p layer fuel e)
  unfolding is_condition_satisfied
  condition-Returns layer zero null h = absurd (omega arith)
  condition-Returns layer zero (ref i) h = absurd (omega arith)
  condition-Returns layer (suc fuel) e h =
      let below = λ (c : ExprId) (m : In c (operands p e)).
        condition-Returns layer fuel c (child-Room fuel e c h (operand-child e c m)) in
      either (is_op p.pool e ExprOperator.equals) _ _ (decided (evaluate_ground_equality p e)) (
        either (is_op p.pool e ExprOperator.not) _ _
          (negation-Returns layer (is_condition_satisfied p layer fuel) fuel e
            (get_inner_condition p e) (λ d r. condition-Returns layer fuel d r) h refl)
          (either (is_op p.pool e ExprOperator.or) _ _
            (try_each-Returns (is_condition_satisfied p layer fuel) (operands p e) below)
            (either (is_op p.pool e ExprOperator.and) _ _
              (all_satisfied-Returns (is_condition_satisfied p layer fuel) (operands p e) below)
              (either (is_literal p e) _ _ (decided (is_fact_in_layer p layer e)) (decided true)))))

  -- Extraction returns conditions that there is fuel for.
  extract-Returns :
      (fuel : ℕ) (e : ExprId) → Room fuel e → Returns (extract_cnf_conditions p fuel e)
  unfolding extract_cnf_conditions
  extract-Returns zero null h = absurd (omega arith)
  extract-Returns zero (ref i) h = absurd (omega arith)
  extract-Returns (suc fuel) e h =
      either (is_op p.pool e ExprOperator.and) _ _
        (extract_each-Returns (extract_cnf_conditions p fuel) (arguments p.pool e)
          (λ c m. extract-Returns fuel c (child-Room fuel e c h (argument-child e c m))))
        (either
          (is_kind p.pool e ExprKind.fluent_symbol || is_kind p.pool e ExprKind.function_symbol) _ _
          ([], refl) (e ∷ [], refl))

  extract_each-Room :
      (call : ExprId → Option (List ExprId)) (fuel : ℕ) (es cs : List ExprId)
      → ((e : ExprId)
          → In e es
          → (ds : List ExprId) → call e ≡ some ds
          → (c : ExprId) → In c ds
          → Room fuel c)
      → extract_each call es ≡ some cs
      → (c : ExprId) → In c cs
      → Room fuel c
  extract_each-Room call fuel es cs ok h = extract_each_lem (Room fuel) call es cs ok h

  extract-Room :
      (fuel : ℕ) (e : ExprId) (cs : List ExprId)
      → Room fuel e
      → extract_cnf_conditions p fuel e ≡ some cs
      → (c : ExprId) → In c cs
      → Room fuel c
  unfolding extract_cnf_conditions
  extract-Room zero e cs h k = cc
  extract-Room (suc fuel) e cs h k = elim (branch (is_op p.pool e ExprOperator.and) _ _ k) [
    | inl (q, x) ↦
        extract_each-Room (extract_cnf_conditions p fuel) (suc fuel) (arguments p.pool e) cs
          (λ d m ds w c n.
            Room-suc fuel c
              (extract-Room fuel d ds (child-Room fuel e d h (argument-child e d m)) w c n))
          x
    | inr (q, x) ↦ elim (branch _ (some []) (some (e ∷ [])) x) [
      | inl (_, y) ↦ λ c m. absurd (subst (λ l. In c l) (sym (eq_of_some y)) m)
      | inr (_, y) ↦ λ c m.
          ⊎_elim (λ same. subst (Room (suc fuel)) (sym same) h) (λ n. absurd n)
            (subst (λ l. In c l) (sym (eq_of_some y)) m)
    ]
  ]

  pub conditions-Returns :
      (layer : Layer) (fuel : ℕ) (e : ExprId)
      → Room fuel e
      → Returns (conditions_satisfied p fuel layer e)
  unfolding conditions_satisfied
  conditions-Returns layer fuel e h =
      let (cs, k) = extract-Returns fuel e h in
      rw k (
        all_satisfied-Returns (is_condition_satisfied p layer fuel) cs
          (λ c m. condition-Returns layer fuel c (extract-Room fuel e cs h k c m)))
