-- ===== src/ValueKind/Correct.antt =====
-- What the three kinds mean: an expression that is classified as constant reads no state variable, and
-- one that is classified as linear is built from state variables by sums, differences, multiples and
-- quotients by constants.
use ran_tan_plan.Prelude.{
  ℕ, ◌≡◌, refl, sym, ◌∙◌, ◌≢◌, ◌⊎◌, inl, inr, Option, none, some, List, [], ◌∷◌,
}
use ran_tan_plan.Expr.Kinds.{ExprKind, ExprOperator}
use ran_tan_plan.Expr.Node.{ExprId, null, ref, ExprNode}
use ran_tan_plan.Expr.Pool.{ExprPool, get, tail}
use ran_tan_plan.ValueKind.{
  ValueKind, constant, linear, nonlinear, worse, worst, product, quotient, operator_kind,
}

-- Leaves that have no state in them.
pub data IsStatic : ExprKind → Type 0 where
  literal : IsStatic ExprKind.constant
  bound_parameter : IsStatic ExprKind.parameter
  bound_variable : IsStatic ExprKind.variable

mutual
  -- No state variable is reached through arguments.
  pub data IsConstant (p : ExprPool) : ExprId → Type 0 where
    missing : IsConstant p null
    leaf : {i : ℕ} (n : ExprNode) → get p (ref i) ≡ some n → IsStatic n.kind → IsConstant p (ref i)
    apply :
        {i : ℕ} (n : ExprNode)
        → get p (ref i) ≡ some n
        → n.kind ≢ ExprKind.state_variable
        → AllConstant p (tail n.children)
        → IsConstant p (ref i)

  pub data AllConstant (p : ExprPool) : List ExprId → Type 0 where
    done : AllConstant p []
    more :
        {e : ExprId} {es : List ExprId} → IsConstant p e → AllConstant p es → AllConstant p (e ∷ es)

mutual
  -- State variables, combined by sums and differences and by constant factors and divisors.
  pub data IsLinear (p : ExprPool) : ExprId → Type 0 where
    static : {e : ExprId} → IsConstant p e → IsLinear p e
    fluent :
        {i : ℕ} (n : ExprNode)
        → get p (ref i) ≡ some n
        → (n.kind ≡ ExprKind.state_variable) ⊎ (n.kind ≡ ExprKind.fluent_symbol)
        → IsLinear p (ref i)
    sum :
        {i : ℕ} (n : ExprNode)
        → get p (ref i) ≡ some n
        → (n.op ≡ some ExprOperator.plus) ⊎ (n.op ≡ some ExprOperator.minus)
        → AllLinear p (tail n.children)
        → IsLinear p (ref i)
    left_multiple :
        {i : ℕ} (n : ExprNode) (l r : ExprId)
        → get p (ref i) ≡ some n
        → n.op ≡ some ExprOperator.multiply
        → tail n.children ≡ l ∷ r ∷ []
        → IsConstant p l
        → IsLinear p r
        → IsLinear p (ref i)
    right_multiple :
        {i : ℕ} (n : ExprNode) (l r : ExprId)
        → get p (ref i) ≡ some n
        → n.op ≡ some ExprOperator.multiply
        → tail n.children ≡ l ∷ r ∷ []
        → IsLinear p l
        → IsConstant p r
        → IsLinear p (ref i)
    fraction :
        {i : ℕ} (n : ExprNode) (l r : ExprId)
        → get p (ref i) ≡ some n
        → n.op ≡ some ExprOperator.divide
        → tail n.children ≡ l ∷ r ∷ []
        → IsLinear p l
        → IsConstant p r
        → IsLinear p (ref i)

  pub data AllLinear (p : ExprPool) : List ExprId → Type 0 where
    end : AllLinear p []
    next : {e : ExprId} {es : List ExprId} → IsLinear p e → AllLinear p es → AllLinear p (e ∷ es)

-- What a class says of an expression.
abbrev pub Meaning : ExprPool → ExprId → ValueKind → Type 0
Meaning p e constant = IsConstant p e
Meaning p e linear = IsLinear p e
Meaning p e nonlinear = Unit {0}

abbrev pub AllMeaning : ExprPool → List ExprId → List ValueKind → Type 0
AllMeaning p [] [] = Unit {0}
AllMeaning p [] (k ∷ ks) = ⊥
AllMeaning p (e ∷ es) [] = ⊥
AllMeaning p (e ∷ es) (k ∷ ks) = Meaning p e k × AllMeaning p es ks

module _ (p : ExprPool) where
  pub worst-AllConstant :
      (es : List ExprId) (ks : List ValueKind)
      → AllMeaning p es ks
      → worst ks ≡ constant
      → AllConstant p es
  unfolding worst worse
  worst-AllConstant [] [] a h = done
  worst-AllConstant [] (k ∷ ks) a h = absurd a
  worst-AllConstant (e ∷ es) [] a h = absurd a
  worst-AllConstant (e ∷ es) (constant ∷ ks) a h = more a.0 (worst-AllConstant es ks a.1 h)
  worst-AllConstant (e ∷ es) (linear ∷ ks) a h = absurd (never (worst ks) h)
    where
      never : (k : ValueKind) → worse linear k ≡ constant → ⊥
      never constant h = cc
      never linear h = cc
      never nonlinear h = cc
  worst-AllConstant (e ∷ es) (nonlinear ∷ ks) a h = cc

  worst-AllLinear :
      (es : List ExprId) (ks : List ValueKind)
      → AllMeaning p es ks
      → worst ks ≢ nonlinear
      → AllLinear p es
  unfolding worst worse
  worst-AllLinear [] [] a h = end
  worst-AllLinear [] (k ∷ ks) a h = absurd a
  worst-AllLinear (e ∷ es) [] a h = absurd a
  worst-AllLinear (e ∷ es) (constant ∷ ks) a h = next (static a.0) (worst-AllLinear es ks a.1 h)
  worst-AllLinear (e ∷ es) (linear ∷ ks) a h =
      next a.0 (worst-AllLinear es ks a.1 (λ bad. h (spread (worst ks) bad)))
    where
      spread : (k : ValueKind) → k ≡ nonlinear → worse linear k ≡ nonlinear
      spread constant h = cc
      spread linear h = h
      spread nonlinear h = refl
  worst-AllLinear (e ∷ es) (nonlinear ∷ ks) a h = absurd (h refl)

  module _ (i : ℕ) (n : ExprNode) (at : get p (ref i) ≡ some n) where
    sum_lem :
        (ks : List ValueKind)
        → (n.op ≡ some ExprOperator.plus) ⊎ (n.op ≡ some ExprOperator.minus)
        → AllMeaning p (tail n.children) ks
        → worst ks ≢ constant
        → Meaning p (ref i) (worst ks)
    sum_lem ks o a ne = pick (worst ks) refl
      where
        pick : (k : ValueKind) → worst ks ≡ k → Meaning p (ref i) k
        pick constant e = absurd (ne e)
        pick linear e = sum n at o (worst-AllLinear (tail n.children) ks a (λ h. clash (sym e ∙ h)))
          where
            clash : linear ≡ nonlinear → ⊥
            clash h = cc
        pick nonlinear e = tt

    product_lem :
        (es : List ExprId) (ks : List ValueKind)
        → tail n.children ≡ es
        → n.op ≡ some ExprOperator.multiply
        → AllMeaning p es ks
        → worst ks ≢ constant
        → Meaning p (ref i) (product ks)
    unfolding product worst worse
    product_lem [] [] c o a ne = tt
    product_lem [] (k ∷ ks) c o a ne = absurd a
    product_lem (e ∷ es) [] c o a ne = absurd a
    product_lem (e ∷ []) (k ∷ []) c o a ne = tt
    product_lem (e ∷ []) (k ∷ k' ∷ ks) c o a ne = absurd a.1
    product_lem (e ∷ f ∷ es) (k ∷ []) c o a ne = absurd a.1
    product_lem (e ∷ f ∷ []) (k ∷ k' ∷ x ∷ ks) c o a ne = absurd a.1.1
    product_lem (e ∷ f ∷ g ∷ es) (k ∷ k' ∷ []) c o a ne = absurd a.1.1
    product_lem (e ∷ f ∷ g ∷ es) (k ∷ k' ∷ x ∷ ks) c o a ne = tt
    product_lem (e ∷ f ∷ []) (constant ∷ constant ∷ []) c o a ne = absurd (ne refl)
    product_lem (e ∷ f ∷ []) (constant ∷ linear ∷ []) c o a ne =
        left_multiple n e f at o c a.0 a.1.0
    product_lem (e ∷ f ∷ []) (constant ∷ nonlinear ∷ []) c o a ne = tt
    product_lem (e ∷ f ∷ []) (linear ∷ constant ∷ []) c o a ne =
        right_multiple n e f at o c a.0 a.1.0
    product_lem (e ∷ f ∷ []) (linear ∷ linear ∷ []) c o a ne = tt
    product_lem (e ∷ f ∷ []) (linear ∷ nonlinear ∷ []) c o a ne = tt
    product_lem (e ∷ f ∷ []) (nonlinear ∷ constant ∷ []) c o a ne = tt
    product_lem (e ∷ f ∷ []) (nonlinear ∷ linear ∷ []) c o a ne = tt
    product_lem (e ∷ f ∷ []) (nonlinear ∷ nonlinear ∷ []) c o a ne = tt

    quotient_lem :
        (es : List ExprId) (ks : List ValueKind)
        → tail n.children ≡ es
        → n.op ≡ some ExprOperator.divide
        → AllMeaning p es ks
        → worst ks ≢ constant
        → Meaning p (ref i) (quotient ks)
    unfolding quotient worst worse
    quotient_lem [] [] c o a ne = tt
    quotient_lem [] (k ∷ ks) c o a ne = absurd a
    quotient_lem (e ∷ es) [] c o a ne = absurd a
    quotient_lem (e ∷ []) (k ∷ []) c o a ne = tt
    quotient_lem (e ∷ []) (k ∷ k' ∷ ks) c o a ne = absurd a.1
    quotient_lem (e ∷ f ∷ es) (k ∷ []) c o a ne = absurd a.1
    quotient_lem (e ∷ f ∷ []) (k ∷ k' ∷ x ∷ ks) c o a ne = absurd a.1.1
    quotient_lem (e ∷ f ∷ g ∷ es) (k ∷ k' ∷ []) c o a ne = absurd a.1.1
    quotient_lem (e ∷ f ∷ g ∷ es) (k ∷ constant ∷ x ∷ ks) c o a ne = tt
    quotient_lem (e ∷ f ∷ g ∷ es) (k ∷ linear ∷ x ∷ ks) c o a ne = tt
    quotient_lem (e ∷ f ∷ g ∷ es) (k ∷ nonlinear ∷ x ∷ ks) c o a ne = tt
    quotient_lem (e ∷ f ∷ []) (constant ∷ constant ∷ []) c o a ne = absurd (ne refl)
    quotient_lem (e ∷ f ∷ []) (linear ∷ constant ∷ []) c o a ne = fraction n e f at o c a.0 a.1.0
    quotient_lem (e ∷ f ∷ []) (nonlinear ∷ constant ∷ []) c o a ne = tt
    quotient_lem (e ∷ f ∷ []) (k ∷ linear ∷ []) c o a ne = tt
    quotient_lem (e ∷ f ∷ []) (k ∷ nonlinear ∷ []) c o a ne = tt

    pub operator_lem :
        (o : Option ExprOperator) (ks : List ValueKind)
        → n.op ≡ o
        → AllMeaning p (tail n.children) ks
        → worst ks ≢ constant
        → Meaning p (ref i) (operator_kind o ks)
    unfolding operator_kind
    operator_lem none ks e a ne = tt
    operator_lem (some ExprOperator.plus) ks e a ne = sum_lem ks (inl e) a ne
    operator_lem (some ExprOperator.minus) ks e a ne = sum_lem ks (inr e) a ne
    operator_lem (some ExprOperator.multiply) ks e a ne =
        product_lem (tail n.children) ks refl e a ne
    operator_lem (some ExprOperator.divide) ks e a ne =
        quotient_lem (tail n.children) ks refl e a ne
    operator_lem (some _) ks e a ne = tt
