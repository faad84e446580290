-- ===== src/Interference/Total.antt =====
-- The analysis of an action always ends: in a pool where children stand before their parents, with
-- more fuel than the handles that the action has.
use ran_tan_plan.Prelude.{
  ℕ, zero, suc, ◌≡◌, refl, inl, inr, Bool, true, false, not, ◌&&◌, Option, some, List, [], ◌∷◌,
  arith, if◌then◌else◌, ◌>>=◌, In,
}
use ran_tan_plan.Expr.Kinds.{ExprOperator}
use ran_tan_plan.Expr.Node.{ExprId, null, ref}
use ran_tan_plan.Expr.Pool.{is_op, children, arguments, tail}
use ran_tan_plan.Expr.Pool.Laws.{Below, IsOrdered}
use ran_tan_plan.Problem.{Problem, Action, EffectExpression, is_assign, is_bool_type}
use ran_tan_plan.Interference.{
  Collection, collect_fluent, collect_each, is_fluent, collect_from, nothing_collected, collect_all,
  ActionAnalysis, nothing_analyzed, record_preconditions, analyze_preconditions, analyze_condition,
  analyze_value, analyze_effects, analyze_action,
}

abbrev Returns : {A : Type 0} → Option A → Type 0
Returns {A} o = (a : A) × (o ≡ some a)

either :
    {A : Type 0} (b : Bool) (x y : Option A) → Returns x → Returns y → Returns (if b then x else y)
either true x y h k = h
either false x y h k = k

then_some : {A B : Type 0} (x : Option A) (f : A → B) → Returns x → Returns (x >>= λ a. some (f a))
then_some x f (a, e) = (f a, rw e)

-- The handles of an effect lie below the fuel.
abbrev pub EffectBelow : ℕ → EffectExpression → Type 0
EffectBelow fuel e = Below fuel e.condition_id × Below fuel e.value_id

module _ (p : Problem) (o : IsOrdered p.pool) where
  each-Returns :
      (call : ExprId → Collection → Option Collection) (es : List ExprId) (c : Collection)
      → ((e : ExprId) → In e es → (d : Collection) → Returns (call e d))
      → Returns (collect_each call es c)
  unfolding collect_each
  each-Returns call [] c h = (c, refl)
  each-Returns call (e ∷ es) c h =
      let (d, first) = h e (inl refl) c in
      let (r, rest) = each-Returns call es d (λ x m. h x (inr m)) in (r, rw first rest)

  collect_from-Returns :
      (fuel : ℕ) (b : Bool) (e : ExprId) (c : Collection)
      → Below fuel e
      → Returns (collect_from p fuel b e c)
  unfolding collect_from arguments
  collect_from-Returns zero b null c h = (c, refl)
  collect_from-Returns (suc fuel) b null c h = (c, refl)
  collect_from-Returns zero b (ref i) c h = absurd (omega arith)
  collect_from-Returns (suc fuel) b (ref i) c h =
      either (is_op p.pool (ref i) ExprOperator.not) _ _
        (each-Returns (collect_from p fuel (not b)) _ c (λ e m d.
          collect_from-Returns fuel (not b) e d
            (lower e (o i e (in_tail (children p.pool (ref i)) e m)))))
        (either (is_fluent p.pool (ref i)) _ _ (collect_fluent p b (ref i) c, refl)
          (each-Returns (collect_from p fuel b) _ c
            (λ e m d. collect_from-Returns fuel b e d (lower e (o i e m)))))
    where
      lower : (c : ExprId) → Below i c → Below fuel c
      lower null k = tt
      lower (ref c) k = omega arith

      in_tail : (cs : List ExprId) (e : ExprId) → In e (tail cs) → In e cs
      in_tail [] e m = m
      in_tail (c ∷ cs) e m = inr m

  collect_all-Returns : (fuel : ℕ) (e : ExprId) → Below fuel e → Returns (collect_all p fuel e)
  unfolding collect_all
  collect_all-Returns fuel e h = collect_from-Returns fuel false e nothing_collected h

  condition-Returns :
      (fuel : ℕ) (e : EffectExpression) (r : ActionAnalysis)
      → Below fuel e.condition_id
      → Returns (analyze_condition p fuel e r)
  unfolding analyze_condition
  condition-Returns fuel e r low =
      either e.is_conditional _ _ (then_some _ _ (collect_all-Returns fuel e.condition_id low))
        (r, refl)

  value-Returns :
      (fuel : ℕ) (e : EffectExpression) (r : ActionAnalysis)
      → Below fuel e.value_id
      → Returns (analyze_value p fuel e r)
  unfolding analyze_value
  value-Returns fuel e r low =
      either (is_assign e.kind && is_bool_type p e.fluent_id) _ _ (_, refl)
        (then_some _ _ (collect_all-Returns fuel e.value_id low))

  effects-Returns :
      (fuel : ℕ) (es : List EffectExpression) (r : ActionAnalysis)
      → ((e : EffectExpression) → In e es → EffectBelow fuel e)
      → Returns (analyze_effects p fuel es r)
  unfolding analyze_effects
  effects-Returns fuel [] r h = (r, refl)
  effects-Returns fuel (e ∷ es) r h =
      let below = h e (inl refl) in
      let (r1, e1) =
        condition-Returns fuel e (record r { all_effects = e.fluent_id ∷ r.all_effects }) below.0 in
      let (r2, e2) = value-Returns fuel e r1 below.1 in
      let (r3, e3) = effects-Returns fuel es r2 (λ x m. h x (inr m)) in (r3, rw (e1, e2) e3)

  pub analyze_action-Returns :
      (fuel : ℕ) (a : Action)
      → Below fuel a.precondition_id
      → ((e : EffectExpression) → In e a.effects → EffectBelow fuel e)
      → Returns (analyze_action p fuel a)
  unfolding analyze_action analyze_preconditions
  analyze_action-Returns fuel a low h =
      let (r, e) =
        either a.has_precondition _ _
          (then_some _ (record_preconditions nothing_analyzed)
            (collect_all-Returns fuel a.precondition_id low))
          (nothing_analyzed, refl) in
      let (s, e') = effects-Returns fuel a.effects r h in (s, rw e e')
