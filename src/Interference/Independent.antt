-- ===== src/Interference/Independent.antt =====
-- What it means that one action does not interfere with another.
use ran_tan_plan.Prelude.{◌≡◌, ◌≢◌, Bool, true, false, not, some, In}
use ran_tan_plan.Expr.Node.{ExprId}
use ran_tan_plan.Problem.{Problem, Action, EffectExpression, is_bool_type}
use ran_tan_plan.Interference.{constant_value, ActionAnalysis, has_intersection}
use ran_tan_plan.Interference.Collected.{Reads}
use ran_tan_plan.Interference.Effects.{is_constant_effect, CoversEffect}

-- The analysis of an action: every effect, and the numbers that the precondition reads.
record Covers (p : Problem) (a : Action) (r : ActionAnalysis) : Type 0 where
  effect : (e : EffectExpression) → In e a.effects → CoversEffect p e r
  needs :
      a.has_precondition ≡ true
      → (f : ExprId) → is_bool_type p f ≡ false
      → Reads p a.precondition_id f
      → In f r.numeric_preconditions

-- Action a does not disturb action b: what a writes is not read by the condition of an effect of b;
-- the numbers that a writes are not read by the values of b's effects or by b's precondition, nor
-- written by b; and no fluent is set to one constant by a and to the other by b.
pub record Independent (p : Problem) (a b : Action) : Type 0 where
  pub conditions :
      (e d : EffectExpression)
      → In e a.effects
      → In d b.effects
      → d.is_conditional ≡ true
      → ¬ Reads p d.condition_id e.fluent_id
  pub values :
      (e d : EffectExpression)
      → In e a.effects
      → In d b.effects
      → is_constant_effect p d ≡ false
      → is_bool_type p e.fluent_id ≡ false
      → ¬ Reads p d.value_id e.fluent_id
  pub preconditions :
      (e : EffectExpression)
      → In e a.effects
      → b.has_precondition ≡ true
      → is_constant_effect p e ≡ false
      → is_bool_type p e.fluent_id ≡ false
      → ¬ Reads p b.precondition_id e.fluent_id
  pub numbers :
      (e d : EffectExpression)
      → In e a.effects
      → In d b.effects
      → is_constant_effect p e ≡ false
      → is_constant_effect p d ≡ false
      → e.fluent_id ≢ d.fluent_id
  pub constants :
      (e d : EffectExpression) (v : Bool)
      → In e a.effects
      → In d b.effects
      → is_constant_effect p e ≡ true
      → is_constant_effect p d ≡ true
      → constant_value p.pool e.value_id ≡ some v
      → constant_value p.pool d.value_id ≡ some (not v)
      → e.fluent_id ≢ d.fluent_id

-- The checks that came out negative.
record Apart (a b : ActionAnalysis) : Type 0 where
  numeric_needs : has_intersection a.numeric_effects b.numeric_preconditions ≡ false
  conditions : has_intersection a.all_effects b.conditional_effect_fluents ≡ false
  dependencies : has_intersection a.all_effects b.numeric_effect_dependencies ≡ false
  true_false : has_intersection a.positive_boolean_effects b.negative_boolean_effects ≡ false
  false_true : has_intersection a.negative_boolean_effects b.positive_boolean_effects ≡ false
  numeric : has_intersection a.numeric_effects b.numeric_effects ≡ false
