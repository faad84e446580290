-- ===== src/Relaxed/World.antt =====
-- The states of a problem, and what the relaxed planning graph relies on. A valuation gives each
-- expression of the pool its truth value in a state.
use ran_tan_plan.Prelude.{ℕ, suc, ◌≡◌, ◌⊎◌, Bool, true, false, not, ◌&&◌, some, [], ◌∷◌, In}
use ran_tan_plan.Expr.Kinds.{ExprOperator}
use ran_tan_plan.Expr.Node.{ExprId, ref, id_beq}
use ran_tan_plan.Expr.Pool.{is_op, is_constant}
use ran_tan_plan.Problem.{Problem, Action, Assignment, EffectExpression, is_bool_type}
use ran_tan_plan.Interference.{constant_value}
use ran_tan_plan.Relaxed.Condition.{
  Layer, find_grounded_fluent_index, get_inner_condition, operands, is_literal,
}
use ran_tan_plan.Relaxed.Layers.{fact_of_value}

abbrev pub Valuation : Type 0
Valuation = ExprId → Bool

-- Constants have their value, negations negate, the operands of a true conjunction are true, and an
-- equality of two constants holds if they are one node.
pub record IsCoherent (p : Problem) (v : Valuation) : Type 0 where
  pub constant : (e : ExprId) (b : Bool) → constant_value p.pool e ≡ some b → v e ≡ b
  pub negation :
      (e : ExprId) (i : ℕ)
      → is_op p.pool e ExprOperator.not ≡ true
      → get_inner_condition p e ≡ ref i
      → v e ≡ not (v (ref i))
  pub conjunction :
      (e c : ExprId)
      → is_op p.pool e ExprOperator.and ≡ true
      → v e ≡ true
      → In c (operands p e)
      → v c ≡ true
  pub equality :
      (e a b : ExprId)
      → is_op p.pool e ExprOperator.equals ≡ true
      → operands p e ≡ a ∷ b ∷ []
      → is_constant p.pool a ≡ true
      → is_constant p.pool b ≡ true
      → v e ≡ id_beq a b

-- A boolean fluent.
abbrev pub IsFluent : Problem → ℕ → Type 0
IsFluent p i = In (ref i) p.grounded_fluents × (is_bool_type p (ref i) ≡ true)

-- The initial state gives each boolean fluent its value.
abbrev pub Initially : Problem → Valuation → Type 0
Initially p v =
    (i : ℕ)
    → IsFluent p i
    → (a : Assignment) × In a p.initial_state
      × (a.fluent_id ≡ ref i)
      × (constant_value p.pool a.value_id ≡ some (v (ref i)))

abbrev pub Fires : Valuation → EffectExpression → Type 0
Fires v e = (e.is_conditional ≡ false) ⊎ (v e.condition_id ≡ true)

-- The action is applied in `v` and gives `w`: a boolean fluent has the value that an effect that fires
-- assigns, or the value that it had.
pub record Happens (p : Problem) (a : Action) (v w : Valuation) : Type 0 where
  pub applicable : a.has_precondition ≡ true → v a.precondition_id ≡ true
  pub after :
      (i : ℕ)
      → IsFluent p i
      → ((e : EffectExpression) × In e a.effects
          × Fires v e
          × (e.fluent_id ≡ ref i)
          × (w (ref i) ≡ v e.value_id))
        ⊎ (w (ref i) ≡ v (ref i))

-- The states that are reached in a number of steps.
pub data ReachedIn (p : Problem) : ℕ → Valuation → Type 0 where
  start : {v : Valuation} → IsCoherent p v → Initially p v → ReachedIn p 0 v
  step :
      {k : ℕ} {v w : Valuation} (a : Action)
      → In a p.actions
      → ReachedIn p k v
      → Happens p a v w
      → IsCoherent p w
      → ReachedIn p (suc k) w

pub ReachedIn-IsCoherent : {p : Problem} {k : ℕ} {v : Valuation} → ReachedIn p k v → IsCoherent p v
ReachedIn-IsCoherent (start c h) = c
ReachedIn-IsCoherent (step a m r h c) = c

-- The parts of a condition that the graph looks at.
pub data Part (p : Problem) (root : ExprId) : ExprId → Type 0 where
  whole : Part p root root
  conjunct :
      {e c : ExprId}
      → Part p root e
      → is_op p.pool e ExprOperator.and ≡ true
      → In c (operands p e)
      → Part p root c
  negated :
      {e : ExprId}
      → Part p root e
      → is_op p.pool e ExprOperator.not ≡ true
      → Part p root (get_inner_condition p e)

-- Neither an equality nor a connective.
abbrev pub is_plain : Problem → ExprId → Bool
is_plain p e =
    not (is_op p.pool e ExprOperator.equals)
    && (not (is_op p.pool e ExprOperator.not)
        && (not (is_op p.pool e ExprOperator.or) && not (is_op p.pool e ExprOperator.and)))

-- What the graph takes for a literal is a grounded fluent, a grounded fluent in a condition is
-- boolean, and an equality under a negation has two constant sides.
pub record IsRecognized (p : Problem) (root : ExprId) : Type 0 where
  pub literal :
      (e : ExprId)
      → Part p root e
      → is_plain p e ≡ true
      → is_literal p e ≡ true
      → In e p.grounded_fluents
  pub typed : (e : ExprId) → Part p root e → In e p.grounded_fluents → is_bool_type p e ≡ true
  pub negated_equality :
      (e : ExprId)
      → Part p root e
      → is_op p.pool e ExprOperator.not ≡ true
      → is_op p.pool (get_inner_condition p e) ExprOperator.equals ≡ true
      → (a : ExprId) × (b : ExprId) × (operands p (get_inner_condition p e) ≡ a ∷ b ∷ [])
        × (is_constant p.pool a ≡ true)
        × (is_constant p.pool b ≡ true)

-- The layer has the fact of each boolean fluent in a state.
abbrev pub Covers : Problem → Valuation → Layer → Type 0
Covers p v layer =
    (i : ℕ)
    → IsFluent p i
    → In (fact_of_value (find_grounded_fluent_index p (ref i)) (some (v (ref i)))) layer

-- What is assumed of a problem: fluents are not negations, boolean ones are assigned constants, and
-- the conditions of its actions are recognized.
pub record IsSupported (p : Problem) : Type 0 where
  pub fluents : (e : ExprId) → In e p.grounded_fluents → is_op p.pool e ExprOperator.not ≡ false
  pub constants :
      (a : Action) (e : EffectExpression) (i : ℕ)
      → In a p.actions
      → In e a.effects
      → IsFluent p i
      → e.fluent_id ≡ ref i
      → (b : Bool) × (constant_value p.pool e.value_id ≡ some b)
  pub preconditions :
      (a : Action) → In a p.actions → a.has_precondition ≡ true → IsRecognized p a.precondition_id
  pub conditions :
      (a : Action) (e : EffectExpression)
      → In a p.actions
      → In e a.effects
      → e.is_conditional ≡ true
      → IsRecognized p e.condition_id
