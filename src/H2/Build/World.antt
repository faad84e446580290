-- ===== src/H2/Build/World.antt =====
-- The states that a problem can reach, and what `H2MutexChecker` says of them. A valuation gives each
-- boolean expression of the pool its truth value in a state; numeric conditions, negations and
-- disjunctions are free, as the checker ignores them.
use ran_tan_plan.Prelude.{◌≡◌, ◌⊎◌, Bool, true, false, In}
use ran_tan_plan.Expr.Kinds.{ExprKind}
use ran_tan_plan.Expr.Node.{ExprId}
use ran_tan_plan.Expr.Pool.{is_kind, children, is_bool_constant}
use ran_tan_plan.Problem.{Problem, Action, Assignment, EffectExpression, EffectKind, is_bool_type}
use ran_tan_plan.H2.Build.{is_conjunction}

abbrev pub Valuation : Type 0
Valuation = ExprId → Bool

-- Constants have their value, and of a true conjunction every child but the head symbol is true.
pub record IsCoherent (p : Problem) (v : Valuation) : Type 0 where
  pub true_constant : (e : ExprId) → is_bool_constant true p.pool e ≡ true → v e ≡ true
  pub false_constant : (e : ExprId) → is_bool_constant false p.pool e ≡ true → v e ≡ false
  pub conjunction :
      (e : ExprId)
      → is_conjunction p.pool e ≡ true
      → v e ≡ true
      → (c : ExprId) → In c (children p.pool e)
      → (is_kind p.pool c ExprKind.function_symbol ≡ true) ⊎ (v c ≡ true)

-- A grounded fluent is true initially only if the initial state says so.
abbrev pub Initially : Problem → Valuation → Type 0
Initially p v =
    (f : ExprId)
    → In f p.grounded_fluents
    → is_bool_type p f ≡ true
    → v f ≡ true
    → (a : Assignment) × In a p.initial_state
      × (a.fluent_id ≡ f)
      × (is_bool_constant true p.pool a.value_id ≡ true)

abbrev pub Fires : Valuation → EffectExpression → Type 0
Fires v e = (e.is_conditional ≡ false) ⊎ (v e.condition_id ≡ true)

-- The action is applied in `v` and gives `w`. A boolean fluent is true afterwards only if an effect
-- that fires made it so, or if it was true and no effect that fires assigns it anything else.
pub record Happens (p : Problem) (a : Action) (v w : Valuation) : Type 0 where
  pub applicable : a.has_precondition ≡ true → v a.precondition_id ≡ true
  pub after :
      (f : ExprId)
      → is_bool_type p f ≡ true
      → w f ≡ true
      → ((e : EffectExpression) × In e a.effects
          × Fires v e
          × (e.kind ≡ EffectKind.assign)
          × (e.fluent_id ≡ f)
          × (v e.value_id ≡ true))
        ⊎ ((v f ≡ true)
            × ((e : EffectExpression)
                → In e a.effects
                → Fires v e
                → e.kind ≡ EffectKind.assign
                → e.fluent_id ≡ f
                → v e.value_id ≡ true))

pub data Reachable (p : Problem) : Valuation → Type 0 where
  start : {v : Valuation} → IsCoherent p v → Initially p v → Reachable p v
  step :
      {v w : Valuation} (a : Action)
      → In a p.actions
      → Reachable p v
      → Happens p a v w
      → IsCoherent p w
      → Reachable p w

-- Boolean fluents are assigned the constants `true` and `false` only.
abbrev pub AssignsConstants : Problem → Type 0
AssignsConstants p =
    (a : Action)
    → In a p.actions
    → (e : EffectExpression) → In e a.effects
    → e.kind ≡ EffectKind.assign
    → is_bool_type p e.fluent_id ≡ true
    → (is_bool_constant true p.pool e.value_id ≡ true)
      ⊎ (is_bool_constant false p.pool e.value_id ≡ true)
