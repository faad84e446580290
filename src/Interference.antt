-- ===== src/Interference.antt =====
-- rantanplan/cpp/src/problem/visitors/fluent_polarity_collector.cpp and
-- rantanplan/cpp/src/analysis/interference_analysis.cpp: which fluents an action reads and writes, and
-- the directed test whether one action disturbs another. A set of handles is a list here; the
-- analysis of an action that the map does not have is `none`. The walk over an expression takes fuel.
pub mod Collected
pub mod Total
pub mod Effects
pub mod Independent
pub mod Analyses
pub mod Execution
pub mod Eager
pub mod Lazy
mod Tests
mod PlanTests
use ran_tan_plan.Prelude.{
  ℕ, zero, suc, Bool, true, false, not, ◌&&◌, ◌||◌, Option, none, some, List, [], ◌∷◌, ◌++◌,
  if◌then◌else◌, ◌>>=◌, map,
}
use ran_tan_plan.Expr.Kinds.{ExprKind, ExprOperator}
use ran_tan_plan.Expr.Node.{
  ExprId, null, ref, id_beq, ExprNode, ExprPayload, monostate, bool, int64, double, string,
}
use ran_tan_plan.Expr.Node.Equal.{is_in}
use ran_tan_plan.Expr.Pool.{
  ExprPool, get, is_op, is_kind, is_constant, is_state_variable, children, arguments,
}
use ran_tan_plan.Problem.{Problem, Action, EffectExpression, is_assign, is_bool_type}

pub data Polarity : Type 0 where
  positive negative : Polarity

pub record Collection : Type 0 where
  pub boolean_fluents : List (ExprId × Polarity)
  pub numeric_fluents : List ExprId

-- `boolean_fluents_[id] = polarity`: an earlier polarity is overwritten.
pub put : ExprId → Polarity → List (ExprId × Polarity) → List (ExprId × Polarity)
put id q [] = (id, q) ∷ []
put id q ((j, r) ∷ m) = let rest = put id q m in if id_beq j id then (id, q) ∷ m else (j, r) ∷ rest

abbrev polarity_of : Bool → Polarity
polarity_of true = negative
polarity_of false = positive

-- `collect_fluent_by_id`, in a negated context or not.
pub collect_fluent : Problem → Bool → ExprId → Collection → Collection
collect_fluent p negated id c =
    if is_bool_type p id
    then record c { boolean_fluents = put id (polarity_of negated) c.boolean_fluents }
    else record c { numeric_fluents = id ∷ c.numeric_fluents }

pub collect_each :
    (ExprId → Collection → Option Collection) → List ExprId → Collection → Option Collection
collect_each call [] c = some c
collect_each call (e ∷ es) c = do c' ← call e c; collect_each call es c'

abbrev pub is_fluent : ExprPool → ExprId → Bool
is_fluent p e = is_kind p e ExprKind.fluent_symbol || is_kind p e ExprKind.state_variable

-- `collect_from_id`
pub collect_from : Problem → ℕ → Bool → ExprId → Collection → Option Collection
collect_from p fuel negated null c = some c
collect_from p zero negated (ref i) c = none
collect_from p (suc fuel) negated (ref i) c =
    let inside = collect_each (collect_from p fuel (not negated)) (arguments p.pool (ref i)) c in
    let below = collect_each (collect_from p fuel negated) (children p.pool (ref i)) c in
    if is_op p.pool (ref i) ExprOperator.not
    then inside
    else if is_fluent p.pool (ref i)
    then some (collect_fluent p negated (ref i) c)
    else below

pub nothing_collected : Collection
nothing_collected = record { boolean_fluents = []; numeric_fluents = [] }

-- A collector of its own for one expression.
pub collect_all : Problem → ℕ → ExprId → Option Collection
collect_all p fuel e = collect_from p fuel false e nothing_collected

pub record ActionAnalysis : Type 0 where
  pub positive_boolean_preconditions : List ExprId
  pub negative_boolean_preconditions : List ExprId
  pub numeric_preconditions : List ExprId
  pub positive_boolean_effects : List ExprId
  pub negative_boolean_effects : List ExprId
  pub numeric_effects : List ExprId
  pub all_effects : List ExprId
  pub conditional_effect_fluents : List ExprId
  pub numeric_effect_dependencies : List ExprId

pub with_polarity : Bool → List (ExprId × Polarity) → List ExprId
with_polarity b [] = []
with_polarity true ((id, positive) ∷ m) = id ∷ with_polarity true m
with_polarity false ((id, negative) ∷ m) = id ∷ with_polarity false m
with_polarity true ((id, negative) ∷ m) = with_polarity true m
with_polarity false ((id, positive) ∷ m) = with_polarity false m

pub names : List (ExprId × Polarity) → List ExprId
names [] = []
names ((id, q) ∷ m) = id ∷ names m

-- The value of a Boolean constant.
unfoldable pub constant_value : ExprPool → ExprId → Option Bool
constant_value p e = do
  n ← get p e
  if is_constant p e then elim n.payload [ bool b ↦ some b | _ ↦ none ] else none

pub nothing_analyzed : ActionAnalysis
nothing_analyzed = record {
  positive_boolean_preconditions = [];
  negative_boolean_preconditions = [];
  numeric_preconditions = [];
  positive_boolean_effects = [];
  negative_boolean_effects = [];
  numeric_effects = [];
  all_effects = [];
  conditional_effect_fluents = [];
  numeric_effect_dependencies = [];
}

pub record_preconditions : ActionAnalysis → Collection → ActionAnalysis
record_preconditions r c = record r {
  positive_boolean_preconditions = with_polarity true c.boolean_fluents;
  negative_boolean_preconditions = with_polarity false c.boolean_fluents;
  numeric_preconditions = c.numeric_fluents;
}

pub analyze_preconditions : Problem → ℕ → Action → ActionAnalysis → Option ActionAnalysis
analyze_preconditions p fuel a r =
    let found = collect_all p fuel a.precondition_id in
    if a.has_precondition then found >>= (λ c. some (record_preconditions r c)) else some r

-- The condition of an effect that has one.
pub analyze_condition : Problem → ℕ → EffectExpression → ActionAnalysis → Option ActionAnalysis
analyze_condition p fuel e r =
    let found = collect_all p fuel e.condition_id in
    if e.is_conditional
    then found >>= (λ c. some (record r {
      conditional_effect_fluents =
          names c.boolean_fluents ++ c.numeric_fluents ++ r.conditional_effect_fluents;
    }))
    else some r

abbrev assign_constant : EffectExpression → Option Bool → ActionAnalysis → ActionAnalysis
assign_constant e none r = r
assign_constant e (some true) r = record r {
  positive_boolean_effects = e.fluent_id ∷ r.positive_boolean_effects;
}
assign_constant e (some false) r = record r {
  negative_boolean_effects = e.fluent_id ∷ r.negative_boolean_effects;
}

pub analyze_value : Problem → ℕ → EffectExpression → ActionAnalysis → Option ActionAnalysis
analyze_value p fuel e r =
    let found = collect_all p fuel e.value_id in
    if is_assign e.kind && is_bool_type p e.fluent_id
    then some (assign_constant e (constant_value p.pool e.value_id) r)
    else found >>= (λ c. some (record r {
      numeric_effects = e.fluent_id ∷ r.numeric_effects;
      numeric_effect_dependencies = c.numeric_fluents ++ r.numeric_effect_dependencies;
    }))

pub analyze_effects : Problem → ℕ → List EffectExpression → ActionAnalysis → Option ActionAnalysis
analyze_effects p fuel [] r = some r
analyze_effects p fuel (e ∷ es) r = do
  conditioned ← analyze_condition p fuel e (record r { all_effects = e.fluent_id ∷ r.all_effects })
  valued ← analyze_value p fuel e conditioned
  analyze_effects p fuel es valued

pub analyze_action : Problem → ℕ → Action → Option ActionAnalysis
analyze_action p fuel a = do
  r ← analyze_preconditions p fuel a nothing_analyzed
  analyze_effects p fuel a.effects r

pub has_intersection : List ExprId → List ExprId → Bool
has_intersection [] ys = false
has_intersection (x ∷ xs) ys =
    let rest = has_intersection xs ys in if is_in x ys then true else rest

-- The four checks, in the order of the source.
pub disturbs : ActionAnalysis → ActionAnalysis → Bool
disturbs a b =
    (has_intersection a.positive_boolean_effects b.negative_boolean_preconditions
      || (has_intersection a.negative_boolean_effects b.positive_boolean_preconditions
          || has_intersection a.numeric_effects b.numeric_preconditions))
    || (has_intersection a.all_effects b.conditional_effect_fluents
        || (has_intersection a.all_effects b.numeric_effect_dependencies
            || (has_intersection a.positive_boolean_effects b.negative_boolean_effects
                || (has_intersection a.negative_boolean_effects b.positive_boolean_effects
                    || has_intersection a.numeric_effects b.numeric_effects))))

pub actions_interfere : Option ActionAnalysis → Option ActionAnalysis → Bool
actions_interfere (some a) (some b) = disturbs a b
actions_interfere none _ = false
actions_interfere (some a) none = false
