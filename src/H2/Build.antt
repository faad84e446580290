-- ===== src/H2/Build.antt =====
-- rantanplan/cpp/src/passes/h2_mutex_checker.cpp: the constructor, phase 1 of `compute`, and the
-- queries. `fact_index_` is the place of a fluent in `index_to_fact_`; as in the map, the last place
-- counts. The walk over a precondition takes fuel, `none` when it is used up.
pub mod Initial
pub mod Facts
pub mod Preconditions
pub mod Effects
pub mod World
pub mod Covered
pub mod Reached
pub mod Mutex
pub mod Total
pub mod Repeated
mod Tests
use ran_tan_plan.Prelude.{
  ℕ, zero, suc, ◌+◌, ◌*◌, Bool, true, false, not, ◌&&◌, Option, none, some, List, [], ◌∷◌, ◌++◌,
  length, get_or, replicate, set, range, foldl, if◌then◌else◌, ◌>>=◌,
}
use ran_tan_plan.Expr.Kinds.{ExprOperator}
use ran_tan_plan.Expr.Node.{ExprId, null, ref, id_beq}
use ran_tan_plan.Expr.Pool.{
  ExprPool, is_state_variable, is_function_application, is_op, children, is_bool_constant,
}
use ran_tan_plan.Problem.{Problem, Action, EffectExpression, Assignment, is_assign, is_bool_type}
use ran_tan_plan.H2.{ActionData, Tables, is_reachable, is_co_reachable, mark_co_reachable, fixpoint}

pub record Checker : Type 0 where
  pub index_to_fact : List ExprId
  pub actions : List ActionData
  pub tables : Tables

-- `fact_index_.find(id)`
unfoldable pub index_of : ExprId → List ExprId → Option ℕ
index_of id [] = none
index_of id (f ∷ fs) = elim (index_of id fs) [
  | some i ↦ some (suc i)
  | none ↦ if id_beq f id then some 0 else none
]

pub bool_facts : Problem → List ExprId → List ExprId
bool_facts p [] = []
bool_facts p (f ∷ fs) = let rest = bool_facts p fs in if is_bool_type p f then f ∷ rest else rest

abbrev pub tracked : Option ℕ → List ℕ
tracked none = []
tracked (some i) = i ∷ []

-- `collect_positive_preconditions` over a list of children.
pub collect_list : (ExprId → Option (List ℕ)) → List ExprId → Option (List ℕ)
collect_list call [] = some []
collect_list call (c ∷ cs) = do here ← call c; rest ← collect_list call cs; some (here ++ rest)

pub is_conjunction : ExprPool → ExprId → Bool
is_conjunction p id = is_function_application p id && is_op p id ExprOperator.and

pub collect : ExprPool → List ExprId → ℕ → ExprId → Option (List ℕ)
collect p facts fuel null = some []
collect p facts zero (ref i) = none
collect p facts (suc fuel) (ref i) =
    let deeper = collect_list (collect p facts fuel) (children p (ref i)) in
    if is_state_variable p (ref i)
    then some (tracked (index_of (ref i) facts))
    else if is_conjunction p (ref i)
    then deeper
    else some []

-- What one effect puts into `add_effects` and `del_effects`.
pub added : ExprPool → List ExprId → EffectExpression → List ℕ
added p facts e =
    if is_assign e.kind && is_bool_constant true p e.value_id
    then tracked (index_of e.fluent_id facts)
    else []

pub deleted : ExprPool → List ExprId → EffectExpression → List ℕ
deleted p facts e =
    if is_assign e.kind
      && (not (is_bool_constant true p e.value_id)
          && (is_bool_constant false p e.value_id && not e.is_conditional))
    then tracked (index_of e.fluent_id facts)
    else []

pub concat_map : (EffectExpression → List ℕ) → List EffectExpression → List ℕ
concat_map f [] = []
concat_map f (e ∷ es) = f e ++ concat_map f es

pub action_data : Problem → List ExprId → ℕ → Action → Option ActionData
action_data p facts fuel a = do
  pre ← if a.has_precondition then collect p.pool facts fuel a.precondition_id else some []
  some (record {
    preconditions = pre;
    add_effects = concat_map (added p.pool facts) a.effects;
    del_effects = concat_map (deleted p.pool facts) a.effects;
  })

pub all_data : Problem → List ExprId → ℕ → List Action → Option (List ActionData)
all_data p facts fuel [] = some []
all_data p facts fuel (a ∷ more) = do
  d ← action_data p facts fuel a
  ds ← all_data p facts fuel more
  some (d ∷ ds)

pub no_marks : ℕ → Tables
no_marks n = record {
  reachable = replicate n false;
  co_reachable = replicate n (replicate n false);
  changed = true;
}

-- The initial state makes the fluent true.
pub initially_true : Problem → ExprId → List Assignment → Bool
initially_true p f [] = false
initially_true p f (a ∷ more) =
    let rest = initially_true p f more in
    if id_beq a.fluent_id f
      && (is_bool_type p a.fluent_id && is_bool_constant true p.pool a.value_id)
    then true
    else rest

-- The places, from `i` on, of the facts that are true initially.
pub init_facts : Problem → ℕ → List ExprId → List ℕ
init_facts p i [] = []
init_facts p i (f ∷ fs) =
    let rest = init_facts p (suc i) fs in
    if initially_true p f p.initial_state then i ∷ rest else rest

-- Phase 1.
pub init_reachable : Tables → ℕ → Tables
init_reachable s i = record s { reachable = set s.reachable i true }

pub init_pair : ℕ → Tables → ℕ → Tables
init_pair i s j = (mark_co_reachable s i j).0

pub init_pairs : List ℕ → Tables → Tables
init_pairs [] s = s
init_pairs (i ∷ is) s = init_pairs is (foldl (init_pair i) s is)

pub initial_tables : ℕ → List ℕ → Tables
initial_tables n init = init_pairs init (foldl init_reachable (no_marks n) init)

abbrev pub rounds : ℕ → ℕ
rounds n = suc (n + n * n)

-- The constructor and `compute`, for `n` facts with more rounds than there are flags.
pub compute : Problem → ℕ → Option Checker
compute p fuel = do
  acts ← all_data p (bool_facts p p.grounded_fluents) fuel p.actions
  t ←
      fixpoint (length (bool_facts p p.grounded_fluents)) acts
        (rounds (length (bool_facts p p.grounded_fluents)))
        (initial_tables (length (bool_facts p p.grounded_fluents))
          (init_facts p 0 (bool_facts p p.grounded_fluents)))
  some (record { index_to_fact = bool_facts p p.grounded_fluents; actions = acts; tables = t })

abbrev mutex_at : Tables → Option ℕ → Option ℕ → Bool
mutex_at t (some i) (some j) = is_reachable t i && (is_reachable t j && not (is_co_reachable t i j))
mutex_at t _ _ = false

pub is_mutex : Checker → ExprId → ExprId → Bool
is_mutex c f g = mutex_at c.tables (index_of f c.index_to_fact) (index_of g c.index_to_fact)

pub mutex_with_all : Checker → ExprId → List ExprId → Bool
mutex_with_all c f [] = true
mutex_with_all c f (g ∷ gs) = is_mutex c f g && mutex_with_all c f gs

pub all_pairs_mutex : Checker → List ExprId → Bool
all_pairs_mutex c [] = true
all_pairs_mutex c (f ∷ fs) = mutex_with_all c f fs && all_pairs_mutex c fs

count_with : Tables → ℕ → List ℕ → ℕ
count_with t i [] = 0
count_with t i (j ∷ js) =
    let rest = count_with t i js in if mutex_at t (some i) (some j) then suc rest else rest

count_pairs : Tables → List ℕ → ℕ
count_pairs t [] = 0
count_pairs t (i ∷ is) = count_with t i is + count_pairs t is

pub mutex_pair_count : Checker → ℕ
mutex_pair_count c = count_pairs c.tables (range (length c.index_to_fact))
