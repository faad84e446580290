-- ===== src/Propagator/Exists.antt =====
-- The module that keeps the steps of a plan executable: the search for cycles on the index that the
-- propagator builds (rantanplan/cpp/src/planners/propagators/modules/exists_cycle_module.cpp).
use ran_tan_plan.Prelude.{
  ℕ, ◌+◌, ◌≡◌, refl, ◌↔◌, Bool, true, ◌≢◌, Option, none, some, List, ◌++◌, ◌∷◌, In, Distinct,
}
use ran_tan_plan.Expr.Node.{ExprId}
use ran_tan_plan.Expr.Pool.Laws.{Below, IsOrdered}
use ran_tan_plan.Problem.{Problem, Action}
use ran_tan_plan.Propagator.Cycle.{perform_exists_propagation, find_cycle_in_active_actions}
use ran_tan_plan.Propagator.Cycle.Walks.{IsCycle}
use ran_tan_plan.Propagator.Cycle.Correct.{Says, find_cycle_lem}
use ran_tan_plan.Propagator.Footprint.{build_footprint_index}
use ran_tan_plan.Propagator.Footprint.Touched.{TouchedBy}
use ran_tan_plan.Propagator.Footprint.Potential.{footprint_lem}

-- The counter of the conflicts that have been raised.
abbrev pub counted : Option (List ℕ) → ℕ → ℕ
counted none count = count
counted (some cycle) count = count + 1

-- An order of the active actions in which every action stands behind those that it interferes with and
-- with which it has a fluent in common.
pub record ExecutionOrder (p : Problem) (active : List ℕ) (has_interference : ℕ → ℕ → Bool)
    (l : List ℕ) : Type 0 where
  pub distinct : Distinct l
  pub members : (v : ℕ) → In v l ↔ In v active
  pub behind :
      (front : List ℕ) (u : ℕ) (back : List ℕ)
      → l ≡ front ++ u ∷ back
      → (v : ℕ) → In v active
      → u ≢ v
      → has_interference u v ≡ true
      → (f : ExprId) → TouchedBy p.pool p.actions f u
      → TouchedBy p.pool p.actions f v
      → In v front

-- The conflict that is raised, or the order.
abbrev pub Outcome : Problem → List ℕ → (ℕ → List ℕ) → (ℕ → ℕ → Bool) → Option (List ℕ) → Type 0
Outcome p active potential has_interference none =
    (l : List ℕ) × ExecutionOrder p active has_interference l
Outcome p active potential has_interference (some cycle) =
    IsCycle active potential has_interference cycle

perform_lem :
    (active : List ℕ) (potential : ℕ → List ℕ) (has_interference : ℕ → ℕ → Bool) (count : ℕ)
    (answer : Option (List ℕ))
    → find_cycle_in_active_actions active potential has_interference ≡ some answer
    → perform_exists_propagation active potential has_interference count
      ≡ some (answer, counted answer count)
unfolding perform_exists_propagation
perform_lem active potential has_interference count none e = rw e refl
perform_lem active potential has_interference count (some cycle) e = rw e refl

-- If children stand before their parents in the pool, and the fuel exceeds the handles of the
-- preconditions, then the propagation for the active actions of a timestep returns. Either it raises a
-- conflict, and counts it: the conflict is a cycle of active actions, each of which interferes with the
-- next one and the last one with the first. Or the active actions have an order in which each of them
-- stands behind every other one that it interferes with and that touches a fluent which it touches too,
-- by an effect or in the precondition.
pub perform_exists_propagation_lem :
    (p : Problem) (fuel : ℕ) (active : List ℕ) (has_interference : ℕ → ℕ → Bool) (count : ℕ)
    → IsOrdered p.pool
    → ((action : Action) → In action p.actions → Below fuel action.precondition_id)
    → (potential : ℕ → List ℕ) × (build_footprint_index p fuel ≡ some potential)
      × ((answer : Option (List ℕ)) × (perform_exists_propagation active potential has_interference
              count
            ≡ some (answer, counted answer count))
          × Outcome p active potential has_interference answer)
perform_exists_propagation_lem p fuel active has_interference count o low =
    let (potential, e, touch) = footprint_lem p fuel o low in
    let (answer, e', says) =
      find_cycle_lem active potential has_interference (λ u m. ((touch u u).0 m).0 refl) in
    (
      potential,
      e,
      (
        answer,
        perform_lem active potential has_interference count answer e',
        outcome potential (λ u v d t. (touch u v).1 (d, t)) answer says,
      ),
    )
  where
    outcome :
        (potential : ℕ → List ℕ)
        → ((u v : ℕ)
            → u ≢ v
            → ((f : ExprId) × TouchedBy p.pool p.actions f u × TouchedBy p.pool p.actions f v)
            → In v (potential u))
        → (answer : Option (List ℕ)) → Says active potential has_interference answer
        → Outcome p active potential has_interference answer
    outcome potential touch (some cycle) says = says
    outcome potential touch none says = (
      says.0,
      record {
        distinct = says.1.distinct;
        members = says.1.members;
        behind = λ front u back e v m d i f t s.
            says.1.behind front u back e v (touch u v d (f, t, s), m, i);
      },
    )
