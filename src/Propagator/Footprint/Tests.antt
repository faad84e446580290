-- ===== src/Propagator/Footprint/Tests.antt =====
-- The index of two actions that exchange two numbers: they interfere in both directions, and yet neither
-- is a potential interferer of the other, since neither writes what the other one writes.
use ran_tan_plan.Prelude.{ℕ, ◌≡◌, refl, ◌≢◌, ◌↔◌, some, List, [], ◌>>=◌, In, inl, inr, subst, sym}
use ran_tan_plan.Expr.Node.{ExprId, id_beq}
use ran_tan_plan.Expr.Pool.Laws.{Below}
use ran_tan_plan.Problem.{Action}
use ran_tan_plan.Problem.Examples.{exchange, numbers-IsOrdered}
use ran_tan_plan.Propagator.Footprint.{
  push_action, push_fluents, effect_fluents, precondition_fluents, index_actions, connect,
  connect_with, connect_pairs, connect_fluents, insert_sorted, sort_unique, build_footprint_index,
}
use ran_tan_plan.Propagator.Footprint.Touched.{TouchedBy}
use ran_tan_plan.Propagator.Footprint.Potential.{footprint_lem}

exchange_unseen : (build_footprint_index exchange 2 >>= λ potential. some (potential 0)) ≡ some []
unfolding build_footprint_index index_actions precondition_fluents push_fluents push_action
    effect_fluents connect_fluents connect_pairs connect_with connect insert_sorted sort_unique
    id_beq
exchange_unseen = refl

no_preconditions : (action : Action) → In action exchange.actions → Below 2 action.precondition_id
no_preconditions a (inl e) = subst (λ (y : Action). Below 2 y.precondition_id) (sym e) tt
no_preconditions a (inr (inl e)) = subst (λ (y : Action). Below 2 y.precondition_id) (sym e) tt
no_preconditions a (inr (inr m)) = absurd m

footprint_lem_example :
    (potential : ℕ → List ℕ) × (build_footprint_index exchange 2 ≡ some potential)
    × ((a b : ℕ)
        → In b (potential a) ↔ (
            (a ≢ b)
            × ((f : ExprId) × TouchedBy exchange.pool exchange.actions f a
                × TouchedBy exchange.pool exchange.actions f b)))
footprint_lem_example = footprint_lem exchange 2 numbers-IsOrdered no_preconditions
