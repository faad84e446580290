-- ===== src/Propagator/Tests.antt =====
-- The propagator on two actions.
use ran_tan_plan.Prelude.{
  ℕ, ◌<◌, ◌≡◌, refl, ◌↔◌, ◌⊎◌, inl, inr, Bool, true, Option, some, List, [], ◌∷◌, arith, In, subst,
  sym, ap, ◌==◌, ◌&&◌,
}
use ran_tan_plan.Expr.Pool.Laws.{Below}
use ran_tan_plan.Graph.{Graph, num_nodes, has_edge}
use ran_tan_plan.Problem.{Action}
use ran_tan_plan.Problem.Examples.{exchange, numbers-IsOrdered}
use ran_tan_plan.Propagator.{SharedState, update_action_trail, record_action, push, pop}
use ran_tan_plan.Propagator.Trail.{IsConsistent}
use ran_tan_plan.Propagator.Restore.{
  fixed_true, pushed, Reachable, start, next, initial, Reachable-IsConsistent, opened, deeper,
  assigned, pop-push,
}
use ran_tan_plan.Propagator.Cycle.{perform_exists_propagation}
use ran_tan_plan.Propagator.Footprint.{build_footprint_index}
use ran_tan_plan.Propagator.Exists.{Outcome, counted, perform_exists_propagation_lem}
use ran_tan_plan.Propagator.Mutex.{build_lookup, forall_on_fixed, lazy_on_fixed}
use ran_tan_plan.Propagator.Mutex.Agree.{Names, forall_modules_agree}

-- The solver sets action 7 at timestep 2, and opens a level.
abbrev one_set : SharedState
one_set = update_action_trail (some (7, 2)) true initial

one_set-Reachable : Reachable (push one_set)
one_set-Reachable = next (next start (fixed_true initial 7 2 (λ m. m))) (pushed one_set)

Reachable-IsConsistent_example : IsConsistent (push one_set)
Reachable-IsConsistent_example = Reachable-IsConsistent (push one_set) one_set-Reachable

apart : ¬ In {A = ℕ × ℕ} (8, 2) (push (push one_set)).action_trail
unfolding push update_action_trail record_action
apart (inl e) = let eight : ◌≡◌ {A = ℕ} 8 7 = ap (λ (p : ℕ × ℕ). p.0) e in absurd (omega arith)
apart (inr m) = m

-- Two levels up, action 8 is set; popping both levels takes it back.
pop-push_example :
    ((pop 2 (update_action_trail (some (8, 2)) true (push (push one_set)))).action_trail
      ≡ one_set.action_trail)
    × ((pop 2 (update_action_trail (some (8, 2)) true (push (push one_set)))).action_decision_levels
        ≡ one_set.action_decision_levels)
    × ((t a : ℕ)
        → In a (
            (pop 2 (
                update_action_trail
                  (some (8, 2))
                  true
                  (push (push one_set)))).active_actions_per_timestep
              t)
          ↔ In a (one_set.active_actions_per_timestep t))
pop-push_example =
    pop-push one_set (update_action_trail (some (8, 2)) true (push (push one_set))) 1
      (Reachable-IsConsistent one_set (next start (fixed_true initial 7 2 (λ m. m))))
      (assigned 8 2 (deeper opened) apart)

no_preconditions : (action : Action) → In action exchange.actions → Below 2 action.precondition_id
no_preconditions a (inl e) = subst (λ (y : Action). Below 2 y.precondition_id) (sym e) tt
no_preconditions a (inr (inl e)) = subst (λ (y : Action). Below 2 y.precondition_id) (sym e) tt
no_preconditions a (inr (inr m)) = absurd m

abbrev other_one : ℕ → ℕ → Bool
other_one a b = (a == 0 && b == 1)

perform_exists_propagation_lem_example :
    (potential : ℕ → List ℕ) × (build_footprint_index exchange 2 ≡ some potential)
    × ((answer : Option (List ℕ)) × (perform_exists_propagation (0 ∷ 1 ∷ []) potential other_one 4
          ≡ some (answer, counted answer 4))
        × Outcome exchange (0 ∷ 1 ∷ []) potential other_one answer)
perform_exists_propagation_lem_example =
    perform_exists_propagation_lem exchange 2 (0 ∷ 1 ∷ []) other_one 4 numbers-IsOrdered
      no_preconditions

-- The edge from 0 to 1.
abbrev edge : Graph
edge = record { adjacency_list = (1 ∷ []) ∷ [] ∷ [] }

abbrev both_active : ℕ → List ℕ
both_active t = 0 ∷ 1 ∷ []

small : (u : ℕ) → In u (0 ∷ 1 ∷ []) → u < num_nodes edge
small u (inl e) = omega arith
small u (inr (inl e)) = omega arith
small u (inr (inr m)) = absurd m

forall_modules_agree_example :
    (Names (forall_on_fixed (build_lookup edge (0 ∷ 1 ∷ []) (λ u. [])) (some (1, 5)) true 0) 0
      ↔ Names (lazy_on_fixed (has_edge edge) both_active (some (1, 5)) true 0) 0)
    × (Names (lazy_on_fixed (has_edge edge) both_active (some (1, 5)) true 0) 0
        ↔ ((has_edge edge 1 0 ≡ true) ⊎ (has_edge edge 0 1 ≡ true)))
forall_modules_agree_example =
    forall_modules_agree edge (0 ∷ 1 ∷ []) both_active 1 0 5 0 small (inr (inl refl)) (inl refl)
      (λ e. omega arith) (inl refl)
