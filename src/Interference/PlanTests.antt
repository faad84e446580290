-- ===== src/Interference/PlanTests.antt =====
-- The interference graph of the actions that exchange two numbers, eager and lazy, and the order of an
-- action that is alone.
use ran_tan_plan.Prelude.{
  ℕ, zero, suc, ◌<◌, ◌≡◌, refl, sym, inl, inr, some, List, [], ◌∷◌, In, arith, ap, eq_of_some,
  ⊎_elim, subst,
}
use ran_tan_plan.Expr.Kinds.{kind_beq, op_beq}
use ran_tan_plan.Expr.Node.{ref, id_beq}
use ran_tan_plan.Expr.Node.Equal.{is_in}
use ran_tan_plan.Expr.Pool.{is_constant, get, is_op, is_kind, children, arguments}
use ran_tan_plan.Graph.{Graph, make, add_node, add_edge, has_edge}
use ran_tan_plan.Problem.{Action, is_assign, is_bool_type}
use ran_tan_plan.Problem.Examples.{assign, shift, shift-IsOrdered}
use ran_tan_plan.Interference.{
  ActionAnalysis, collect_fluent, collect_each, collect_from, nothing_collected, collect_all, put,
  analyze_action, actions_interfere, disturbs, has_intersection, analyze_preconditions,
  analyze_effects, analyze_condition, analyze_value, nothing_analyzed, names, constant_value,
}
use ran_tan_plan.Interference.Total.{EffectBelow}
use ran_tan_plan.Interference.Analyses.{analyze_all_actions, IsNumbered, ActionBelow}
use ran_tan_plan.Interference.Independent.{Independent}
use ran_tan_plan.Interference.Eager.{
  compare_rows, compare_row, compare_pair, add_nodes, action_ids, initialize,
}
use ran_tan_plan.Interference.Eager.Built.{initialize-IsInterferenceGraph, IsInterferenceGraph}
use ran_tan_plan.Interference.Lazy
use ran_tan_plan.Interference.Lazy.{Cache, ask, compute_interference}
use ran_tan_plan.Interference.Lazy.Cached.{
  IsSound, empty-IsSound, ask_lem, answers, eager_lazy_agree,
}

shift-IsNumbered : IsNumbered shift.actions
shift-IsNumbered zero a e = ap (λ b. b.id) (sym (eq_of_some e))
shift-IsNumbered (suc zero) a e = ap (λ b. b.id) (sym (eq_of_some e))
shift-IsNumbered (suc (suc i)) a e = cc

assign-ActionBelow : (i f v : ℕ) → v < 3 → ActionBelow 3 (assign i (ref f) (ref v))
assign-ActionBelow i f v h =
    (tt, λ e m. ⊎_elim (λ same. subst (EffectBelow 3) (sym same) (tt, h)) (λ k. absurd k) m)

shift_low : (a : Action) → In a shift.actions → ActionBelow 3 a
shift_low a (inl e) = subst (ActionBelow 3) (sym e) (assign-ActionBelow 0 0 1 (omega arith))
shift_low a (inr (inl e)) = subst (ActionBelow 3) (sym e) (assign-ActionBelow 1 1 2 (omega arith))
shift_low a (inr (inr m)) = absurd m

abbrev moved : ℕ → ℕ → ActionAnalysis
moved f v = record nothing_analyzed {
  all_effects = ref f ∷ [];
  numeric_effects = ref f ∷ [];
  numeric_effect_dependencies = ref v ∷ [];
}

abbrev shift_analyses : List ActionAnalysis
shift_analyses = moved 0 1 ∷ moved 1 2 ∷ []

abbrev shift_graph : Graph
shift_graph = record { adjacency_list = [] ∷ (0 ∷ []) ∷ [] }

shift_initialized : initialize shift 3 ≡ some (shift_analyses, shift_graph)
unfolding initialize analyze_all_actions compare_rows compare_row compare_pair add_nodes action_ids
    add_node make add_edge actions_interfere disturbs has_intersection is_in analyze_action
    analyze_preconditions analyze_effects analyze_condition analyze_value collect_all collect_from
    collect_each collect_fluent put nothing_collected nothing_analyzed names constant_value is_op
    is_kind is_constant children arguments get is_bool_type is_assign id_beq kind_beq op_beq
shift_initialized = refl

initialize-IsInterferenceGraph_example :
    (analyses : List ActionAnalysis) × (g : Graph) × (initialize shift 3 ≡ some (analyses, g))
    × (analyze_all_actions shift 3 shift.actions ≡ some analyses)
    × IsInterferenceGraph 2 analyses g
initialize-IsInterferenceGraph_example =
    initialize-IsInterferenceGraph shift 3 shift-IsOrdered shift-IsNumbered shift_low

abbrev queries : List (ℕ × ℕ)
queries = (0, 1) ∷ (1, 0) ∷ (0, 1) ∷ []

ask_lem_example :
    ((ask shift_analyses queries []).0 ≡ answers shift_analyses queries)
    × IsSound shift_analyses (ask shift_analyses queries []).1
ask_lem_example = ask_lem shift_analyses queries [] (empty-IsSound shift_analyses)

eager_lazy_agree_example :
    (compute_interference shift_analyses 1 0 (ask shift_analyses queries []).1).0
    ≡ has_edge shift_graph 1 0
eager_lazy_agree_example =
    eager_lazy_agree shift 3 shift_analyses shift_graph queries 1 0 shift-IsNumbered
      shift_initialized (omega arith) (omega arith) (λ e. omega (arith, e))
