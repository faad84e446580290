-- ===== src/Interference/Eager.antt =====
-- rantanplan/cpp/src/analysis/eager_interference_analysis.cpp: the interference graph of all pairs of
-- actions. Memory, time and messages are left out, and an action that is handed over is its id.
pub mod Compared
pub mod Built
pub mod Executed
use ran_tan_plan.Prelude.{
  ℕ, zero, suc, Bool, true, false, Option, none, some, List, [], ◌∷◌, length, leb, ltb, ◌==◌,
  get_or, range, if◌then◌else◌, ◌>>=◌, map,
}
use ran_tan_plan.Graph.{Graph, make, add_node, add_edge, has_edge, topological_sort}
use ran_tan_plan.Problem.{Problem, Action}
use ran_tan_plan.Interference.{ActionAnalysis}
use ran_tan_plan.Interference.Analyses.{analyze_all_actions, interferes}

unfoldable pub add_nodes : ℕ → Graph → Graph
add_nodes zero g = g
add_nodes (suc n) g = add_nodes n (add_node g).1

unfoldable pub action_ids : List Action → List ℕ
action_ids [] = []
action_ids (a ∷ rest) = a.id ∷ action_ids rest

-- One pair of positions; `test` says whether the action at the one interferes with that at the other.
unfoldable pub compare_pair : (ℕ → ℕ → Bool) → List ℕ → ℕ → ℕ → Graph → Graph
compare_pair test ids i j g =
    if i == j then g else if test i j then add_edge g (get_or ids i 0) (get_or ids j 0) else g

unfoldable pub compare_row : (ℕ → ℕ → Bool) → List ℕ → ℕ → List ℕ → Graph → Graph
compare_row test ids i [] g = g
compare_row test ids i (j ∷ js) g = compare_row test ids i js (compare_pair test ids i j g)

-- `analyze_action_conflicts`, for the rows that are left.
unfoldable pub compare_rows : (ℕ → ℕ → Bool) → List ℕ → List ℕ → List ℕ → Graph → Graph
compare_rows test ids js [] g = g
compare_rows test ids js (i ∷ rows) g = compare_rows test ids js rows (compare_row test ids i js g)

-- `initialize`: the analyses and the graph.
unfoldable pub initialize : Problem → ℕ → Option (List ActionAnalysis × Graph)
initialize p fuel = do
  analyses ← analyze_all_actions p fuel p.actions
  let n = length p.actions
  some (
    analyses,
    compare_rows (interferes analyses) (action_ids p.actions) (range n) (range n)
        (add_nodes n (make 0)),
  )

-- The ids that are looked up in the problem; others are dropped.
pub known_actions : ℕ → List ℕ → List ℕ
known_actions count [] = []
known_actions count (id ∷ ids) =
    let rest = known_actions count ids in if ltb id count then id ∷ rest else rest

-- `topological_sort_actions`; `count` is the number of actions of the problem.
pub topological_sort_actions : Graph → ℕ → List ℕ → Option (List ℕ)
topological_sort_actions g count actions =
    let sorted = topological_sort g actions >>= λ ids. some (known_actions count ids) in
    if leb (length actions) 1 then some actions else sorted
