-- ===== src/Interference/Lazy/Executed.antt =====
-- `topological_sort_actions` on the temporary graph of the actions that are sorted.
use ran_tan_plan.Prelude.{ℕ, ◌<◌, Bool, List, In, Distinct, length, get_or, range}
use ran_tan_plan.Graph.{Graph, make}
use ran_tan_plan.Interference.{ActionAnalysis}
use ran_tan_plan.Interference.Analyses.{interferes}
use ran_tan_plan.Interference.Eager.{compare_rows}

-- The test at two positions.
abbrev at : List ActionAnalysis → List ℕ → ℕ → ℕ → Bool
at analyses ids i j = interferes analyses (get_or ids i 0) (get_or ids j 0)

module _ (analyses : List ActionAnalysis) (count : ℕ) (actions : List ℕ)
    (low : (u : ℕ) → In u actions → u < count) (d : Distinct actions) where
  abbrev compared : Graph
  compared =
      compare_rows (at analyses actions) actions (range (length actions)) (range (length actions))
        (make count)
