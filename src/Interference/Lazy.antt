-- ===== src/Interference/Lazy.antt =====
-- rantanplan/cpp/src/analysis/lazy_interference_analysis.cpp: the pairwise test on demand. The cache is
-- an association list under the pair of ids, an action that is handed over is its id, and a step that
-- may fill the cache returns it.
pub mod Cached
pub mod Executed
use ran_tan_plan.Prelude.{
  ℕ, zero, suc, Bool, true, false, ◌&&◌, Option, none, some, List, [], ◌∷◌, length, leb, ◌==◌,
  get_or, range, if◌then◌else◌, ◌>>=◌,
}
use ran_tan_plan.Graph.{Graph, make, add_edge, topological_sort}
use ran_tan_plan.Interference.{ActionAnalysis}
use ran_tan_plan.Interference.Analyses.{interferes}

abbrev pub Cache : Type 0
Cache = List ((ℕ × ℕ) × Bool)

-- `interference_cache_.find`
pub find : Cache → ℕ → ℕ → Option Bool
find [] a b = none
find (((c, d), v) ∷ cache) a b =
    let rest = find cache a b in if (a == c) && (b == d) then some v else rest

-- What is returned for the entry that `find` gives: an answer that is computed is cached.
pub respond : List ActionAnalysis → ℕ → ℕ → Cache → Option Bool → Bool × Cache
respond analyses a b cache (some v) = (v, cache)
respond analyses a b cache none =
    (interferes analyses a b, ((a, b), interferes analyses a b) ∷ cache)

pub compute_interference : List ActionAnalysis → ℕ → ℕ → Cache → Bool × Cache
compute_interference analyses a b cache = respond analyses a b cache (find cache a b)

-- A run of `has_interference`.
pub ask : List ActionAnalysis → List (ℕ × ℕ) → Cache → List Bool × Cache
ask analyses [] cache = ([], cache)
ask analyses ((a, b) ∷ queries) cache =
    let (answer, cache1) = compute_interference analyses a b cache in
    let (answers, cache2) = ask analyses queries cache1 in (answer ∷ answers, cache2)

-- The loops that build the graph of the actions to be sorted.
pub connect_pair : List ActionAnalysis → List ℕ → ℕ → ℕ → Cache × Graph → Cache × Graph
connect_pair analyses ids i j (cache, g) =
    let (hit, cache1) = compute_interference analyses (get_or ids i 0) (get_or ids j 0) cache in
    if i == j
    then (cache, g)
    else (cache1, if hit then add_edge g (get_or ids i 0) (get_or ids j 0) else g)

pub connect_row : List ActionAnalysis → List ℕ → ℕ → List ℕ → Cache × Graph → Cache × Graph
connect_row analyses ids i [] s = s
connect_row analyses ids i (j ∷ js) s =
    connect_row analyses ids i js (connect_pair analyses ids i j s)

pub connect_rows : List ActionAnalysis → List ℕ → List ℕ → List ℕ → Cache × Graph → Cache × Graph
connect_rows analyses ids js [] s = s
connect_rows analyses ids js (i ∷ rows) s =
    connect_rows analyses ids js rows (connect_row analyses ids i js s)

-- `topological_sort_actions`; `count` is the number of actions of the problem.
pub topological_sort_actions : List ActionAnalysis → ℕ → List ℕ → Cache → Option (List ℕ) × Cache
topological_sort_actions analyses count actions cache =
    let positions = range (length actions) in
    let (cache1, temp_subgraph) =
      connect_rows analyses actions positions positions (cache, make count) in
    if leb (length actions) 1
    then (some actions, cache)
    else (topological_sort temp_subgraph actions, cache1)
