-- ===== src/Graph.antt =====
-- rantanplan/cpp/src/analysis/graph.hpp and graph.cpp: directed graphs over the actions, and the order
-- in which parallel actions are executed. Node ids are not negative, as the callers have it. The first
-- half of `topological_sort`, whose result is cleared, is left out. The walk takes fuel, `none` when it
-- is used up.
pub mod Edges
pub mod Dfs
pub mod Order
mod Tests
use ran_tan_plan.Prelude.{
  ℕ, zero, suc, ◌+◌, Bool, true, false, not, ◌&&◌, Option, none, some, List, [], ◌∷◌, ◌++◌, length,
  get_or, set, replicate, contains, ltb, if◌then◌else◌, ◌>>=◌,
}

pub record Graph : Type 0 where
  pub adjacency_list : List (List ℕ)

abbrev pub num_nodes : Graph → ℕ
num_nodes g = length g.adjacency_list

-- `Graph(num_nodes)`
unfoldable pub make : ℕ → Graph
make n = record { adjacency_list = replicate n [] }

unfoldable pub add_node : Graph → ℕ × Graph
add_node g = (num_nodes g, record { adjacency_list = g.adjacency_list ++ [] ∷ [] })

abbrev pub get_neighbours : Graph → ℕ → List ℕ
get_neighbours g node = get_or g.adjacency_list node []

unfoldable pub add_edge : Graph → ℕ → ℕ → Graph
add_edge g source target =
    if ltb source (num_nodes g) && ltb target (num_nodes g)
    then if contains (get_neighbours g source) target then g else record {
      adjacency_list = set g.adjacency_list source (get_neighbours g source ++ target ∷ []);
    }
    else g

pub has_edge : Graph → ℕ → ℕ → Bool
has_edge g source target =
    ltb source (num_nodes g)
    && (ltb target (num_nodes g) && contains (get_neighbours g source) target)

abbrev sum_lengths : List (List ℕ) → ℕ
sum_lengths [] = 0
sum_lengths (vs ∷ rows) = length vs + sum_lengths rows

pub num_edges : Graph → ℕ
num_edges g = sum_lengths g.adjacency_list

-- The state of the walk.
pub record Walk : Type 0 where
  pub visited : List Bool
  pub sorted_nodes : List ℕ

abbrev pub is_visited : Walk → ℕ → Bool
is_visited w u = get_or w.visited u false

abbrev pub mark : Walk → ℕ → Walk
mark w u = record w { visited = set w.visited u true }

abbrev pub push : Walk → ℕ → Walk
push w u = record w { sorted_nodes = w.sorted_nodes ++ u ∷ [] }

-- The loop over the neighbours; `call` is the recursive call.
pub visit_neighbours : (ℕ → Walk → Option Walk) → List ℕ → List ℕ → Walk → Option Walk
visit_neighbours call nodes [] w = some w
visit_neighbours call nodes (v ∷ vs) w = do
  w' ← if contains nodes v && not (is_visited w v) then call v w else some w
  visit_neighbours call nodes vs w'

pub post_order_dfs : Graph → List ℕ → ℕ → ℕ → Walk → Option Walk
post_order_dfs g nodes zero u w = none
post_order_dfs g nodes (suc fuel) u w = do
  w' ← visit_neighbours (post_order_dfs g nodes fuel) nodes (get_neighbours g u) (mark w u)
  some (push w' u)

pub visit_roots : (ℕ → Walk → Option Walk) → List ℕ → Walk → Option Walk
visit_roots call [] w = some w
visit_roots call (u ∷ us) w = do
  w' ← if not (is_visited w u) then call u w else some w
  visit_roots call us w'

pub topological_sort : Graph → List ℕ → Option (List ℕ)
topological_sort g nodes = do
  w ←
      visit_roots (post_order_dfs g nodes (num_nodes g)) nodes
        (record { visited = replicate (num_nodes g) false; sorted_nodes = [] })
  some w.sorted_nodes
