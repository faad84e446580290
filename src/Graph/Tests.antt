-- ===== src/Graph/Tests.antt =====
-- A graph of three actions with the edges 0 to 1 and 1 to 2.
use ran_tan_plan.Prelude.{
  ℕ, zero, suc, ◌-◌, ◌<◌, ◌≡◌, refl, ◌↔◌, inl, inr, some, List, [], ◌∷◌, arith, In, Distinct,
}
use ran_tan_plan.Graph.{
  Graph, make, add_edge, num_edges, visit_neighbours, post_order_dfs, visit_roots, topological_sort,
  add_node,
}
use ran_tan_plan.Graph.Dfs.{Closed, Acyclic}
use ran_tan_plan.Graph.Order.{topological_sort_lem, topological_sort-Closed}

abbrev line : Graph
line = record { adjacency_list = (1 ∷ []) ∷ (2 ∷ []) ∷ [] ∷ [] }

line_made : add_edge (add_edge (make 3) 0 1) 1 2 ≡ line
unfolding add_edge make
line_made = refl

line_bigger : (add_node line).0 ≡ 3
unfolding add_node
line_bigger = refl

line_edges : num_edges line ≡ 2
unfolding num_edges
line_edges = refl

line_sorted : topological_sort line (0 ∷ 1 ∷ 2 ∷ []) ≡ some (2 ∷ 1 ∷ 0 ∷ [])
unfolding topological_sort visit_roots post_order_dfs visit_neighbours
line_sorted = refl

line_inside : (u : ℕ) → In u (0 ∷ 1 ∷ 2 ∷ []) → u < 3
line_inside u m = ground arith

line-Acyclic : Acyclic line (0 ∷ 1 ∷ 2 ∷ []) (λ u. 3 - u)
line-Acyclic zero v mu mv (inl e) = omega arith
line-Acyclic zero v mu mv (inr e) = absurd e
line-Acyclic (suc zero) v mu mv (inl e) = omega arith
line-Acyclic (suc zero) v mu mv (inr e) = absurd e
line-Acyclic (suc (suc zero)) v mu mv e = absurd e
line-Acyclic (suc (suc (suc u))) v mu mv e = absurd e

topological_sort_lem_example :
    (l : List ℕ) × (topological_sort line (0 ∷ 1 ∷ 2 ∷ []) ≡ some l)
    × Distinct l
    × ((v : ℕ) → In v l ↔ In v (0 ∷ 1 ∷ 2 ∷ []))
topological_sort_lem_example = topological_sort_lem line (0 ∷ 1 ∷ 2 ∷ []) line_inside

topological_sort-Closed_example :
    (l : List ℕ) × (topological_sort line (0 ∷ 1 ∷ 2 ∷ []) ≡ some l)
    × Closed line (0 ∷ 1 ∷ 2 ∷ []) l
topological_sort-Closed_example =
    topological_sort-Closed line (0 ∷ 1 ∷ 2 ∷ []) (λ u. 3 - u) line_inside line-Acyclic
