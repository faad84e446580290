-- ===== src/Interference/Eager/Built.antt =====
-- The interference graph has exactly the edges that the pairwise test finds.
use ran_tan_plan.Prelude.{
  ℕ, zero, suc, ◌+◌, ◌<◌, ◌≡◌, refl, sym, ap, ◌∙◌, subst, ◌≢◌, ◌↔◌, ◌⊎◌, inr, true, Option, none,
  some, List, [], ◌∷◌, ◌++◌, arith, length, length-append, get_or, get_elem?, range, >>=-eq-some,
  In, ⊎_elim,
}
use ran_tan_plan.Graph.{Graph, num_nodes, make, add_node, has_edge}
use ran_tan_plan.Graph.Edges.{has_edge→In}
use ran_tan_plan.Problem.{Problem, Action}
use ran_tan_plan.Expr.Pool.Laws.{IsOrdered}
use ran_tan_plan.Interference.{ActionAnalysis}
use ran_tan_plan.Interference.Analyses.{
  analyze_all_actions, interferes, IsNumbered, ActionBelow, analyze_all_actions-Returns,
}
use ran_tan_plan.Interference.Eager.Compared.{Pair, compare_rows_lem, below_range, in_range}
use ran_tan_plan.Interference.Eager.{add_nodes, action_ids, compare_rows, initialize}

abbrev NoEdges : List (List ℕ) → Type 0
NoEdges rows = (i : ℕ) → get_or rows i [] ≡ []

NoEdges-snoc : (rows : List (List ℕ)) → NoEdges rows → NoEdges (rows ++ [] ∷ [])
NoEdges-snoc [] h zero = refl
NoEdges-snoc [] h (suc i) = refl
NoEdges-snoc (r ∷ rows) h zero = h zero
NoEdges-snoc (r ∷ rows) h (suc i) = NoEdges-snoc rows (λ j. h (suc j)) i

add_nodes_lem :
    (n : ℕ) (rows : List (List ℕ))
    → NoEdges rows
    → NoEdges (add_nodes n (record { adjacency_list = rows })).adjacency_list
      × (num_nodes (add_nodes n (record { adjacency_list = rows })) ≡ n + length rows)
unfolding add_nodes add_node
add_nodes_lem zero rows h = (h, omega arith)
add_nodes_lem (suc n) rows h =
    let (none', size) = add_nodes_lem n (rows ++ [] ∷ []) (NoEdges-snoc rows h) in
    (none', omega (arith, size, length-append {0} rows ([] ∷ [])))

ids-at :
    (actions : List Action) (i : ℕ)
    → i < length actions
    → (a : Action) × (get_elem? actions i ≡ some a) × (get_or (action_ids actions) i 0 ≡ a.id)
unfolding action_ids
ids-at [] i h = absurd (omega arith)
ids-at (a ∷ rest) zero h = (a, refl, refl)
ids-at (a ∷ rest) (suc i) h = ids-at rest i (omega arith)

IsNumbered→ids :
    (actions : List Action)
    → IsNumbered actions
    → (i : ℕ) → i < length actions
    → get_or (action_ids actions) i 0 ≡ i
IsNumbered→ids actions v i h = let (a, m, e) = ids-at actions i h in e ∙ v i a m

no_rows : NoEdges []
no_rows i = refl

abbrev built : Problem → List ActionAnalysis → Graph
built p analyses =
    let n = length p.actions in
    compare_rows (interferes analyses) (action_ids p.actions) (range n) (range n)
      (add_nodes n (make 0))

-- The edges of the graph that is built.
abbrev pub IsInterferenceGraph : ℕ → List ActionAnalysis → Graph → Type 0
IsInterferenceGraph n analyses g =
    (num_nodes g ≡ n)
    × ((a b : ℕ)
        → (has_edge g a b ≡ true)
          ↔ ((a < n) × (b < n) × (a ≢ b) × (interferes analyses a b ≡ true)))

at_pair :
    (p : Problem) (analyses : List ActionAnalysis) (i j a b : ℕ)
    → IsNumbered p.actions
    → i < length p.actions
    → j < length p.actions
    → Pair (interferes analyses) (action_ids p.actions) i j a b
    → (a < length p.actions) × (b < length p.actions) × (a ≢ b) × (interferes analyses a b ≡ true)
at_pair p analyses i j a b v hi hj (apart, k, ea, eb) =
    let n = length p.actions in
    let source : i ≡ a = sym (ea ∙ IsNumbered→ids p.actions v i hi) in
    let target : j ≡ b = sym (eb ∙ IsNumbered→ids p.actions v j hj) in
    subst (λ x. (x < n) × (b < n) × (x ≢ b) × (interferes analyses x b ≡ true)) source
      (subst (λ y. (i < n) × (y < n) × (i ≢ y) × (interferes analyses i y ≡ true)) target
        (hi, hj, apart, k))

abbrev empty : Problem → Graph
empty p = add_nodes (length p.actions) (make 0)

rows :
    (p : Problem) (analyses : List ActionAnalysis) (a b : ℕ)
    → IsNumbered p.actions
    → num_nodes (empty p) ≡ length p.actions
    → (num_nodes (built p analyses) ≡ length p.actions)
      × ((has_edge (built p analyses) a b ≡ true) ↔ (
          (has_edge (empty p) a b ≡ true)
          ⊎ ((i : ℕ) × (j : ℕ) × In i (range (length p.actions))
              × In j (range (length p.actions))
              × Pair (interferes analyses) (action_ids p.actions) i j a b)))
rows p analyses a b v size =
    compare_rows_lem (interferes analyses) (action_ids p.actions) (length p.actions)
      (length p.actions)
      (λ i h. subst (λ x. x < length p.actions) (sym (IsNumbered→ids p.actions v i h)) h)
      (range (length p.actions)) (range (length p.actions)) (empty p) a b size
      (below_range (length p.actions)) (below_range (length p.actions))

built-IsInterferenceGraph :
    (p : Problem) (analyses : List ActionAnalysis)
    → IsNumbered p.actions
    → IsInterferenceGraph (length p.actions) analyses (built p analyses)
unfolding make
built-IsInterferenceGraph p analyses v =
    let (none', size) = add_nodes_lem (length p.actions) [] no_rows in
    (
      (rows p analyses 0 0 v (omega (arith, size))).0,
      λ a b.
          let (_, edge) = rows p analyses a b v (omega (arith, size)) in
          (
            (λ h.
                ⊎_elim (λ k. absurd (subst (λ l. In b l) (none' a) (has_edge→In (empty p) a b k)))
                  (λ (i, j, mi, mj, pair).
                    at_pair p analyses i j a b v (below_range _ i mi) (below_range _ j mj) pair)
                  (edge.0 h)),
            (λ (ha, hb, apart, k). edge.1 (
                inr (
                  a,
                  b,
                  in_range _ a ha,
                  in_range _ b hb,
                  (
                    apart,
                    k,
                    sym (IsNumbered→ids p.actions v a ha),
                    sym (IsNumbered→ids p.actions v b hb),
                  ),
                ))),
          ),
    )

graph_of : Option (List ActionAnalysis × Graph) → List ActionAnalysis × Graph
graph_of none = ([], make 0)
graph_of (some r) = r

initialize_inv :
    (p : Problem) (fuel : ℕ) (analyses : List ActionAnalysis) (g : Graph)
    → initialize p fuel ≡ some (analyses, g)
    → (analyze_all_actions p fuel p.actions ≡ some analyses) × (g ≡ built p analyses)
unfolding initialize graph_of
initialize_inv p fuel analyses g h =
    let (rs, e, h') = >>=-eq-some (analyze_all_actions p fuel p.actions) _ h in
    let same : rs ≡ analyses = ap (λ r. (graph_of r).0) h' in
    let graph : built p rs ≡ g = ap (λ r. (graph_of r).1) h' in
    (e ∙ ap some same, sym graph ∙ ap (built p) same)

-- A graph that `initialize` returns is the interference graph of the analyses that it returns.
pub initialize_returned :
    (p : Problem) (fuel : ℕ) (analyses : List ActionAnalysis) (g : Graph)
    → IsNumbered p.actions
    → initialize p fuel ≡ some (analyses, g)
    → (analyze_all_actions p fuel p.actions ≡ some analyses)
      × IsInterferenceGraph (length p.actions) analyses g
initialize_returned p fuel analyses g v h =
    let (e, same) = initialize_inv p fuel analyses g h in
    (
      e,
      subst (λ x. IsInterferenceGraph (length p.actions) analyses x) (sym same)
          (built-IsInterferenceGraph p analyses v),
    )

-- In a pool where children stand before their parents, with more fuel than the handles of the actions,
-- and where the ids of the actions are their places, `initialize` returns the analyses of all actions
-- and a graph that has a node for each action, and an edge from one id to another exactly if both are
-- ids of actions, they are different, and the analysis of the one interferes with that of the other.
pub initialize-IsInterferenceGraph :
    (p : Problem) (fuel : ℕ)
    → IsOrdered p.pool
    → IsNumbered p.actions
    → ((a : Action) → In a p.actions → ActionBelow fuel a)
    → (analyses : List ActionAnalysis) × (g : Graph) × (initialize p fuel ≡ some (analyses, g))
      × (analyze_all_actions p fuel p.actions ≡ some analyses)
      × IsInterferenceGraph (length p.actions) analyses g
unfolding initialize
initialize-IsInterferenceGraph p fuel o v low =
    let (rs, e) = analyze_all_actions-Returns p fuel p.actions o low in
    (rs, built p rs, rw e refl, e, built-IsInterferenceGraph p rs v)
