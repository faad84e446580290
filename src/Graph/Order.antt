-- ===== src/Graph/Order.antt =====
-- `topological_sort`: every node of the subset once, its neighbours in the subset in front of it.
use ran_tan_plan.Prelude.{
  ℕ, ◌<◌, ◌≤◌, ◌≡◌, refl, ◌↔◌, inl, inr, false, Option, some, List, [], ◌∷◌, ◌++◌, arith, replicate,
  Bool-cases, In, Distinct, ⊎_elim, unset, unset-le-length, length-replicate, get_or-replicate,
  true-ne-false,
}
use ran_tan_plan.Graph.{
  Graph, num_nodes, Walk, is_visited, post_order_dfs, visit_roots, topological_sort,
}
use ran_tan_plan.Graph.Dfs.{
  Closed, Acyclic, IsWalk, Later, CallOk, post_order_lem, Later-refl, Later-trans,
}

module _ (g : Graph) (nodes : List ℕ) (rank : ℕ → ℕ)
    (inside : (u : ℕ) → In u nodes → u < num_nodes g) where
  roots_lem :
      (call : ℕ → Walk → Option Walk) (k : ℕ)
      → CallOk g nodes rank inside call k
      → (us : List ℕ) (w : Walk) → ((u : ℕ) → In u us → In u nodes)
      → IsWalk g nodes rank [] w
      → unset w.visited ≤ k
      → (w' : Walk) × (visit_roots call us w ≡ some w')
        × IsWalk g nodes rank [] w'
        × Later w w'
        × ((u : ℕ) → In u us → In u w'.sorted_nodes)
  unfolding visit_roots
  roots_lem call k ok [] w sub i enough =
      (w, refl, i, Later-refl g nodes rank inside w, (λ u m. absurd m))
  roots_lem call k ok (u ∷ us) w sub i enough = elim (Bool-cases (is_visited w u)) [
    | inl old ↦
        let (w', e, i', later, all) = roots_lem call k ok us w (λ x m. sub x (inr m)) i enough in
        (
          w',
          rw old e,
          i',
          later,
          λ x m.
              ⊎_elim
                (λ same. later.keeps x (⊎_elim (λ t. rw same t) (λ t. absurd t) (i.seen u old)))
                (all x) m,
        )
    | inr new ↦
        let (w1, e1, i1, later1, hit) =
          ok [] u w i (sub u (inl refl)) new (λ a x m. absurd m) enough in
        let (w', e, i', later, all) =
          roots_lem call k ok us w1 (λ x m. sub x (inr m)) i1 (omega (arith, later1.fewer)) in
        (
          w',
          rw (new, e1) e,
          i',
          Later-trans g nodes rank inside w w1 w' later1 later,
          λ x m. ⊎_elim (λ same. later.keeps x (rw same hit)) (all x) m,
        )
  ]

  abbrev begin : Walk
  begin = record { visited = replicate (num_nodes g) false; sorted_nodes = [] }

  begin-IsWalk : IsWalk g nodes rank [] begin
  begin-IsWalk = record {
    size = length-replicate (num_nodes g) false;
    seen = λ v h. absurd (true-ne-false h (get_or-replicate (num_nodes g) v false));
    marked = λ v h. ⊎_elim (λ t. absurd t) (λ t. absurd t) h;
    apart = λ v m. absurd m;
    distinct = tt;
    inside = λ v m. absurd m;
    closed = λ a front u back e. absurd (nothing front u back e);
  }
    where
      nothing : (front : List ℕ) (u : ℕ) (back : List ℕ) → [] ≡ front ++ u ∷ back → ⊥
      nothing [] u back e = cc
      nothing (x ∷ front) u back e = cc

  sorted :
      (w : Walk) × (visit_roots (post_order_dfs g nodes (num_nodes g)) nodes begin ≡ some w)
      × IsWalk g nodes rank [] w
      × ((u : ℕ) → In u nodes → In u w.sorted_nodes)
  sorted =
      let all_open : unset begin.visited ≤ num_nodes g =
        omega (arith, unset-le-length begin.visited, length-replicate (num_nodes g) false) in
      let (w, e, i, _, all) =
        roots_lem (post_order_dfs g nodes (num_nodes g)) (num_nodes g)
          (post_order_lem g nodes rank inside (num_nodes g)) nodes begin (λ u m. m) begin-IsWalk
          all_open in
      (w, e, i, all)

-- If every node of the subset is a node of the graph, `topological_sort` returns a list of the nodes
-- of the subset, each once.
pub topological_sort_lem :
    (g : Graph) (nodes : List ℕ)
    → ((u : ℕ) → In u nodes → u < num_nodes g)
    → (l : List ℕ) × (topological_sort g nodes ≡ some l)
      × Distinct l
      × ((v : ℕ) → In v l ↔ In v nodes)
unfolding topological_sort
topological_sort_lem g nodes inside =
    let (w, e, i, all) = sorted g nodes (λ u. u) inside in
    (w.sorted_nodes, rw e refl, i.distinct, λ v. (i.inside v, all v))

-- If moreover a rank falls along every edge of the subset, so that it has no cycle, then every
-- neighbour of a node that lies in the subset stands in front of that node.
pub topological_sort-Closed :
    (g : Graph) (nodes : List ℕ) (rank : ℕ → ℕ)
    → ((u : ℕ) → In u nodes → u < num_nodes g)
    → Acyclic g nodes rank
    → (l : List ℕ) × (topological_sort g nodes ≡ some l) × Closed g nodes l
unfolding topological_sort
topological_sort-Closed g nodes rank inside acyclic =
    let (w, e, i, all) = sorted g nodes rank inside in (w.sorted_nodes, rw e refl, i.closed acyclic)
