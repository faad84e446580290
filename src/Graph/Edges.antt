-- ===== src/Graph/Edges.antt =====
-- The edges of a graph that is built edge by edge.
use ran_tan_plan.Prelude.{
  ℕ, ◌<◌, ◌≡◌, refl, inl, inr, Bool, true, false, ◌&&◌, ◌||◌, List, [], ◌∷◌, ◌++◌, arith, set,
  contains, ltb, ◌==◌, Bool-cases, get_or-set, length-set, ==_iff, ltb→lt, and_left, and_right, In,
  contains→In, In→contains, lt→ltb,
}
use ran_tan_plan.Graph.{Graph, num_nodes, get_neighbours, add_edge, has_edge}

contains-append : (xs : List ℕ) (a b : ℕ) → contains (xs ++ a ∷ []) b ≡ (contains xs b || (a == b))
contains-append [] a b = ground arith
contains-append (x ∷ xs) a b = rw (contains-append xs a b) (ground arith)

-- A bigger graph: the edge is there afterwards.
grown : Graph → ℕ → ℕ → Graph
grown g s t = record { adjacency_list = set g.adjacency_list s (get_neighbours g s ++ t ∷ []) }

has_edge-grown :
    (g : Graph) (s t a b : ℕ)
    → s < num_nodes g
    → t < num_nodes g
    → has_edge (grown g s t) a b ≡ (has_edge g a b || ((a == s) && (b == t)))
unfolding has_edge grown
has_edge-grown g s t a b hs ht =
    rw
      (
        length-set g.adjacency_list s (get_neighbours g s ++ t ∷ []),
        get_or-set g.adjacency_list s a (get_neighbours g s ++ t ∷ []) [] hs,
      )
      (elim (Bool-cases (s == a)) [
        | inl e ↦
            let same : s ≡ a = (==_iff s a).0 e in
            rw (e, contains-append (get_neighbours g s) t b, same) (ground arith)
        | inr e ↦ rw e (ground arith)
      ])

listed-has_edge :
    (g : Graph) (s t : ℕ)
    → ltb s (num_nodes g) ≡ true
    → ltb t (num_nodes g) ≡ true
    → contains (get_neighbours g s) t ≡ true
    → has_edge g s t ≡ true
unfolding has_edge
listed-has_edge g s t ls lt k = rw (ls, lt, k) refl

or_known : (x c : Bool) → (c ≡ true → x ≡ true) → x ≡ (x || c)
or_known true c h = refl
or_known false true h = h refl
or_known false false h = refl

pub has_edge-add_edge :
    (g : Graph) (s t a b : ℕ)
    → (has_edge (add_edge g s t) a b ≡ (
        has_edge g a b || ((ltb s (num_nodes g) && ltb t (num_nodes g)) && ((a == s) && (b == t)))))
      × (num_nodes (add_edge g s t) ≡ num_nodes g)
unfolding add_edge grown
has_edge-add_edge g s t a b = elim (Bool-cases (ltb s (num_nodes g) && ltb t (num_nodes g))) [
  | inr e ↦ rw (e, add_edge) (or_false (has_edge g a b), refl)
  | inl e ↦ elim (Bool-cases (contains (get_neighbours g s) t)) [
    | inl k ↦ rw (e, k, add_edge) (known k (and_left _ _ e) (and_right _ _ e), refl)
    | inr k ↦
        rw (e, k, add_edge)
          (
            has_edge-grown g s t a b (ltb→lt _ _ (and_left _ _ e)) (ltb→lt _ _ (and_right _ _ e)),
            length-set g.adjacency_list s _,
          )
  ]
]
  where
    or_false : (b : Bool) → b ≡ (b || false)
    or_false true = refl
    or_false false = refl

    known :
        contains (get_neighbours g s) t ≡ true
        → ltb s (num_nodes g) ≡ true
        → ltb t (num_nodes g) ≡ true
        → has_edge g a b ≡ (has_edge g a b || ((a == s) && (b == t)))
    known k ls lt = or_known _ _ (λ c.
        let at : a ≡ s = (==_iff a s).0 (and_left (a == s) (b == t) c) in
        let to : b ≡ t = (==_iff b t).0 (and_right (a == s) (b == t) c) in
        rw (at, to) (listed-has_edge g s t ls lt k))

pub has_edge→In : (g : Graph) (a b : ℕ) → has_edge g a b ≡ true → In b (get_neighbours g a)
unfolding has_edge
has_edge→In g a b h =
    contains→In _ b (and_right (ltb b (num_nodes g)) _ (and_right (ltb a (num_nodes g)) _ h))

pub In→has_edge :
    (g : Graph) (a b : ℕ)
    → a < num_nodes g
    → b < num_nodes g
    → In b (get_neighbours g a)
    → has_edge g a b ≡ true
unfolding has_edge
In→has_edge g a b ha hb m =
    rw (lt→ltb a _ ha, lt→ltb b _ hb, In→contains (get_neighbours g a) b m) refl
