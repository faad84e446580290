-- ===== src/Graph/Dfs.antt =====
-- The walk of `topological_sort`: it ends, and lists the nodes it finds once each, behind their
-- neighbours where the graph has no cycle.
use ran_tan_plan.Prelude.{
  ℕ, zero, suc, ◌<◌, ◌≤◌, ◌≡◌, refl, sym, ◌∙◌, subst, ◌⊎◌, inl, inr, true, false, Option, some,
  List, [], ◌∷◌, ◌++◌, arith, length, get_or, set, contains, if◌then◌else◌, Bool-cases, In,
  Distinct, contains→In, In→contains, In-append_left, In-append_right, In-append, get_or-set,
  length-set, ⊎_elim, split_snoc, Distinct-snoc, unset, unset-set, ==_iff, ◌==◌, true-ne-false,
}
use ran_tan_plan.Graph.{
  Graph, num_nodes, get_neighbours, Walk, is_visited, mark, push, visit_neighbours, post_order_dfs,
}

-- Of every listed node the neighbours that belong to the subset stand in front of it.
abbrev pub Closed : Graph → List ℕ → List ℕ → Type 0
Closed g nodes l =
    (front : List ℕ) (u : ℕ) (back : List ℕ)
    → l ≡ front ++ u ∷ back
    → (v : ℕ) → In v (get_neighbours g u)
    → In v nodes
    → In v front

-- A rank that falls along every edge of the subset: it has no cycle.
abbrev pub Acyclic : Graph → List ℕ → (ℕ → ℕ) → Type 0
Acyclic g nodes rank =
    (u v : ℕ) → In u nodes → In v nodes → In v (get_neighbours g u) → rank v < rank u

-- The walk between calls; `open'` holds the nodes whose calls have not returned.
pub record IsWalk (g : Graph) (nodes : List ℕ) (rank : ℕ → ℕ) (open' : List ℕ) (w : Walk)
    : Type 0 where
  pub size : length w.visited ≡ num_nodes g
  pub seen : (v : ℕ) → is_visited w v ≡ true → In v w.sorted_nodes ⊎ In v open'
  pub marked : (v : ℕ) → In v w.sorted_nodes ⊎ In v open' → is_visited w v ≡ true
  pub apart : (v : ℕ) → In v open' → ¬ In v w.sorted_nodes
  pub distinct : Distinct w.sorted_nodes
  pub inside : (v : ℕ) → In v w.sorted_nodes → In v nodes
  pub closed : Acyclic g nodes rank → Closed g nodes w.sorted_nodes

-- What a call leaves: more nodes are listed, and none is unmarked.
pub record Later (w w' : Walk) : Type 0 where
  pub keeps : (v : ℕ) → In v w.sorted_nodes → In v w'.sorted_nodes
  pub fewer : unset w'.visited ≤ unset w.visited

module _ (g : Graph) (nodes : List ℕ) (rank : ℕ → ℕ)
    (range : (u : ℕ) → In u nodes → u < num_nodes g) where
  abbrev pub Inv : List ℕ → Walk → Type 0
  Inv = IsWalk g nodes rank

  mark-Inv :
      (o : List ℕ) (w : Walk) (u : ℕ)
      → Inv o w
      → u < num_nodes g
      → is_visited w u ≡ false
      → Inv (u ∷ o) (mark w u)
  mark-Inv o w u i lt new = record {
    size = length-set w.visited u true ∙ i.size;
    seen = λ v h. seen' v (rw (after v) at h);
    marked = λ v h. rw (after v) (marked' v h);
    apart = λ v m. ⊎_elim (λ e. λ k. true-ne-false (i.marked v (inl k)) (rw e new)) (i.apart v) m;
    distinct = i.distinct;
    inside = i.inside;
    closed = i.closed;
  }
    where
      after :
          (v : ℕ)
          → get_or (set w.visited u true) v false ≡ (if u == v then true else is_visited w v)
      after v = get_or-set w.visited u v true false (omega (arith, i.size))

      seen' :
          (v : ℕ)
          → (if u == v then true else is_visited w v) ≡ true
          → In v w.sorted_nodes ⊎ In v (u ∷ o)
      seen' v h = elim (Bool-cases (u == v)) [
        | inl e ↦ inr (inl (sym ((==_iff u v).0 e)))
        | inr e ↦ ⊎_elim inl (λ k. inr (inr k)) (i.seen v (rw e at h))
      ]

      marked' :
          (v : ℕ)
          → In v w.sorted_nodes ⊎ In v (u ∷ o)
          → (if u == v then true else is_visited w v) ≡ true
      marked' v h = elim (Bool-cases (u == v)) [
        | inl e ↦ rw e refl
        | inr e ↦ rw e (
            ⊎_elim (λ k. i.marked v (inl k))
              (⊎_elim (λ same. ground arith) (λ k. i.marked v (inr k))) h)
      ]

  push-Inv :
      (o : List ℕ) (w : Walk) (u : ℕ)
      → Inv (u ∷ o) w
      → ¬ In u o
      → In u nodes
      → (Acyclic g nodes rank
          → (v : ℕ) → In v (get_neighbours g u)
          → In v nodes
          → In v w.sorted_nodes)
      → Inv o (push w u)
  push-Inv o w u i fresh m done = record {
    size = i.size;
    seen = λ v h.
        ⊎_elim (λ k. inl (In-append_left v w.sorted_nodes (u ∷ []) k))
          (⊎_elim (λ e. inl (In-append_right v w.sorted_nodes (u ∷ []) (inl e))) inr) (i.seen v h);
    marked = λ v h.
        ⊎_elim
          (λ k.
            ⊎_elim (λ n. i.marked v (inl n))
              (⊎_elim (λ e. i.marked v (inr (inl e))) (λ n. absurd n))
              (In-append v w.sorted_nodes (u ∷ []) k))
          (λ n. i.marked v (inr (inr n))) h;
    apart = λ v n k.
        ⊎_elim (i.apart v (inr n)) (⊎_elim (λ e. fresh (subst (λ x. In x o) e n)) (λ x. x))
          (In-append v w.sorted_nodes (u ∷ []) k);
    distinct = Distinct-snoc w.sorted_nodes u i.distinct (i.apart u (inl refl));
    inside = λ v k.
        ⊎_elim (i.inside v) (⊎_elim (λ e. rw e m) (λ x. absurd x))
          (In-append v w.sorted_nodes (u ∷ []) k);
    closed = λ acyclic front x back e v nb mv. elim (split_snoc w.sorted_nodes u front x back e) [
      | inl (rest, k) ↦ i.closed acyclic front x rest k v nb mv
      | inr (k, same) ↦ rw k (done acyclic v (subst (λ y. In v (get_neighbours g y)) same nb) mv)
    ];
  }

  -- What a recursive call does when its fuel covers the unmarked nodes.
  abbrev pub CallOk : (ℕ → Walk → Option Walk) → ℕ → Type 0
  CallOk call k =
      (o : List ℕ) (u : ℕ) (w : Walk)
      → Inv o w
      → In u nodes
      → is_visited w u ≡ false
      → (Acyclic g nodes rank → (v : ℕ) → In v o → rank u < rank v)
      → unset w.visited ≤ k
      → (w' : Walk) × (call u w ≡ some w') × Inv o w' × Later w w' × In u w'.sorted_nodes

  pub Later-refl : (w : Walk) → Later w w
  Later-refl w = record { keeps = λ v m. m; fewer = omega arith }

  pub Later-trans : (a b c : Walk) → Later a b → Later b c → Later a c
  Later-trans a b c h k = record {
    keeps = λ v m. k.keeps v (h.keeps v m);
    fewer = omega (arith, h.fewer, k.fewer);
  }

  visit_lem :
      (call : ℕ → Walk → Option Walk) (k : ℕ)
      → CallOk call k
      → (o vs : List ℕ) (w : Walk) → Inv o w
      → unset w.visited ≤ k
      → (Acyclic g nodes rank → (v : ℕ) → In v vs → In v nodes → (x : ℕ) → In x o → rank v < rank x)
      → (w' : Walk) × (visit_neighbours call nodes vs w ≡ some w')
        × Inv o w'
        × Later w w'
        × (Acyclic g nodes rank → (v : ℕ) → In v vs → In v nodes → In v w'.sorted_nodes)
  unfolding visit_neighbours
  visit_lem call k ok o [] w i enough low = (w, refl, i, Later-refl w, (λ acyclic v m. absurd m))
  visit_lem call k ok o (v ∷ vs) w i enough low = elim (Bool-cases (contains nodes v)) [
    | inr out ↦
        let (w', e, i', later, all) =
          visit_lem call k ok o vs w i enough (λ a x m. low a x (inr m)) in
        (
          w',
          rw out e,
          i',
          later,
          λ a x m n.
              ⊎_elim (λ same. absurd (true-ne-false (In→contains nodes x n) (rw same out)))
                (λ t. all a x t n) m,
        )
    | inl member ↦ elim (Bool-cases (is_visited w v)) [
      | inl old ↦
          let (w', e, i', later, all) =
            visit_lem call k ok o vs w i enough (λ a x m. low a x (inr m)) in
          (
            w',
            rw (member, old) e,
            i',
            later,
            λ a x m n.
                ⊎_elim
                  (λ same. later.keeps x (
                    ⊎_elim (λ t. rw same t)
                      (λ t.
                        absurd (omega (arith, low a v (inl refl) (contains→In nodes v member) v t)))
                      (i.seen v old)))
                  (λ t. all a x t n) m,
          )
      | inr new ↦
          let (w1, e1, i1, later1, hit) =
            ok o v w i (contains→In nodes v member) new
              (λ a x m. low a v (inl refl) (contains→In nodes v member) x m) enough in
          let (w', e, i', later, all) =
            visit_lem call k ok o vs w1 i1 (omega (arith, later1.fewer))
              (λ a x m. low a x (inr m)) in
          (
            w',
            rw (member, new, e1) e,
            i',
            Later-trans w w1 w' later1 later,
            λ a x m n. ⊎_elim (λ same. later.keeps x (rw same hit)) (λ t. all a x t n) m,
          )
    ]
  ]

  pub post_order_lem : (fuel : ℕ) → CallOk (post_order_dfs g nodes fuel) fuel
  unfolding post_order_dfs
  post_order_lem zero o u w i m new low enough =
      absurd (omega (arith, unset-set w.visited u (omega (arith, i.size, range u m)) new))
  post_order_lem (suc fuel) o u w i m new low enough =
      let lt = range u m in
      let count = unset-set w.visited u (omega (arith, i.size)) new in
      let (w', e, i', later, all) =
        visit_lem (post_order_dfs g nodes fuel) fuel (post_order_lem fuel) (u ∷ o)
          (get_neighbours g u) (mark w u) (mark-Inv o w u i lt new) (omega arith)
          (λ a v nb mv x.
            ⊎_elim (λ same. rw same (a u v m mv nb))
              (λ t. omega (arith, a u v m mv nb, low a x t))) in
      (
        push w' u,
        rw e refl,
        push-Inv o w' u i' (λ t. true-ne-false (i.marked u (inr t)) new) m all,
        record {
          keeps = λ v t. In-append_left v w'.sorted_nodes (u ∷ []) (later.keeps v t);
          fewer = omega (arith, later.fewer);
        },
        In-append_right u w'.sorted_nodes (u ∷ []) (inl refl),
      )
