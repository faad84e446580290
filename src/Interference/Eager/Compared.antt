-- ===== src/Interference/Eager/Compared.antt =====
-- The edges that the comparison of all pairs of positions adds.
use ran_tan_plan.Prelude.{
  ℕ, ◌<◌, ◌≡◌, refl, sym, ◌∙◌, subst, ◌≢◌, ◌↔◌, ◌⊎◌, inl, inr, Bool, true, false, ◌&&◌, ◌||◌, List,
  [], ◌∷◌, arith, get_or, range, ltb, lt→ltb, ◌==◌, ==_iff, In, ⊎_elim, Bool-cases, true-ne-false,
  In→lt_count_up, lt→In_count_up, and_left, and_right,
}
use ran_tan_plan.Graph.{Graph, num_nodes, add_edge, has_edge}
use ran_tan_plan.Graph.Edges.{has_edge-add_edge}
use ran_tan_plan.Interference.Eager.{compare_pair, compare_row, compare_rows}

pub below_range : (n i : ℕ) → In i (range n) → i < n
below_range n i m = let (_, h) = In→lt_count_up n 0 i m in omega arith

pub in_range : (n i : ℕ) → i < n → In i (range n)
in_range n i h = lt→In_count_up n 0 i (omega arith) (omega arith)

or_iff : (x y : Bool) → ((x || y) ≡ true) ↔ ((x ≡ true) ⊎ (y ≡ true))
or_iff true y = (λ h. inl refl, λ h. refl)
or_iff false y = (λ h. inr h, ⊎_elim (λ h. cc) (λ h. h))

-- The edge from a to b that the pair of positions i and j adds.
abbrev pub Pair : (ℕ → ℕ → Bool) → List ℕ → ℕ → ℕ → ℕ → ℕ → Type 0
Pair test ids i j a b = (i ≢ j) × (test i j ≡ true) × (a ≡ get_or ids i 0) × (b ≡ get_or ids j 0)

-- The graph has n nodes, the ids of the first k positions are among them.
module _ (test : ℕ → ℕ → Bool) (ids : List ℕ) (n k : ℕ)
    (low : (i : ℕ) → i < k → get_or ids i 0 < n) where
  add_edge_lem :
      (g : Graph) (i j a b : ℕ)
      → num_nodes g ≡ n
      → i < k
      → j < k
      → (num_nodes (add_edge g (get_or ids i 0) (get_or ids j 0)) ≡ n)
        × ((has_edge (add_edge g (get_or ids i 0) (get_or ids j 0)) a b ≡ true)
            ↔ ((has_edge g a b ≡ true) ⊎ ((a ≡ get_or ids i 0) × (b ≡ get_or ids j 0))))
  add_edge_lem g i j a b size hi hj =
      let s = get_or ids i 0 in
      let t = get_or ids j 0 in
      let (edge, same) = has_edge-add_edge g s t a b in
      let inside : (ltb s (num_nodes g) && ltb t (num_nodes g)) ≡ true =
        rw (size, lt→ltb s n (low i hi), lt→ltb t n (low j hj)) refl in
      (
        same ∙ size,
        (
          (λ h.
              ⊎_elim (λ q. inl q)
                (λ q.
                  let e =
                    and_right (ltb s (num_nodes g) && ltb t (num_nodes g)) ((a == s) && (b == t))
                      q in
                  inr (
                    (==_iff a s).0 (and_left (a == s) (b == t) e),
                    (==_iff b t).0 (and_right (a == s) (b == t) e),
                  ))
                ((or_iff _ _).0 (sym edge ∙ h))),
          (λ h.
              edge
              ∙ (or_iff _ _).1 (
                  ⊎_elim (λ q. inl q)
                    (λ q. inr (rw (inside, (==_iff a s).1 q.0, (==_iff b t).1 q.1) refl)) h)),
        ),
      )

  no_edge :
      (g : Graph) (i j : ℕ)
      → ((i == j) ≡ true) ⊎ (test i j ≡ false)
      → compare_pair test ids i j g ≡ g
  unfolding compare_pair
  no_edge g i j (inl e) = rw e refl
  no_edge g i j (inr e) = elim (Bool-cases (i == j)) [ inl q ↦ rw q refl | inr q ↦ rw (q, e) refl ]

  one_edge :
      (g : Graph) (i j : ℕ)
      → (i == j) ≡ false
      → test i j ≡ true
      → compare_pair test ids i j g ≡ add_edge g (get_or ids i 0) (get_or ids j 0)
  unfolding compare_pair
  one_edge g i j e q = rw (e, q) refl

  compare_pair_lem :
      (g : Graph) (i j a b : ℕ)
      → num_nodes g ≡ n
      → i < k
      → j < k
      → (num_nodes (compare_pair test ids i j g) ≡ n)
        × ((has_edge (compare_pair test ids i j g) a b ≡ true)
            ↔ ((has_edge g a b ≡ true) ⊎ Pair test ids i j a b))
  compare_pair_lem g i j a b size hi hj = elim (Bool-cases (i == j)) [
    | inl e ↦
        rw (no_edge g i j (inl e))
          (size, ((λ h. inl h), ⊎_elim (λ h. h) (λ h. absurd (h.0 ((==_iff i j).0 e)))))
    | inr e ↦
        let apart : i ≢ j = λ bad. true-ne-false ((==_iff i j).1 bad) e in
        elim (Bool-cases (test i j)) [
          | inl t ↦
              let (size', edge) = add_edge_lem g i j a b size hi hj in
              rw (one_edge g i j e t) (
                size',
                (
                  (λ h. ⊎_elim (λ q. inl q) (λ q. inr (apart, t, q.0, q.1)) (edge.0 h)),
                  (λ h. edge.1 (⊎_elim (λ q. inl q) (λ q. inr (q.2, q.3)) h)),
                ),
              )
          | inr t ↦
              rw (no_edge g i j (inr t))
                (size, ((λ h. inl h), ⊎_elim (λ h. h) (λ h. absurd (true-ne-false h.1 t))))
        ]
  ]

  compare_row_lem :
      (js : List ℕ) (g : Graph) (i a b : ℕ)
      → num_nodes g ≡ n
      → i < k
      → ((j : ℕ) → In j js → j < k)
      → (num_nodes (compare_row test ids i js g) ≡ n)
        × ((has_edge (compare_row test ids i js g) a b ≡ true)
            ↔ ((has_edge g a b ≡ true) ⊎ ((j : ℕ) × In j js × Pair test ids i j a b)))
  unfolding compare_row
  compare_row_lem [] g i a b size hi hjs = (size, ((λ h. inl h), ⊎_elim (λ h. h) (λ h. absurd h.1)))
  compare_row_lem (j ∷ js) g i a b size hi hjs =
      let (size1, one) = compare_pair_lem g i j a b size hi (hjs j (inl refl)) in
      let (size2, rest) =
        compare_row_lem js (compare_pair test ids i j g) i a b size1 hi (λ x m. hjs x (inr m)) in
      (
        size2,
        (
          (λ h.
              ⊎_elim (λ q. ⊎_elim (λ l. inl l) (λ l. inr (j, inl refl, l)) (one.0 q))
                (λ q. inr (q.0, inr q.1, q.2)) (rest.0 h)),
          ⊎_elim (λ q. rest.1 (inl (one.1 (inl q))))
              (λ q.
                ⊎_elim
                  (λ same. rest.1 (inl (one.1 (inr (subst (λ y. Pair test ids i y a b) same q.2)))))
                  (λ m. rest.1 (inr (q.0, m, q.2))) q.1),
        ),
      )

  pub compare_rows_lem :
      (js rows : List ℕ) (g : Graph) (a b : ℕ)
      → num_nodes g ≡ n
      → ((i : ℕ) → In i rows → i < k)
      → ((j : ℕ) → In j js → j < k)
      → (num_nodes (compare_rows test ids js rows g) ≡ n)
        × ((has_edge (compare_rows test ids js rows g) a b ≡ true) ↔ (
            (has_edge g a b ≡ true)
            ⊎ ((i : ℕ) × (j : ℕ) × In i rows × In j js × Pair test ids i j a b)))
  unfolding compare_rows
  compare_rows_lem js [] g a b size his hjs =
      (size, ((λ h. inl h), ⊎_elim (λ h. h) (λ h. absurd h.2)))
  compare_rows_lem js (i ∷ rows) g a b size his hjs =
      let (size1, one) = compare_row_lem js g i a b size (his i (inl refl)) hjs in
      let (size2, rest) =
        compare_rows_lem js rows (compare_row test ids i js g) a b size1 (λ x m. his x (inr m))
          hjs in
      (
        size2,
        (
          (λ h.
              ⊎_elim (λ q. ⊎_elim (λ l. inl l) (λ l. inr (i, l.0, inl refl, l.1, l.2)) (one.0 q))
                (λ q. inr (q.0, q.1, inr q.2, q.3, q.4)) (rest.0 h)),
          ⊎_elim (λ q. rest.1 (inl (one.1 (inl q))))
              (λ q.
                ⊎_elim
                  (λ same.
                    rest.1
                      (inl (one.1 (inr (q.1, q.3, subst (λ y. Pair test ids y q.1 a b) same q.4)))))
                  (λ m. rest.1 (inr (q.0, q.1, m, q.3, q.4))) q.2),
        ),
      )
