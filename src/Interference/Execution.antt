-- ===== src/Interference/Execution.antt =====
-- What the order of `topological_sort` is for: no action in it interferes with a later one.
use ran_tan_plan.Prelude.{
  ℕ, ◌<◌, ◌≡◌, refl, sym, ◌∙◌, subst, ◌≢◌, ◌↔◌, inl, inr, true, false, some, List, [], ◌∷◌, ◌++◌,
  length, leb, leb→le, eq_of_some, arith, In, Distinct, Bool-cases, In-append_right,
}
use ran_tan_plan.Graph.{Graph, num_nodes, has_edge, topological_sort}
use ran_tan_plan.Graph.Edges.{has_edge→In}
use ran_tan_plan.Graph.Dfs.{Closed, Acyclic}
use ran_tan_plan.Graph.Order.{topological_sort_lem, topological_sort-Closed}
use ran_tan_plan.Interference.{ActionAnalysis}
use ran_tan_plan.Interference.Analyses.{interferes}

-- No action of the list interferes with a later one.
abbrev pub IsUndisturbed : List ActionAnalysis → List ℕ → Type 0
IsUndisturbed analyses l =
    (front : List ℕ) (a : ℕ) (mid : List ℕ) (b : ℕ) (back : List ℕ)
    → l ≡ front ++ a ∷ (mid ++ b ∷ back)
    → interferes analyses a b ≡ false

-- The actions, each once, in such an order.
abbrev pub IsExecution : List ActionAnalysis → List ℕ → List ℕ → Type 0
IsExecution analyses actions l =
    Distinct l × ((v : ℕ) → In v l ↔ In v actions) × IsUndisturbed analyses l

-- A rank that falls along every interference between different actions: there is no cycle.
abbrev pub HasRank : List ActionAnalysis → List ℕ → (ℕ → ℕ) → Type 0
HasRank analyses actions rank =
    (u v : ℕ)
    → In u actions
    → In v actions
    → u ≢ v
    → interferes analyses u v ≡ true
    → rank v < rank u

front_or_back :
    (front rest : List ℕ) (x : ℕ) → Distinct (front ++ rest) → In x front → In x rest → ⊥
front_or_back [] rest x d n m = absurd n
front_or_back (y ∷ front) rest x d (inl e) m =
    d.0 (In-append_right y front rest (subst (λ z. In z rest) e m))
front_or_back (y ∷ front) rest x d (inr n) m = front_or_back front rest x d.1 n m

Distinct-suffix : (front rest : List ℕ) → Distinct (front ++ rest) → Distinct rest
Distinct-suffix [] rest d = d
Distinct-suffix (x ∷ front) rest d = Distinct-suffix front rest d.1

pub Closed-IsUndisturbed :
    (g : Graph) (analyses : List ActionAnalysis) (actions l : List ℕ)
    → ((u v : ℕ)
        → In u actions
        → In v actions
        → u ≢ v
        → interferes analyses u v ≡ true
        → has_edge g u v ≡ true)
    → Distinct l
    → ((v : ℕ) → In v l → In v actions)
    → Closed g actions l
    → IsUndisturbed analyses l
Closed-IsUndisturbed g analyses actions l edges d inside closed front a mid b back e =
    elim (Bool-cases (interferes analyses a b)) [
      | inr k ↦ k
      | inl k ↦
          let d' : Distinct (front ++ a ∷ (mid ++ b ∷ back)) = subst (λ x. Distinct x) e d in
          let from : (x : ℕ) → In x (front ++ a ∷ (mid ++ b ∷ back)) → In x actions =
            λ x m. inside x (subst (λ y. In x y) (sym e) m) in
          let later : In b (a ∷ (mid ++ b ∷ back)) =
            inr (In-append_right b mid (b ∷ back) (inl refl)) in
          let apart : a ≢ b = λ same. (Distinct-suffix front (a ∷ (mid ++ b ∷ back)) d').0 (
            subst (λ x. In x (mid ++ b ∷ back)) (sym same)
              (In-append_right b mid (b ∷ back) (inl refl))) in
          let hit : In b front =
            closed front a (mid ++ b ∷ back) e b
              (has_edge→In g a b (
                edges a b (from a (In-append_right a front _ (inl refl)))
                  (from b (In-append_right b front _ later)) apart k))
              (from b (In-append_right b front _ later)) in
          absurd (front_or_back front (a ∷ (mid ++ b ∷ back)) b d' hit later)
    ]

-- At most one action, as it is.
pub few-IsExecution :
    (analyses : List ActionAnalysis) (l : List ℕ)
    → leb (length l) 1 ≡ true
    → IsExecution analyses l l
few-IsExecution analyses [] h =
    (tt, (λ v. (λ m. m, λ m. m)), λ front a mid b back e. absurd (nothing front a mid b back e))
  where
    nothing :
        (front : List ℕ) (a : ℕ) (mid : List ℕ) (b : ℕ) (back : List ℕ)
        → [] ≡ front ++ a ∷ (mid ++ b ∷ back)
        → ⊥
    nothing [] a mid b back e = cc
    nothing (x ∷ front) a mid b back e = cc
few-IsExecution analyses (x ∷ []) h = (
  ((λ m. m), tt),
  (λ v. (λ m. m, λ m. m)),
  λ front a mid b back e. absurd (nothing front a mid b back e),
)
  where
    nothing :
        (front : List ℕ) (a : ℕ) (mid : List ℕ) (b : ℕ) (back : List ℕ)
        → x ∷ [] ≡ front ++ a ∷ (mid ++ b ∷ back)
        → ⊥
    nothing [] a [] b back e = cc
    nothing [] a (y ∷ mid) b back e = cc
    nothing (y ∷ []) a mid b back e = cc
    nothing (y ∷ z ∷ front) a mid b back e = cc
few-IsExecution analyses (x ∷ y ∷ l) h = absurd (omega (arith, leb→le (length (x ∷ y ∷ l)) 1 h))

pub sorted-IsExecution :
    (g : Graph) (analyses : List ActionAnalysis) (actions : List ℕ) (rank : ℕ → ℕ)
    → ((u : ℕ) → In u actions → u < num_nodes g)
    → ((u v : ℕ)
        → In u actions
        → In v actions
        → u ≢ v
        → interferes analyses u v ≡ true
        → has_edge g u v ≡ true)
    → Acyclic g actions rank
    → (l : List ℕ) × (topological_sort g actions ≡ some l) × IsExecution analyses actions l
sorted-IsExecution g analyses actions rank low edges acyclic =
    let (l, e, d, all) = topological_sort_lem g actions low in
    let (l', e', closed) = topological_sort-Closed g actions rank low acyclic in
    let same : l' ≡ l = eq_of_some (sym e' ∙ e) in
    (
      l,
      e,
      (
        d,
        all,
        Closed-IsUndisturbed g analyses actions l edges d (λ v. (all v).0)
            (subst (λ x. Closed g actions x) same closed),
      ),
    )
