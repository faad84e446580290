-- ===== src/Interference/Lazy/Cached.antt =====
-- The cache holds the answers of the pairwise test, and so the lazy answers are those of the eager graph.
use ran_tan_plan.Prelude.{
  ℕ, ◌<◌, ◌≡◌, refl, sym, ap, ◌∙◌, ◌≢◌, inl, inr, Bool, true, false, ◌&&◌, Option, none, some, List,
  [], ◌∷◌, map, Bool-cases, ◌==◌, ==_iff, and_left, and_right, eq_of_some, if_true, if_false,
  length,
}
use ran_tan_plan.Graph.{Graph, has_edge}
use ran_tan_plan.Problem.{Problem}
use ran_tan_plan.Interference.{ActionAnalysis}
use ran_tan_plan.Interference.Analyses.{interferes, IsNumbered}
use ran_tan_plan.Interference.Lazy.{Cache, find, respond, compute_interference, ask}
use ran_tan_plan.Interference.Eager.{initialize}
use ran_tan_plan.Interference.Eager.Built.{initialize_returned}

-- What is cached is what the test says.
abbrev pub IsSound : List ActionAnalysis → Cache → Type 0
IsSound analyses cache =
    (a b : ℕ) (v : Bool) → find cache a b ≡ some v → v ≡ interferes analyses a b

pub empty-IsSound : (analyses : List ActionAnalysis) → IsSound analyses []
unfolding find
empty-IsSound analyses a b v h = cc

put-IsSound :
    (analyses : List ActionAnalysis) (a b : ℕ) (cache : Cache)
    → IsSound analyses cache
    → IsSound analyses (((a, b), interferes analyses a b) ∷ cache)
unfolding find
put-IsSound analyses a b cache s c d v h = elim (Bool-cases ((c == a) && (d == b))) [
  | inl e ↦
      let h' : some (interferes analyses a b) ≡ some v =
        sym (if_true ((c == a) && (d == b)) (some (interferes analyses a b)) (find cache c d) e)
        ∙ h in
      let left : c ≡ a = (==_iff c a).0 (and_left (c == a) (d == b) e) in
      let right : d ≡ b = (==_iff d b).0 (and_right (c == a) (d == b) e) in
      sym (eq_of_some h')
      ∙ ap (λ x. interferes analyses x b) (sym left)
      ∙ ap (λ x. interferes analyses c x) (sym right)
  | inr e ↦ s c d v (
      sym (if_false ((c == a) && (d == b)) (some (interferes analyses a b)) (find cache c d) e) ∙ h)
]

respond_lem :
    (analyses : List ActionAnalysis) (a b : ℕ) (cache : Cache) (o : Option Bool)
    → IsSound analyses cache
    → ((v : Bool) → o ≡ some v → v ≡ interferes analyses a b)
    → ((respond analyses a b cache o).0 ≡ interferes analyses a b)
      × IsSound analyses (respond analyses a b cache o).1
unfolding respond
respond_lem analyses a b cache none s h = (refl, put-IsSound analyses a b cache s)
respond_lem analyses a b cache (some v) s h = (h v refl, s)

pub compute_interference_lem :
    (analyses : List ActionAnalysis) (a b : ℕ) (cache : Cache)
    → IsSound analyses cache
    → ((compute_interference analyses a b cache).0 ≡ interferes analyses a b)
      × IsSound analyses (compute_interference analyses a b cache).1
unfolding compute_interference
compute_interference_lem analyses a b cache s =
    respond_lem analyses a b cache (find cache a b) s (λ v e. s a b v e)

-- The answers that the test itself gives.
abbrev pub answers : List ActionAnalysis → List (ℕ × ℕ) → List Bool
answers analyses queries = map (λ q. interferes analyses q.0 q.1) queries

-- From a cache that holds answers of the test, any run of queries is answered as the test answers it,
-- and the cache still holds answers of the test.
pub ask_lem :
    (analyses : List ActionAnalysis) (queries : List (ℕ × ℕ)) (cache : Cache)
    → IsSound analyses cache
    → ((ask analyses queries cache).0 ≡ answers analyses queries)
      × IsSound analyses (ask analyses queries cache).1
unfolding ask
ask_lem analyses [] cache s = (refl, s)
ask_lem analyses ((a, b) ∷ queries) cache s =
    let (first, s1) = compute_interference_lem analyses a b cache s in
    let (rest, s2) = ask_lem analyses queries (compute_interference analyses a b cache).1 s1 in
    (rw (first, rest) refl, s2)

-- The eager graph and the lazy cache agree: after any run of queries, the lazy answer for two different
-- actions of the problem is that of `has_edge` in the graph that `initialize` returned.
pub eager_lazy_agree :
    (p : Problem) (fuel : ℕ) (analyses : List ActionAnalysis) (g : Graph) (queries : List (ℕ × ℕ))
    (a b : ℕ)
    → IsNumbered p.actions
    → initialize p fuel ≡ some (analyses, g)
    → a < length p.actions
    → b < length p.actions
    → a ≢ b
    → (compute_interference analyses a b (ask analyses queries []).1).0 ≡ has_edge g a b
eager_lazy_agree p fuel analyses g queries a b v h ha hb apart =
    let (_, s) = ask_lem analyses queries [] (empty-IsSound analyses) in
    let (_, graph) = initialize_returned p fuel analyses g v h in
    (compute_interference_lem analyses a b _ s).0
    ∙ same (interferes analyses a b) (has_edge g a b) (λ k. (graph.1 a b).1 (ha, hb, apart, k))
        (λ k. ((graph.1 a b).0 k).3)
  where
    same : (x y : Bool) → (x ≡ true → y ≡ true) → (y ≡ true → x ≡ true) → x ≡ y
    same true y f g = sym (f refl)
    same false true f g = g refl
    same false false f g = refl
