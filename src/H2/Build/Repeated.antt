-- ===== src/H2/Build/Repeated.antt =====
-- An action whose precondition names a fluent twice, as grounding makes it when two parameters get
-- one object: its pair of equal facts is looked up on the diagonal, which `compute` never sets.
use ran_tan_plan.Prelude.{
  ℕ, zero, suc, ◌≤◌, ◌≡◌, refl, subst, inl, inr, Bool, false, List, [], ◌∷◌, arith, foldl, In,
  Distinct, Bool-cases, some, >>=-eq-some, eq_of_some, get_or, get_or-replicate, replicate, ⊎_elim,
}
use ran_tan_plan.Expr.Node.{ExprId}
use ran_tan_plan.Problem.{Problem}
use ran_tan_plan.H2.{ActionData, Tables, applicable, fixpoint}
use ran_tan_plan.H2.Diagonal.{
  NoDiagonal, mark_co_reachable-NoDiagonal, fixpoint-NoDiagonal, repeated-applicable,
}
use ran_tan_plan.H2.Build.{
  Checker, no_marks, initially_true, init_facts, init_reachable, init_pair, init_pairs,
  initial_tables, compute, all_data, rounds,
}
use ran_tan_plan.H2.Build.Covered.{facts}
use ran_tan_plan.H2.Build.Reached.{n, init}

no_row :
    (k i : ℕ) → get_or {A = Bool} (get_or (replicate k (replicate k false)) i []) i false ≡ false
no_row k i = rows k k i i
  where
    rows : (m k i j : ℕ) → get_or (get_or (replicate m (replicate k false)) i []) j false ≡ false
    rows zero k i j = refl
    rows (suc m) k zero j = get_or-replicate k j false
    rows (suc m) k (suc i) j = rows m k i j

init_reachable-NoDiagonal :
    (is : List ℕ) (s : Tables) → NoDiagonal s → NoDiagonal (foldl init_reachable s is)
unfolding init_reachable
init_reachable-NoDiagonal [] s d = d
init_reachable-NoDiagonal (i ∷ is) s d = init_reachable-NoDiagonal is (init_reachable s i) d

init_pair-NoDiagonal :
    (i : ℕ) (js : List ℕ) (s : Tables)
    → ¬ In i js
    → NoDiagonal s
    → NoDiagonal (foldl (init_pair i) s js)
unfolding init_pair
init_pair-NoDiagonal i [] s h d = d
init_pair-NoDiagonal i (j ∷ js) s h d =
    init_pair-NoDiagonal i js (init_pair i s j) (λ m. h (inr m))
      (mark_co_reachable-NoDiagonal s i j (λ e. h (inl e)) d)

init_pairs-NoDiagonal :
    (is : List ℕ) (s : Tables) → Distinct is → NoDiagonal s → NoDiagonal (init_pairs is s)
unfolding init_pairs
init_pairs-NoDiagonal [] s h d = d
init_pairs-NoDiagonal (i ∷ is) s h d =
    init_pairs-NoDiagonal is (foldl (init_pair i) s is) h.1 (init_pair-NoDiagonal i is s h.0 d)

init_facts-le : (p : Problem) (i : ℕ) (fs : List ExprId) (j : ℕ) → In j (init_facts p i fs) → i ≤ j
unfolding init_facts
init_facts-le p i [] j m = absurd m
init_facts-le p i (f ∷ fs) j m = elim (Bool-cases (initially_true p f p.initial_state)) [
  | inl e ↦
      ⊎_elim (λ k. omega arith) (λ k. omega (arith, init_facts-le p (suc i) fs j k))
        (rw (e, init_facts) at m)
  | inr e ↦ omega (arith, init_facts-le p (suc i) fs j (rw (e, init_facts) at m))
]

init_facts-Distinct : (p : Problem) (i : ℕ) (fs : List ExprId) → Distinct (init_facts p i fs)
unfolding init_facts
init_facts-Distinct p i [] = tt
init_facts-Distinct p i (f ∷ fs) = elim (Bool-cases (initially_true p f p.initial_state)) [
  | inl e ↦
      rw (e, init_facts)
        (
          (λ m. absurd (omega (arith, init_facts-le p (suc i) fs i m))),
          init_facts-Distinct p (suc i) fs,
        )
  | inr e ↦ rw (e, init_facts) (init_facts-Distinct p (suc i) fs)
]

compute-NoDiagonal :
    (p : Problem) (fuel : ℕ) (c : Checker) → compute p fuel ≡ some c → NoDiagonal c.tables
unfolding compute initial_tables no_marks
compute-NoDiagonal p fuel c made =
    let (acts, datas, h) = >>=-eq-some (all_data p (facts p) fuel p.actions) _ made in
    let (t, ends, h') =
      >>=-eq-some (fixpoint (n p) acts (rounds (n p)) (initial_tables (n p) (init p))) _ h in
    let begin =
      init_pairs-NoDiagonal (init p) _ (init_facts-Distinct p 0 (facts p))
        (init_reachable-NoDiagonal (init p) (no_marks (n p)) (no_row (n p))) in
    subst (λ (x : Checker). NoDiagonal x.tables) (eq_of_some h')
      (fixpoint-NoDiagonal (n p) acts (rounds (n p)) (initial_tables (n p) (init p)) t begin ends)

-- In the tables that `compute` leaves, an action that lists a precondition twice is not applicable,
-- whatever the initial state, and no fact is marked as co-reachable with itself.
pub compute-repeated :
    (p : Problem) (fuel : ℕ) (c : Checker) (d : ActionData)
    → compute p fuel ≡ some c
    → ¬ Distinct d.preconditions
    → (applicable c.tables d ≡ false) × NoDiagonal c.tables
compute-repeated p fuel c d made h =
    let none_set = compute-NoDiagonal p fuel c made in
    (repeated-applicable c.tables d none_set h, none_set)
