-- ===== src/H2/Build/Reached.antt =====
-- The tables that `compute` leaves: phase 1 marks the facts of the initial state, and the fixpoint
-- covers every state that the problem can reach.
use ran_tan_plan.Prelude.{
  ℕ, zero, suc, ◌+◌, ◌<◌, ◌≡◌, refl, sym, ap, ◌∙◌, subst, ◌≢◌, inl, inr, Bool, true, false, some,
  List, [], ◌∷◌, arith, In, Distinct, Bool-cases, ⊎_elim, length, get_elem?, >>=-eq-some,
  if◌then◌else◌, eq_of_some,
}
use ran_tan_plan.Expr.Node.{ExprId}
use ran_tan_plan.Expr.Node.Equal.{id_beq_refl}
use ran_tan_plan.Expr.Pool.{is_bool_constant}
use ran_tan_plan.Problem.{Problem, Assignment, is_bool_type}
use ran_tan_plan.H2.{ActionData, Tables, is_reachable, is_co_reachable, fixpoint}
use ran_tan_plan.H2.Growth.{Shape}
use ran_tan_plan.H2.Loops.{InRange}
use ran_tan_plan.H2.Fixpoint.{IsFixpoint, fixpoint_reached, open_marks-le}
use ran_tan_plan.H2.Sound.{Covers, Leads-Covers}
use ran_tan_plan.H2.Build.{
  Checker, all_data, initially_true, init_facts, initial_tables, rounds, compute,
}
use ran_tan_plan.H2.Build.Initial.{initial_tables_lem}
use ran_tan_plan.H2.Build.Facts.{get_elem?-index_of}
use ran_tan_plan.H2.Build.Effects.{all_data_of, of_all_data}
use ran_tan_plan.H2.Build.World.{
  Valuation, IsCoherent, Initially, Reachable, start, step, AssignsConstants,
}
use ran_tan_plan.H2.Build.Covered.{
  facts, Holds, index-lt, index-is_bool_type, index-In, data-InRange, Happens-Leads,
}

-- The facts of the initial state are the ones that phase 1 marks.
init_facts-lt :
    (p : Problem) (i : ℕ) (fs : List ExprId) (j : ℕ) → In j (init_facts p i fs) → j < i + length fs
unfolding init_facts
init_facts-lt p i [] j m = absurd m
init_facts-lt p i (f ∷ fs) j m = elim (Bool-cases (initially_true p f p.initial_state)) [
  | inl e ↦
      ⊎_elim (λ k. omega arith) (λ k. omega (arith, init_facts-lt p (suc i) fs j k))
        (rw (e, init_facts) at m)
  | inr e ↦ omega (arith, init_facts-lt p (suc i) fs j (rw (e, init_facts) at m))
]

init_facts-In :
    (p : Problem) (i : ℕ) (fs : List ExprId) (k : ℕ) (f : ExprId)
    → get_elem? fs k ≡ some f
    → initially_true p f p.initial_state ≡ true
    → In (i + k) (init_facts p i fs)
unfolding init_facts
init_facts-In p i [] k f h t = cc
init_facts-In p i (g ∷ fs) zero f h t =
    let same : g ≡ f = cc in
    let start' : initially_true p g p.initial_state ≡ true = rw same t in
    rw (start', init_facts) (inl (omega arith))
init_facts-In p i (g ∷ fs) (suc k) f h t =
    let deeper = init_facts-In p (suc i) fs k f h t in
    let place : suc i + k ≡ i + suc k = omega arith in
    subst (λ t. In t (init_facts p i (g ∷ fs))) place
      (elim (Bool-cases (initially_true p g p.initial_state)) [
        | inl e ↦ rw (e, init_facts) (inr deeper)
        | inr e ↦ rw (e, init_facts) deeper
      ])

initially_true_of_In :
    (p : Problem) (f : ExprId) (as' : List Assignment) (a : Assignment)
    → In a as'
    → a.fluent_id ≡ f
    → is_bool_type p f ≡ true
    → is_bool_constant true p.pool a.value_id ≡ true
    → initially_true p f as' ≡ true
unfolding initially_true
initially_true_of_In p f [] a m e b v = absurd m
initially_true_of_In p f (x ∷ more) a (inl k) e b v =
    let e' : x.fluent_id ≡ f = ap (λ (y : Assignment). y.fluent_id) (sym k) ∙ e in
    let v' : is_bool_constant true p.pool x.value_id ≡ true =
      ap (λ (y : Assignment). is_bool_constant true p.pool y.value_id) (sym k) ∙ v in
    rw (e', id_beq_refl f, b, v')
initially_true_of_In p f (x ∷ more) a (inr k) e b v =
    either _ (initially_true p f more) (initially_true_of_In p f more a k e b v)
  where
    either : (t rest : Bool) → rest ≡ true → (if t then true else rest) ≡ true
    either true rest h = refl
    either false rest h = h

module _ (p : Problem) where
  abbrev pub n : ℕ
  n = length (facts p)

  abbrev pub init : List ℕ
  init = init_facts p 0 (facts p)

  -- What `compute` gives.
  pub record Computed (fuel : ℕ) (c : Checker) : Type 0 where
    pub fact_list : c.index_to_fact ≡ facts p
    pub datas : all_data p (facts p) fuel p.actions ≡ some c.actions
    pub fixed : IsFixpoint n c.actions (initial_tables n init) c.tables

  start_lem :
      Shape n (initial_tables n init)
      × ((i : ℕ) → In i init → is_reachable (initial_tables n init) i ≡ true)
      × ((i j : ℕ)
          → In i init
          → In j init
          → i ≢ j
          → is_co_reachable (initial_tables n init) i j ≡ true)
  start_lem = initial_tables_lem n init (λ i m. omega (arith, init_facts-lt p 0 (facts p) i m))

  ranges :
      (fuel : ℕ) (acts : List ActionData)
      → all_data p (facts p) fuel p.actions ≡ some acts
      → (d : ActionData) → In d acts
      → InRange n d
  ranges fuel acts datas d m =
      let (a, at, e) = of_all_data p (facts p) fuel p.actions acts datas d m in
      data-InRange p fuel a d e

  pub reached :
      (fuel : ℕ) (acts : List ActionData)
      → all_data p (facts p) fuel p.actions ≡ some acts
      → (t : Tables) × (fixpoint n acts (rounds n) (initial_tables n init) ≡ some t)
        × IsFixpoint n acts (initial_tables n init) t
  reached fuel acts datas =
      fixpoint_reached n acts (ranges fuel acts datas) (rounds n) (initial_tables n init)
        start_lem.0 (omega (arith, open_marks-le n (initial_tables n init) start_lem.0))

  pub compute-Computed : (fuel : ℕ) (c : Checker) → compute p fuel ≡ some c → Computed fuel c
  unfolding compute
  compute-Computed fuel c made =
      let (acts, datas, h) = >>=-eq-some (all_data p (facts p) fuel p.actions) _ made in
      let (t, ends, h') = >>=-eq-some (fixpoint n acts (rounds n) (initial_tables n init)) _ h in
      let (t', ends', fixed) = reached fuel acts datas in
      let same : t' ≡ t = eq_of_some (sym ends' ∙ ends) in
      subst (Computed fuel) (eq_of_some h') (record {
        fact_list = refl;
        datas = datas;
        fixed = subst (IsFixpoint n acts (initial_tables n init)) same fixed;
      })

  initial-Covers : (v : Valuation) → Initially p v → Covers n (initial_tables n init) (Holds p v)
  initial-Covers v h = record {
    bounded = λ i (f, index, t). index-lt p f i index;
    single = λ i x. start_lem.1 i (marked i x);
    pair = λ i j x y ne. start_lem.2 i j (marked i x) (marked j y) ne;
  }
    where
      marked : (i : ℕ) → Holds p v i → In i init
      marked i (f, index, t) =
          let b = index-is_bool_type p f i index in
          let (a, m, e, value) = h f (index-In p f i index) b t in
          let at =
            init_facts-In p 0 (facts p) i f (get_elem?-index_of f (facts p) i index)
              (initially_true_of_In p f p.initial_state a m e b value) in
          let zero_add : 0 + i ≡ i = omega arith in subst (λ k. In k init) zero_add at

  -- The tables cover every state that the problem reaches.
  pub Reachable-Covers :
      (fuel : ℕ) (c : Checker) (v : Valuation)
      → Computed fuel c
      → AssignsConstants p
      → ((d : ActionData) → In d c.actions → Distinct d.preconditions)
      → Reachable p v
      → IsCoherent p v × Covers n c.tables (Holds p v)
  Reachable-Covers fuel c v k consts distinct (start {v = u} coherent begins) =
      let i = initial-Covers u begins in
      (
        coherent,
        record {
          bounded = i.bounded;
          single = λ x h. k.fixed.reach x (i.single x h);
          pair = λ x y h g ne. k.fixed.co_reach x y (i.pair x y h g ne);
        },
      )
  Reachable-Covers fuel c v k consts distinct (step {v = u} {w = w} a ma before happens coherent) =
      let (cu, covers) = Reachable-Covers fuel c u k consts distinct before in
      let (d, md, made) = all_data_of p (facts p) fuel p.actions c.actions k.datas a ma in
      (
        coherent,
        Leads-Covers n c.tables c.actions d (Holds p u) (Holds p w) k.fixed.shape k.fixed.closed md
            (distinct d md) (ranges fuel c.actions k.datas d md).add_effects
            (Happens-Leads p fuel a d made u w consts ma cu happens) covers,
      )
