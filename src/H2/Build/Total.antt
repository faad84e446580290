-- ===== src/H2/Build/Total.antt =====
-- The checker is always made: the walks over the preconditions end since children stand before their
-- parents in the pool, and the fixpoint is reached.
use ran_tan_plan.Prelude.{
  ℕ, zero, suc, ◌≡◌, refl, inl, inr, Bool, true, false, Option, some, List, [], ◌∷◌, ◌++◌, arith,
  In, ◌>>=◌, if◌then◌else◌,
}
use ran_tan_plan.Expr.Node.{ExprId, null, ref}
use ran_tan_plan.Expr.Pool.{ExprPool, is_state_variable, children}
use ran_tan_plan.Expr.Pool.Laws.{Below, IsOrdered}
use ran_tan_plan.Problem.{Problem, Action}
use ran_tan_plan.H2.{ActionData}
use ran_tan_plan.H2.Build.{
  Checker, collect_list, is_conjunction, collect, action_data, all_data, compute, added, deleted,
  concat_map,
}
use ran_tan_plan.H2.Build.Covered.{facts}
use ran_tan_plan.H2.Build.Reached.{reached}

collect_list_returns :
    (call : ExprId → Option (List ℕ)) (cs : List ExprId)
    → ((c : ExprId) → In c cs → (qs : List ℕ) × (call c ≡ some qs))
    → (ps : List ℕ) × (collect_list call cs ≡ some ps)
unfolding collect_list
collect_list_returns call [] h = ([], refl)
collect_list_returns call (c ∷ cs) h =
    let (qs, e) = h c (inl refl) in
    let (ps, e') = collect_list_returns call cs (λ d m. h d (inr m)) in (qs ++ ps, rw (e, e'))

collect_returns :
    (p : ExprPool) (fs : List ExprId)
    → IsOrdered p
    → (fuel : ℕ) (e : ExprId) → Below fuel e
    → (ps : List ℕ) × (collect p fs fuel e ≡ some ps)
unfolding collect
collect_returns p fs o zero null h = ([], refl)
collect_returns p fs o (suc fuel) null h = ([], refl)
collect_returns p fs o zero (ref i) h = absurd (omega arith)
collect_returns p fs o (suc fuel) (ref i) h =
    let child = λ (c : ExprId) (m : In c (children p (ref i))).
      collect_returns p fs o fuel c (lower c (o i c m)) in
    let (deep, e) = collect_list_returns (collect p fs fuel) (children p (ref i)) child in
    pick (is_state_variable p (ref i)) (is_conjunction p (ref i)) _ deep e
  where
    lower : (c : ExprId) → Below i c → Below fuel c
    lower null k = tt
    lower (ref c) k = omega arith

    pick :
        (a b : Bool) (q : List ℕ) (r : List ℕ) {o : Option (List ℕ)}
        → o ≡ some r
        → (ps : List ℕ) × ((if a then some q else if b then o else some []) ≡ some ps)
    pick true b q r e = (q, refl)
    pick false true q r e = (r, e)
    pick false false q r e = ([], refl)

action_data_returns :
    (p : Problem) (fuel : ℕ) (a : Action)
    → IsOrdered p.pool
    → Below fuel a.precondition_id
    → (d : ActionData) × (action_data p (facts p) fuel a ≡ some d)
unfolding action_data
action_data_returns p fuel a o h =
    let (ps, e) = collect_returns p.pool (facts p) o fuel a.precondition_id h in
    start
      (λ qs. record {
        preconditions = qs;
        add_effects = concat_map (added p.pool (facts p)) a.effects;
        del_effects = concat_map (deleted p.pool (facts p)) a.effects;
      })
      _ (pick a.has_precondition ps e)
  where
    pick :
        {r : Option (List ℕ)} (b : Bool) (ps : List ℕ)
        → r ≡ some ps
        → (qs : List ℕ) × ((if b then r else some []) ≡ some qs)
    pick true ps e = (ps, e)
    pick false ps e = ([], refl)

    start :
        (f : List ℕ → ActionData) (r : Option (List ℕ))
        → ((qs : List ℕ) × (r ≡ some qs))
        → (d : ActionData) × ((r >>= λ qs. some (f qs)) ≡ some d)
    start f r (qs, e) = (f qs, rw e)

all_data_returns :
    (p : Problem) (fuel : ℕ) (acts : List Action)
    → IsOrdered p.pool
    → ((a : Action) → In a acts → Below fuel a.precondition_id)
    → (ds : List ActionData) × (all_data p (facts p) fuel acts ≡ some ds)
unfolding all_data
all_data_returns p fuel [] o h = ([], refl)
all_data_returns p fuel (a ∷ acts) o h =
    let (d, e) = action_data_returns p fuel a o (h a (inl refl)) in
    let (ds, e') = all_data_returns p fuel acts o (λ b m. h b (inr m)) in (d ∷ ds, rw (e, e'))

-- Over a pool in which children stand before their parents, and with more fuel than the handles of
-- the preconditions, the constructor and `compute` end and give a checker.
pub compute_returns :
    (p : Problem) (fuel : ℕ)
    → IsOrdered p.pool
    → ((a : Action) → In a p.actions → Below fuel a.precondition_id)
    → (c : Checker) × (compute p fuel ≡ some c)
unfolding compute
compute_returns p fuel o h =
    let (acts, e) = all_data_returns p fuel p.actions o h in
    let (t, e', fixed) = reached p fuel acts e in
    (record { index_to_fact = facts p; actions = acts; tables = t }, rw (e, e'))
