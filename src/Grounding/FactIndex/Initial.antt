-- ===== src/Grounding/FactIndex/Initial.antt =====
-- Seeding the index with the initial state.
use ran_tan_plan.Prelude.{
  ℕ, zero, suc, ◌<◌, ◌≡◌, refl, sym, subst, true, Option, none, some, [], arith, if◌then◌else◌,
  length-replicate, get_or-replicate, replicate, Distinct,
}
use ran_tan_plan.Expr.Node.{ExprId}
use ran_tan_plan.Expr.Pool.{ExprPool, is_bool_constant}
use ran_tan_plan.Problem.{Assignment}
use ran_tan_plan.Grounding.FactIndex.{
  Tuple, FactIndex, make, add_fact, Vocabulary, decompose_state_variable,
}
use ran_tan_plan.Grounding.FactIndex.Contract.{IsIndex, sum_lengths}

abbrev fact : ℕ → Tuple → Option (ℕ × Tuple)
fact s t = some (s, t)

-- The assignment makes the fact true.
abbrev pub Gives : ExprPool → Vocabulary → Assignment → ℕ → Tuple → Type 0
Gives p v a s t =
    (is_bool_constant true p a.value_id ≡ true)
    × (decompose_state_variable p v a.fluent_id ≡ some (s, t))

module _ (p : ExprPool) (v : Vocabulary) (n : ℕ)
    (ids : (e : ExprId) (s : ℕ) (t : Tuple)
      → decompose_state_variable p v e ≡ some (s, t)
      → s < n) where
  -- One assignment.
  abbrev step : FactIndex → Assignment → FactIndex
  step f a =
      let added : FactIndex = elim (decompose_state_variable p v a.fluent_id) [
        | some (s, t) ↦ (add_fact f s t).1
        | none ↦ f
      ] in
      if is_bool_constant true p a.value_id then added else f

pub make-IsIndex : (n : ℕ) → IsIndex n (make n)
unfolding make sum_lengths
make-IsIndex n = record {
  buckets = length-replicate n [];
  sets = length-replicate n [];
  listed = λ s t. ((λ m. m), (λ m. m));
  distinct = λ s. subst Distinct (sym (get_or-replicate n s [])) tt;
  total = sym (no_facts n);
}
  where
    no_facts : (k : ℕ) → sum_lengths (replicate k []) ≡ 0
    no_facts zero = refl
    no_facts (suc k) = omega (arith, no_facts k)
