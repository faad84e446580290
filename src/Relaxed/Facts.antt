-- ===== src/Relaxed/Facts.antt =====
-- Fact ids: where fluents are found, and membership in a layer.
use ran_tan_plan.Prelude.{
  int_beq, int_beq_refl, int_beq→eq, ℕ, ◌+◌, ◌≡◌, refl, sym, ◌∙◌, subst, inl, inr, true, false,
  some, [], ◌∷◌, In, ℤ, pos, negsuc, Bool-cases, Option-cases, if_false, arith, In-of_get_elem?,
}
use ran_tan_plan.Expr.Kinds.{ExprOperator}
use ran_tan_plan.Expr.Node.{ExprId, null, ref}
use ran_tan_plan.Expr.Pool.{is_op}
use ran_tan_plan.H2.Build.{index_of}
use ran_tan_plan.H2.Build.Facts.{index_of-found, get_elem?-index_of}
use ran_tan_plan.Problem.{Problem}
use ran_tan_plan.Relaxed.Condition.{
  Layer, missing, has_fact, encode_negative_fact_id, find_grounded_fluent_index,
  find_grounded_fluent_id, get_inner_condition, is_fact_in_layer,
}
use ran_tan_plan.Relaxed.Layers.{fact_of_value}
use ran_tan_plan.Relaxed.World.{Valuation, Covers, IsFluent}

pub In→has_fact : (layer : Layer) (z : ℤ) → In z layer → has_fact layer z ≡ true
unfolding has_fact
In→has_fact [] z m = absurd m
In→has_fact (y ∷ layer) z (inl e) =
    let same : int_beq y z ≡ true = subst (λ x. int_beq x z ≡ true) e (int_beq_refl z) in
    rw same refl
In→has_fact (y ∷ layer) z (inr m) = elim (Bool-cases (int_beq y z)) [
  | inl e ↦ rw e refl
  | inr e ↦ rw e (In→has_fact layer z m)
]

pub has_fact→In : (layer : Layer) (z : ℤ) → has_fact layer z ≡ true → In z layer
unfolding has_fact
has_fact→In [] z h = cc
has_fact→In (y ∷ layer) z h = elim (Bool-cases (int_beq y z)) [
  | inl e ↦ inl (sym (int_beq→eq y z e))
  | inr e ↦ inr (has_fact→In layer z (sym (if_false _ _ _ e) ∙ h))
]

pub fluent_found :
    (p : Problem) (i : ℕ)
    → In (ref i) p.grounded_fluents
    → (n : ℕ) × (find_grounded_fluent_index p (ref i) ≡ pos n)
unfolding find_grounded_fluent_index
fluent_found p i m = let (n, h) = index_of-found (ref i) p.grounded_fluents m in (n, rw h refl)

pub found_fluent :
    (p : Problem) (e : ExprId) (n : ℕ)
    → find_grounded_fluent_index p e ≡ pos n
    → (i : ℕ) × (e ≡ ref i) × In (ref i) p.grounded_fluents
unfolding find_grounded_fluent_index
found_fluent p null n h = cc
found_fluent p (ref i) n h = elim (Option-cases (index_of (ref i) p.grounded_fluents)) [
  | inl e ↦ absurd (nothing (rw e at h))
  | inr (k, e) ↦ (
    i,
    refl,
    In-of_get_elem? p.grounded_fluents k (ref i)
        (get_elem?-index_of (ref i) p.grounded_fluents k e),
  )
]
  where
    nothing : missing ≡ pos n → ⊥
    nothing k = cc

pub id_of_fluent :
    (p : Problem) (e : ExprId)
    → is_op p.pool e ExprOperator.not ≡ false
    → find_grounded_fluent_id p e ≡ find_grounded_fluent_index p e
unfolding find_grounded_fluent_id
id_of_fluent p e k = rw k refl

pub id_of_negation :
    (p : Problem) (e : ExprId) (i n : ℕ)
    → is_op p.pool e ExprOperator.not ≡ true
    → get_inner_condition p e ≡ ref i
    → find_grounded_fluent_index p (ref i) ≡ pos n
    → find_grounded_fluent_id p e ≡ negsuc (n + 1)
unfolding find_grounded_fluent_id encode_negative_fact_id
id_of_negation p e i n k inner h = rw (k, inner, h) refl

pub fact_in_layer :
    (p : Problem) (layer : Layer) (e : ExprId) (z : ℤ)
    → find_grounded_fluent_id p e ≡ z
    → int_beq z missing ≡ false
    → In z layer
    → is_fact_in_layer p layer e ≡ true
unfolding is_fact_in_layer
fact_in_layer p layer e z same known m = rw (same, known, In→has_fact layer z m) refl

pub positive_in_layer :
    (p : Problem) (v : Valuation) (layer : Layer) (i : ℕ)
    → Covers p v layer
    → IsFluent p i
    → is_op p.pool (ref i) ExprOperator.not ≡ false
    → v (ref i) ≡ true
    → is_fact_in_layer p layer (ref i) ≡ true
unfolding fact_of_value
positive_in_layer p v layer i covers f k holds =
    let (n, e) = fluent_found p i f.0 in
    let m : In (fact_of_value (find_grounded_fluent_index p (ref i)) (some true)) layer =
      subst (λ b. In (fact_of_value (find_grounded_fluent_index p (ref i)) (some b)) layer) holds
        (covers i f) in
    fact_in_layer p layer (ref i) (pos n) (id_of_fluent p (ref i) k ∙ e) refl
      (subst (λ z. In z layer) e m)

pub negative_in_layer :
    (p : Problem) (v : Valuation) (layer : Layer) (e : ExprId) (i : ℕ)
    → Covers p v layer
    → IsFluent p i
    → is_op p.pool e ExprOperator.not ≡ true
    → get_inner_condition p e ≡ ref i
    → v (ref i) ≡ false
    → is_fact_in_layer p layer e ≡ true
unfolding fact_of_value encode_negative_fact_id
negative_in_layer p v layer e i covers f k inner fails =
    let (n, found) = fluent_found p i f.0 in
    let m : In (fact_of_value (find_grounded_fluent_index p (ref i)) (some false)) layer =
      subst (λ b. In (fact_of_value (find_grounded_fluent_index p (ref i)) (some b)) layer) fails
        (covers i f) in
    fact_in_layer p layer e (negsuc (n + 1)) (id_of_negation p e i n k inner found) (ground arith)
      (subst (λ z. In (encode_negative_fact_id z) layer) found m)
