-- ===== src/H2/Build/Facts.antt =====
-- The facts that the constructor of `H2MutexChecker` numbers.
use ran_tan_plan.Prelude.{
  ℕ, suc, ◌≡◌, refl, sym, ap, subst, inl, inr, true, Option, none, some, List, [], ◌∷◌, arith, In,
  Bool-cases, Option-cases, ⊎_elim, get_elem?, if◌then◌else◌,
}
use ran_tan_plan.Expr.Node.{ExprId, id_beq}
use ran_tan_plan.Expr.Node.Equal.{id_beq→eq, id_beq_refl}
use ran_tan_plan.Problem.{Problem, is_bool_type}
use ran_tan_plan.H2.Build.{index_of, bool_facts, tracked}

pub get_elem?-index_of :
    (id : ExprId) (fs : List ExprId) (i : ℕ) → index_of id fs ≡ some i → get_elem? fs i ≡ some id
unfolding index_of
get_elem?-index_of id [] i h = cc
get_elem?-index_of id (f ∷ fs) i h = elim (Option-cases (index_of id fs)) [
  | inl e ↦ here i (rw (e, index_of) at h)
  | inr (j, e) ↦
      let e' : suc j ≡ i = cc in
      subst (λ k. get_elem? (f ∷ fs) k ≡ some id) e' (get_elem?-index_of id fs j e)
]
  where
    here :
        (k : ℕ) → (if id_beq f id then some 0 else none) ≡ some k → get_elem? (f ∷ fs) k ≡ some id
    here k e = ground (arith, id_beq→eq f id)

pub index_of-injective :
    (f g : ExprId) (fs : List ExprId) (i : ℕ)
    → index_of f fs ≡ some i
    → index_of g fs ≡ some i
    → f ≡ g
index_of-injective f g fs i h k = joined (get_elem?-index_of f fs i h) (get_elem?-index_of g fs i k)
  where
    joined : {o : Option ExprId} → o ≡ some f → o ≡ some g → f ≡ g
    joined a b = cc

pub index_of-found : (e : ExprId) (fs : List ExprId) → In e fs → (n : ℕ) × (index_of e fs ≡ some n)
unfolding index_of
index_of-found e [] m = absurd m
index_of-found e (f ∷ fs) (inr m) = let (n, h) = index_of-found e fs m in (suc n, rw h refl)
index_of-found e (f ∷ fs) (inl same) = elim (Option-cases (index_of e fs)) [
  | inr (n, h) ↦ (suc n, rw h refl)
  | inl h ↦
      let here : id_beq f e ≡ true = subst (λ x. id_beq x e ≡ true) same (id_beq_refl e) in
      (0, rw (h, here) refl)
]

pub In-tracked : (i : ℕ) (o : Option ℕ) → In i (tracked o) → o ≡ some i
In-tracked i none m = absurd m
In-tracked i (some j) m = ⊎_elim (λ e. ap some (sym e)) (λ k. absurd k) m

pub tracked-In : (i : ℕ) (o : Option ℕ) → o ≡ some i → In i (tracked o)
tracked-In i none e = cc
tracked-In i (some j) e = inl (cc)

pub bool_facts-is_bool_type :
    (p : Problem) (fs : List ExprId) (f : ExprId) → In f (bool_facts p fs) → is_bool_type p f ≡ true
unfolding bool_facts
bool_facts-is_bool_type p [] f m = absurd m
bool_facts-is_bool_type p (g ∷ fs) f m = elim (Bool-cases (is_bool_type p g)) [
  | inl e ↦ ⊎_elim (λ k. rw k e) (bool_facts-is_bool_type p fs f) (rw (e, bool_facts) at m)
  | inr e ↦ bool_facts-is_bool_type p fs f (rw (e, bool_facts) at m)
]

pub bool_facts-In : (p : Problem) (fs : List ExprId) (f : ExprId) → In f (bool_facts p fs) → In f fs
unfolding bool_facts
bool_facts-In p [] f m = absurd m
bool_facts-In p (g ∷ fs) f m = elim (Bool-cases (is_bool_type p g)) [
  | inl e ↦ ⊎_elim inl (λ k. inr (bool_facts-In p fs f k)) (rw (e, bool_facts) at m)
  | inr e ↦ inr (bool_facts-In p fs f (rw (e, bool_facts) at m))
]
