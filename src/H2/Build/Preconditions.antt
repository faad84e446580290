-- ===== src/H2/Build/Preconditions.antt =====
-- What the constructor of `H2MutexChecker` collects from a precondition.
use ran_tan_plan.Prelude.{
  ℕ, zero, suc, ◌≡◌, refl, sym, ◌∙◌, subst, ◌⊎◌, inl, inr, true, Option, some, List, [], ◌∷◌, ◌++◌,
  In, In-append, Bool-cases, ⊎_elim, >>=-eq-some, if_true, if_false, and_left,
}
use ran_tan_plan.Expr.Kinds.{ExprKind}
use ran_tan_plan.Expr.Node.{ExprId, null, ref}
use ran_tan_plan.Expr.Pool.{ExprPool, is_kind, is_state_variable, is_function_application, children}
use ran_tan_plan.Expr.Pool.Laws.{is_kind_unique}
use ran_tan_plan.H2.Build.{index_of, tracked, collect_list, is_conjunction, collect}
use ran_tan_plan.H2.Build.Facts.{In-tracked}

pub In-collect_list :
    (call : ExprId → Option (List ℕ)) (cs : List ExprId) (ps : List ℕ) (i : ℕ)
    → collect_list call cs ≡ some ps
    → In i ps
    → (c : ExprId) × In c cs × ((qs : List ℕ) × (call c ≡ some qs) × In i qs)
unfolding collect_list
In-collect_list call [] ps i h m = absurd (nothing ps h m)
  where
    nothing : (qs : List ℕ) → some [] ≡ some qs → In i qs → ⊥
    nothing [] e k = k
    nothing (q ∷ qs) e k = cc
In-collect_list call (c ∷ cs) ps i h m =
    let (here, e, h') = >>=-eq-some (call c) _ h in
    let (rest, e', h'') = >>=-eq-some (collect_list call cs) _ h' in
    let same : here ++ rest ≡ ps = cc in
    elim (In-append i here rest (subst (λ t. In i t) (sym same) m)) [
      | inl k ↦ (c, inl refl, (here, e, k))
      | inr k ↦ let (d, at, found) = In-collect_list call cs rest i e' k in (d, inr at, found)
    ]

not-some_nil : {o : Option (List ℕ)} (qs : List ℕ) (i : ℕ) → o ≡ some [] → o ≡ some qs → In i qs → ⊥
not-some_nil [] i a e k = k
not-some_nil (q ∷ qs) i a e k = cc

collect-null : (p : ExprPool) (facts : List ExprId) (fuel : ℕ) → collect p facts fuel null ≡ some []
unfolding collect
collect-null p facts zero = refl
collect-null p facts (suc fuel) = refl

collect-zero :
    (p : ExprPool) (facts : List ExprId) (j : ℕ) (ps : List ℕ)
    → collect p facts zero (ref j) ≡ some ps
    → ⊥
unfolding collect
collect-zero p facts j ps h = cc

-- The three branches of a step.
collect_branches :
    (p : ExprPool) (facts : List ExprId) (fuel j : ℕ) (ps : List ℕ)
    → collect p facts (suc fuel) (ref j) ≡ some ps
    → (is_state_variable p (ref j) ≡ true) × (tracked (index_of (ref j) facts) ≡ ps)
      ⊎ ((is_conjunction p (ref j) ≡ true)
            × (collect_list (collect p facts fuel) (children p (ref j)) ≡ some ps)
          ⊎ (ps ≡ []))
unfolding collect
collect_branches p facts fuel j ps h = elim (Bool-cases (is_state_variable p (ref j))) [
  | inl sv ↦ inl (sv, some-eq (sym (if_true _ _ _ sv) ∙ h))
  | inr nsv ↦ elim (Bool-cases (is_conjunction p (ref j))) [
    | inl cj ↦ inr (inl (cj, sym (if_true _ _ _ cj) ∙ (sym (if_false _ _ _ nsv) ∙ h)))
    | inr nc ↦ inr (inr (sym (some-eq (sym (if_false _ _ _ nc) ∙ (sym (if_false _ _ _ nsv) ∙ h)))))
  ]
]
  where
    some-eq : {a b : List ℕ} → some a ≡ some b → a ≡ b
    some-eq e = cc

symbol-not-state_variable :
    (p : ExprPool) (e : ExprId)
    → is_kind p e ExprKind.function_symbol ≡ true
    → is_state_variable p e ≡ true
    → ⊥
unfolding is_state_variable
symbol-not-state_variable p e h k =
    cc (is_kind_unique p e ExprKind.function_symbol ExprKind.state_variable h k)

symbol-not-conjunction :
    (p : ExprPool) (e : ExprId)
    → is_kind p e ExprKind.function_symbol ≡ true
    → is_conjunction p e ≡ true
    → ⊥
unfolding is_conjunction is_function_application
symbol-not-conjunction p e h k =
    cc
      (is_kind_unique p e ExprKind.function_symbol ExprKind.function_application h (and_left _ _ k))

-- What is collected is a tracked state variable for which `Down` holds, if `Down` passes from a
-- conjunction to its children but for the head symbol.
pub collect-tracked :
    (p : ExprPool) (facts : List ExprId) (Down : ExprId → Type 0)
    → ((e : ExprId)
        → is_conjunction p e ≡ true
        → Down e
        → (c : ExprId) → In c (children p e)
        → (is_kind p c ExprKind.function_symbol ≡ true) ⊎ Down c)
    → (fuel : ℕ) (e : ExprId) (ps : List ℕ) (i : ℕ) → collect p facts fuel e ≡ some ps
    → Down e ⊎ (is_kind p e ExprKind.function_symbol ≡ true)
    → In i ps
    → (f : ExprId) × (index_of f facts ≡ some i) × Down f
collect-tracked p facts Down pass fuel null ps i h d m =
    absurd (not-some_nil ps i (collect-null p facts fuel) h m)
collect-tracked p facts Down pass zero (ref j) ps i h d m = absurd (collect-zero p facts j ps h)
collect-tracked p facts Down pass (suc fuel) (ref j) ps i h d m =
    elim (collect_branches p facts fuel j ps h) [
      | inl (sv, same) ↦ (
        ref j,
        In-tracked i _ (subst (λ t. In i t) (sym same) m),
        ⊎_elim (λ x. x) (λ x. absurd (symbol-not-state_variable p (ref j) x sv)) d,
      )
      | inr (inl (cj, h')) ↦
          let (c, at, (qs, e, found)) =
            In-collect_list (collect p facts fuel) (children p (ref j)) ps i h' m in
          let down = ⊎_elim (λ x. x) (λ x. absurd (symbol-not-conjunction p (ref j) x cj)) d in
          collect-tracked p facts Down pass fuel c qs i e
            (⊎_elim inr inl (pass (ref j) cj down c at)) found
      | inr (inr empty) ↦ absurd (subst (λ t. In i t) empty m)
    ]
