-- ===== src/H2/Build/Covered.antt =====
-- The tables that the checker computes cover every reachable state.
use ran_tan_plan.Prelude.{
  ℕ, ◌<◌, ◌≡◌, sym, ap, ◌∙◌, subst, ◌⊎◌, inl, inr, Bool, true, false, some, List, [], ◌∷◌, In,
  Bool-cases, ⊎_elim, length, lt-length_of_get_elem?, In-of_get_elem?, if_true, if_false,
}
use ran_tan_plan.Expr.Kinds.{ExprKind}
use ran_tan_plan.Expr.Node.{ExprId}
use ran_tan_plan.Expr.Pool.{is_kind, children}
use ran_tan_plan.Problem.{Problem, Action, EffectExpression, EffectKind, is_bool_type}
use ran_tan_plan.H2.{ActionData}
use ran_tan_plan.H2.Loops.{InRange}
use ran_tan_plan.H2.Sound.{Leads}
use ran_tan_plan.H2.Build.{index_of, bool_facts, is_conjunction, added, deleted, action_data}
use ran_tan_plan.H2.Build.Facts.{
  get_elem?-index_of, index_of-injective, bool_facts-is_bool_type, bool_facts-In,
}
use ran_tan_plan.H2.Build.Preconditions.{collect-tracked}
use ran_tan_plan.H2.Build.Effects.{
  In-concat_map, concat_map-In, In-added, added-In, In-deleted, action_data-eq,
}
use ran_tan_plan.H2.Build.World.{Valuation, IsCoherent, Fires, Happens, AssignsConstants}

module _ (p : Problem) where
  abbrev pub facts : List ExprId
  facts = bool_facts p p.grounded_fluents

  -- The places of the tracked fluents that are true.
  abbrev pub Holds : Valuation → ℕ → Type 0
  Holds v i = (f : ExprId) × (index_of f facts ≡ some i) × (v f ≡ true)

  pub index-lt : (f : ExprId) (i : ℕ) → index_of f facts ≡ some i → i < length facts
  index-lt f i h = lt-length_of_get_elem? facts i f (get_elem?-index_of f facts i h)

  pub index-is_bool_type :
      (f : ExprId) (i : ℕ) → index_of f facts ≡ some i → is_bool_type p f ≡ true
  index-is_bool_type f i h =
      bool_facts-is_bool_type p p.grounded_fluents f
        (In-of_get_elem? facts i f (get_elem?-index_of f facts i h))

  pub index-In : (f : ExprId) (i : ℕ) → index_of f facts ≡ some i → In f p.grounded_fluents
  index-In f i h =
      bool_facts-In p p.grounded_fluents f
        (In-of_get_elem? facts i f (get_elem?-index_of f facts i h))

  module _ (fuel : ℕ) (a : Action) (d : ActionData)
      (made : action_data p facts fuel a ≡ some d) where
    precondition-tracked :
        (Down : ExprId → Type 0)
        → ((e : ExprId)
            → is_conjunction p.pool e ≡ true
            → Down e
            → (c : ExprId) → In c (children p.pool e)
            → (is_kind p.pool c ExprKind.function_symbol ≡ true) ⊎ Down c)
        → (a.has_precondition ≡ true → Down a.precondition_id)
        → (i : ℕ) → In i d.preconditions
        → (f : ExprId) × (index_of f facts ≡ some i) × Down f
    precondition-tracked Down pass pre i m = elim (Bool-cases a.has_precondition) [
      | inl e ↦
          collect-tracked p.pool facts Down pass fuel a.precondition_id d.preconditions i
            (sym (if_true _ _ _ e) ∙ (action_data-eq p facts fuel a d made).0) (inl (pre e)) m
      | inr e ↦ absurd (
          nothing d.preconditions
            (sym (if_false _ _ _ e) ∙ (action_data-eq p facts fuel a d made).0) m)
    ]
      where
        nothing : (qs : List ℕ) → some [] ≡ some qs → In i qs → ⊥
        nothing [] e k = k
        nothing (q ∷ qs) e k = cc

    add-effect :
        (i : ℕ)
        → In i d.add_effects
        → (e : EffectExpression) × In e a.effects × (index_of e.fluent_id facts ≡ some i)
    add-effect i m =
        let eq = (action_data-eq p facts fuel a d made).1 in
        let (e, at, k) =
          In-concat_map (added p.pool facts) a.effects i (subst (λ t. In i t) eq m) in
        (e, at, In-added p.pool facts e i k)

    pub data-InRange : InRange (length facts) d
    data-InRange = record {
      preconditions = λ i m.
          let (f, index, _) =
            precondition-tracked (λ x. Unit {0}) (λ e k h c n. inr tt) (λ h. tt) i m in
          index-lt f i index;
      add_effects = λ i m. let (e, at, index) = add-effect i m in index-lt e.fluent_id i index;
    }

    -- An assignment that fires and makes a tracked fluent true is an add effect.
    effect-adds :
        (v : Valuation) (e : EffectExpression) (f : ExprId) (i : ℕ)
        → AssignsConstants p
        → In a p.actions
        → IsCoherent p v
        → In e a.effects
        → e.kind ≡ EffectKind.assign
        → e.fluent_id ≡ f
        → index_of f facts ≡ some i
        → v e.value_id ≡ true
        → In i d.add_effects
    effect-adds v e f i consts ma c m k same index value =
        let index' = ap (λ x. index_of x facts) same ∙ index in
        let eq = (action_data-eq p facts fuel a d made).1 in
        let constant = consts a ma e m k (index-is_bool_type e.fluent_id i index') in
        let one =
          ⊎_elim (λ h. h) (λ h. absurd (true_false value (c.false_constant e.value_id h)))
            constant in
        subst (λ t. In i t) (sym eq)
          (concat_map-In (added p.pool facts) a.effects e i m
            (added-In p.pool facts e i k one index'))
      where
        true_false : {b : Bool} → b ≡ true → b ≡ false → ⊥
        true_false x y = cc

    effect-keeps :
        (v : Valuation) (f : ExprId) (i : ℕ)
        → IsCoherent p v
        → index_of f facts ≡ some i
        → ((e : EffectExpression)
            → In e a.effects
            → Fires v e
            → e.kind ≡ EffectKind.assign
            → e.fluent_id ≡ f
            → v e.value_id ≡ true)
        → ¬ In i d.del_effects
    effect-keeps v f i c index kept m =
        let eq = (action_data-eq p facts fuel a d made).2 in
        let (e, at, k) =
          In-concat_map (deleted p.pool facts) a.effects i (subst (λ t. In i t) eq m) in
        let del = In-deleted p.pool facts e i k in
        let same = index_of-injective e.fluent_id f facts i del.index index in
        true_false (kept e at (inl del.always) del.assigns same)
          (c.false_constant e.value_id del.value)
      where
        true_false : {b : Bool} → b ≡ true → b ≡ false → ⊥
        true_false x y = cc

    pub Happens-Leads :
        (v w : Valuation)
        → AssignsConstants p
        → In a p.actions
        → IsCoherent p v
        → Happens p a v w
        → Leads d (Holds v) (Holds w)
    Happens-Leads v w consts ma c h = record {
      before = λ i m. precondition-tracked (λ x. v x ≡ true) c.conjunction h.applicable i m;
      after = λ i (f, index, now).
          ⊎_elim
            (λ (e, m, fires, k, same, value).
              inl (effect-adds v e f i consts ma c m k same index value))
            (λ (was, kept). inr ((f, index, was), effect-keeps v f i c index kept))
            (h.after f (index-is_bool_type f i index) now);
    }
