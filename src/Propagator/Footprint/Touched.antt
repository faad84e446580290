-- ===== src/Propagator/Footprint/Touched.antt =====
-- The first half of `build_footprint_index`: which actions the map has for a fluent.
use ran_tan_plan.Prelude.{
  ℕ, ◌≡◌, refl, sym, ap, ◌∙◌, subst, ◌↔◌, ◌⊎◌, inl, inr, true, some, List, [], ◌∷◌, if◌then◌else◌,
  if_true, if_false, In, Distinct, ⊎_elim, Bool-cases, true-ne-false, In-append, In-append_left,
  In-append_right,
}
use ran_tan_plan.Expr.Node.{ExprId, id_beq}
use ran_tan_plan.Expr.Node.Equal.{id_beq→eq, id_beq_refl}
use ran_tan_plan.Expr.Pool.{ExprPool}
use ran_tan_plan.Expr.Pool.Laws.{Below, IsOrdered}
use ran_tan_plan.Problem.{Problem, Action, EffectExpression}
use ran_tan_plan.Problem.Fluents.{Mentions, collect_from_id_lem}
use ran_tan_plan.Propagator.Footprint.{
  FluentActions, push_action, push_fluents, effect_fluents, precondition_fluents, index_actions,
}

abbrev keys : FluentActions → List ExprId
keys [] = []
keys ((f, aids) ∷ m) = f ∷ keys m

abbrev actions_of : FluentActions → ExprId → List ℕ
actions_of [] f = []
actions_of ((g, aids) ∷ m) f = if id_beq g f then aids else actions_of m f

beq_of_eq : (f g : ExprId) → f ≡ g → id_beq f g ≡ true
beq_of_eq f g e = subst (λ y. id_beq f y ≡ true) e (id_beq_refl f)

In-keys-push :
    (a : ℕ) (f k : ExprId) (m : FluentActions)
    → In k (keys (push_action a f m))
    → In k (keys m) ⊎ (k ≡ f)
unfolding push_action
In-keys-push a f k [] h = ⊎_elim (λ e. inr e) (λ n. absurd n) h
In-keys-push a f k ((g, aids) ∷ m) h = elim (Bool-cases (id_beq g f)) [
  | inl e ↦ inl (rw (e, push_action) at h)
  | inr e ↦
      ⊎_elim (λ x. inl (inl x))
        (λ x. ⊎_elim (λ y. inl (inr y)) (λ y. inr y) (In-keys-push a f k m x))
        (rw (e, push_action) at h)
]

push-Distinct :
    (a : ℕ) (f : ExprId) (m : FluentActions)
    → Distinct (keys m)
    → Distinct (keys (push_action a f m))
unfolding push_action
push-Distinct a f [] d = ((λ m. m), tt)
push-Distinct a f ((g, aids) ∷ m) d = elim (Bool-cases (id_beq g f)) [
  | inl e ↦ rw (e, push_action) d
  | inr e ↦
      rw (e, push_action)
        (
          (λ h. ⊎_elim d.0 (λ same. true-ne-false (beq_of_eq g f same) e) (In-keys-push a f g m h)),
          push-Distinct a f m d.1,
        )
]

In-actions_of-push :
    (a x : ℕ) (f g : ExprId) (m : FluentActions)
    → In x (actions_of (push_action a f m) g) ↔ (In x (actions_of m g) ⊎ (g ≡ f) × (x ≡ a))
unfolding push_action
In-actions_of-push a x f g [] = elim (Bool-cases (id_beq f g)) [
  | inl e ↦ rw e (
    λ m. inr (sym (id_beq→eq f g e), ⊎_elim (λ q. q) (λ q. absurd q) m),
    ⊎_elim (λ m. absurd m) (λ m. inl m.1),
  )
  | inr e ↦
      rw e
        (λ m. absurd m, ⊎_elim (λ m. m) (λ m. absurd (true-ne-false (beq_of_eq f g (sym m.0)) e)))
]
In-actions_of-push a x f g ((k, aids) ∷ m) = elim (Bool-cases (id_beq k f)) [
  | inl e ↦ elim (Bool-cases (id_beq k g)) [
    | inl at ↦
        rw (e, push_action, at)
          (
            λ h.
                ⊎_elim (λ q. inl q)
                  (λ q.
                    ⊎_elim (λ r. inr (sym (id_beq→eq k g at) ∙ id_beq→eq k f e, r)) (λ r. absurd r)
                      q)
                  (In-append x aids (a ∷ []) h),
            ⊎_elim (λ q. In-append_left x aids (a ∷ []) q)
                (λ q. In-append_right x aids (a ∷ []) (inl q.1)),
          )
    | inr away ↦
        rw (e, push_action, away)
          (
            λ h. inl h,
            ⊎_elim (λ q. q)
                (λ q. absurd (true-ne-false (beq_of_eq k g (id_beq→eq k f e ∙ sym q.0)) away)),
          )
  ]
  | inr e ↦ elim (Bool-cases (id_beq k g)) [
    | inl at ↦
        rw (e, push_action, at)
          (
            λ h. inl h,
            ⊎_elim (λ q. q)
                (λ q. absurd (true-ne-false (beq_of_eq k f (id_beq→eq k g at ∙ q.0)) e)),
          )
    | inr away ↦ rw (e, push_action, away) (In-actions_of-push a x f g m)
  ]
]

push_fluents_lem :
    (a x : ℕ) (fs : List ExprId) (g : ExprId) (m : FluentActions)
    → In x (actions_of (push_fluents a fs m) g) ↔ (In x (actions_of m g) ⊎ In g fs × (x ≡ a))
unfolding push_fluents
push_fluents_lem a x [] g m = (λ h. inl h, ⊎_elim (λ h. h) (λ h. absurd h.0))
push_fluents_lem a x (f ∷ fs) g m =
    let rest = push_fluents_lem a x fs g (push_action a f m) in
    let one = In-actions_of-push a x f g m in
    (
      λ h.
          ⊎_elim (λ k. ⊎_elim (λ l. inl l) (λ l. inr (inl l.0, l.1)) (one.0 k))
            (λ k. inr (inr k.0, k.1)) (rest.0 h),
      ⊎_elim (λ k. rest.1 (inl (one.1 (inl k))))
          (λ k. ⊎_elim (λ e. rest.1 (inl (one.1 (inr (e, k.1))))) (λ l. rest.1 (inr (l, k.1))) k.0),
    )

push_fluents-Distinct :
    (a : ℕ) (fs : List ExprId) (m : FluentActions)
    → Distinct (keys m)
    → Distinct (keys (push_fluents a fs m))
unfolding push_fluents
push_fluents-Distinct a [] m d = d
push_fluents-Distinct a (f ∷ fs) m d = push_fluents-Distinct a fs _ (push-Distinct a f m d)

-- The action writes the fluent, or its precondition mentions it.
abbrev pub Touches : ExprPool → Action → ExprId → Type 0
Touches p action f =
    ((e : EffectExpression) × In e action.effects × (f ≡ e.fluent_id))
    ⊎ (action.has_precondition ≡ true) × Mentions p f action.precondition_id

abbrev pub TouchedBy : ExprPool → List Action → ExprId → ℕ → Type 0
TouchedBy p actions f a =
    (action : Action) × In action actions × (a ≡ action.id) × Touches p action f

effect_fluents_lem :
    (es : List EffectExpression) (f : ExprId)
    → In f (effect_fluents es) ↔ ((e : EffectExpression) × In e es × (f ≡ e.fluent_id))
unfolding effect_fluents
effect_fluents_lem [] f = (λ m. absurd m, λ h. absurd h.1)
effect_fluents_lem (e ∷ es) f = (
  λ m.
      ⊎_elim (λ same. (e, inl refl, same))
        (λ k. let (d, at, same) = (effect_fluents_lem es f).0 k in (d, inr at, same)) m,
  λ h.
      ⊎_elim (λ q. inl (h.2 ∙ ap (λ (y : EffectExpression). y.fluent_id) q))
        (λ q. inr ((effect_fluents_lem es f).1 (h.0, q, h.2))) h.1,
)

module _ (p : Problem) (o : IsOrdered p.pool) (fuel : ℕ) where
  precondition_lem :
      (action : Action)
      → Below fuel action.precondition_id
      → (fs : List ExprId) × (precondition_fluents p fuel action ≡ some fs)
        × ((f : ExprId)
            → In f fs
              ↔ ((action.has_precondition ≡ true) × Mentions p.pool f action.precondition_id))
  unfolding precondition_fluents
  precondition_lem action h = elim (Bool-cases action.has_precondition) [
    | inl has ↦
        let (fs, e, all) = collect_from_id_lem p.pool o fuel action.precondition_id [] h in
        (
          fs,
          if_true _ _ _ has ∙ e,
          λ f.
              (λ m. (has, ⊎_elim (λ n. absurd n) (λ k. k) ((all f).0 m)), λ k. (all f).1 (inr k.1)),
        )
    | inr none' ↦
        ([], if_false _ _ _ none', λ f. (λ m. absurd m, λ k. absurd (true-ne-false k.0 none')))
  ]

  -- The map holds an action for a fluent exactly when the action touches it.
  index_actions_lem :
      (actions : List Action) (m : FluentActions)
      → ((action : Action) → In action actions → Below fuel action.precondition_id)
      → Distinct (keys m)
      → (r : FluentActions) × (index_actions p fuel actions m ≡ some r)
        × Distinct (keys r)
        × ((f : ExprId) (a : ℕ)
            → In a (actions_of r f) ↔ (In a (actions_of m f) ⊎ TouchedBy p.pool actions f a))
  unfolding index_actions
  index_actions_lem [] m low d =
      (m, refl, d, λ f a. (λ h. inl h, ⊎_elim (λ h. h) (λ h. absurd h.1)))
  index_actions_lem (x ∷ xs) m low d =
      let (fs, e, pre) = precondition_lem x (low x (inl refl)) in
      let m1 = push_fluents x.id (effect_fluents x.effects) m in
      let (r, e', d', all) =
        index_actions_lem xs (push_fluents x.id fs m1) (λ y k. low y (inr k))
          (push_fluents-Distinct x.id fs m1
            (push_fluents-Distinct x.id (effect_fluents x.effects) m d)) in
      (r, rw e e', d', λ f a. both fs pre r f a (all f a))
    where
      both :
          (fs : List ExprId)
          → ((f : ExprId)
              → In f fs ↔ ((x.has_precondition ≡ true) × Mentions p.pool f x.precondition_id))
          → (r : FluentActions) (f : ExprId) (a : ℕ)
          → In a (actions_of r f) ↔ (
              In a (
                actions_of
                  (push_fluents x.id fs (push_fluents x.id (effect_fluents x.effects) m))
                  f)
              ⊎ TouchedBy p.pool xs f a)
          → In a (actions_of r f) ↔ (In a (actions_of m f) ⊎ TouchedBy p.pool (x ∷ xs) f a)
      both fs pre r f a all =
          let m1 = push_fluents x.id (effect_fluents x.effects) m in
          let second = push_fluents_lem x.id a fs f m1 in
          let first = push_fluents_lem x.id a (effect_fluents x.effects) f m in
          (
            λ h.
                ⊎_elim
                  (λ k.
                    ⊎_elim
                      (λ l.
                        ⊎_elim (λ q. inl q)
                          (λ q.
                            inr (x, inl refl, q.1, inl ((effect_fluents_lem x.effects f).0 q.0)))
                          (first.0 l))
                      (λ l. inr (x, inl refl, l.1, inr ((pre f).0 l.0))) (second.0 k))
                  (λ k. inr (k.0, inr k.1, k.2, k.3)) (all.0 h),
            ⊎_elim (λ k. all.1 (inl (second.1 (inl (first.1 (inl k))))))
                (λ k.
                  ⊎_elim
                    (λ same.
                      let moved : (a ≡ x.id) × Touches p.pool x f =
                        subst (λ (y : Action). (a ≡ y.id) × Touches p.pool y f) same (k.2, k.3) in
                      all.1 (
                        inl (
                          ⊎_elim
                            (λ e.
                              second.1 (
                                inl
                                  (first.1 (inr ((effect_fluents_lem x.effects f).1 e, moved.0)))))
                            (λ e. second.1 (inr ((pre f).1 e, moved.0))) moved.1)))
                    (λ l. all.1 (inr (k.0, l, k.2, k.3))) k.1),
          )

abbrev Entry : Type 0
Entry = ExprId × List ℕ

In-keys :
    (m : FluentActions) (f : ExprId) (aids : List ℕ) → In {A = Entry} (f, aids) m → In f (keys m)
In-keys [] f aids h = absurd h
In-keys ((g, bs) ∷ m) f aids (inl e) = inl (ap (λ (y : Entry). y.0) e)
In-keys ((g, bs) ∷ m) f aids (inr h) = inr (In-keys m f aids h)

-- An entry holds the actions that are listed under its fluent.
entry-eq :
    (m : FluentActions) (f : ExprId) (aids : List ℕ)
    → Distinct (keys m)
    → In {A = Entry} (f, aids) m
    → actions_of m f ≡ aids
entry-eq [] f aids d h = absurd h
entry-eq ((g, bs) ∷ m) f aids d (inl e) =
    let same : f ≡ g = ap (λ (y : Entry). y.0) e in
    let found = beq_of_eq g f (sym same) in rw found (sym (ap (λ (y : Entry). y.1) e))
entry-eq ((g, bs) ∷ m) f aids d (inr h) = elim (Bool-cases (id_beq g f)) [
  | inl e ↦ absurd (d.0 (subst (λ y. In y (keys m)) (sym (id_beq→eq g f e)) (In-keys m f aids h)))
  | inr e ↦ rw e (entry-eq m f aids d.1 h)
]

entry_of :
    (m : FluentActions) (f : ExprId) (a : ℕ)
    → In a (actions_of m f)
    → (aids : List ℕ) × In {A = Entry} (f, aids) m × (actions_of m f ≡ aids)
entry_of [] f a h = absurd h
entry_of ((g, bs) ∷ m) f a h = elim (Bool-cases (id_beq g f)) [
  | inl e ↦ (
    bs,
    inl (ap (λ (y : ExprId). let q : Entry = (y, bs) in q) (sym (id_beq→eq g f e))),
    if_true _ _ _ e,
  )
  | inr e ↦
      let (aids, at, same) = entry_of m f a (subst (λ l. In a l) (if_false _ _ _ e) h) in
      (aids, inr at, if_false _ _ _ e ∙ same)
]

-- Two actions stand in one entry of the map.
abbrev pub Shares : FluentActions → ℕ → ℕ → Type 0
Shares m a b = (f : ExprId) × (aids : List ℕ) × In {A = Entry} (f, aids) m × In a aids × In b aids

-- The map that the first half builds has two actions in one entry exactly when there is a fluent that
-- both of them touch.
pub index_lem :
    (p : Problem) (fuel : ℕ)
    → IsOrdered p.pool
    → ((action : Action) → In action p.actions → Below fuel action.precondition_id)
    → (m : FluentActions) × (index_actions p fuel p.actions [] ≡ some m)
      × ((a b : ℕ)
          → Shares m a b
            ↔ ((f : ExprId) × TouchedBy p.pool p.actions f a × TouchedBy p.pool p.actions f b))
index_lem p fuel o low =
    let (m, e, d, all) = index_actions_lem p o fuel p.actions [] low tt in
    (
      m,
      e,
      λ a b. (
        (λ s.
            let same = sym (entry-eq m s.0 s.1 d s.2) in
            (
              s.0,
              touched m all s.0 a (subst (λ l. In a l) same s.3),
              touched m all s.0 b (subst (λ l. In b l) same s.4),
            )),
        (λ t.
            let (aids, at, same) = entry_of m t.0 a ((all t.0 a).1 (inr t.1)) in
            (
              t.0,
              aids,
              at,
              subst (λ l. In a l) same ((all t.0 a).1 (inr t.1)),
              subst (λ l. In b l) same ((all t.0 b).1 (inr t.2)),
            )),
      ),
    )
  where
    touched :
        (m : FluentActions)
        → ((f : ExprId) (a : ℕ)
            → In a (actions_of m f) ↔ (In a (actions_of [] f) ⊎ TouchedBy p.pool p.actions f a))
        → (f : ExprId) (a : ℕ) → In a (actions_of m f)
        → TouchedBy p.pool p.actions f a
    touched m all f a h = ⊎_elim (λ n. absurd n) (λ t. t) ((all f a).0 h)
