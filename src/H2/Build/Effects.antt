-- ===== src/H2/Build/Effects.antt =====
-- The effects that the constructor of `H2MutexChecker` keeps, and the data of the actions.
use ran_tan_plan.Prelude.{
  ℕ, ◌≡◌, refl, ap, ◌∙◌, subst, inl, inr, Bool, true, false, not, Option, some, List, [], ◌∷◌, In,
  In-append, In-append_left, In-append_right, ⊎_elim, >>=-eq-some, if◌then◌else◌, and_left,
  and_right, ◌↔◌,
}
use ran_tan_plan.Expr.Node.{ExprId}
use ran_tan_plan.Expr.Pool.{ExprPool, is_bool_constant}
use ran_tan_plan.Problem.{Problem, Action, EffectExpression, EffectKind, is_assign}
use ran_tan_plan.H2.{ActionData}
use ran_tan_plan.H2.Build.{
  index_of, tracked, collect, added, deleted, concat_map, action_data, all_data,
}
use ran_tan_plan.H2.Build.Facts.{In-tracked, tracked-In}

pub In-concat_map :
    (f : EffectExpression → List ℕ) (es : List EffectExpression) (i : ℕ)
    → In i (concat_map f es)
    → (e : EffectExpression) × In e es × In i (f e)
unfolding concat_map
In-concat_map f [] i m = absurd m
In-concat_map f (e ∷ es) i m = elim (In-append i (f e) (concat_map f es) m) [
  | inl k ↦ (e, inl refl, k)
  | inr k ↦ let (d, at, found) = In-concat_map f es i k in (d, inr at, found)
]

pub concat_map-In :
    (f : EffectExpression → List ℕ) (es : List EffectExpression) (e : EffectExpression) (i : ℕ)
    → In e es
    → In i (f e)
    → In i (concat_map f es)
unfolding concat_map
concat_map-In f [] e i m k = absurd m
concat_map-In f (d ∷ es) e i (inl same) k =
    In-append_left i (f d) (concat_map f es) (subst (λ x. In i (f x)) same k)
concat_map-In f (d ∷ es) e i (inr m) k =
    In-append_right i (f d) (concat_map f es) (concat_map-In f es e i m k)

assign_iff : (k : EffectKind) → (is_assign k ≡ true) ↔ (k ≡ EffectKind.assign)
unfolding is_assign
assign_iff EffectKind.assign = (λ h. refl, λ h. refl)
assign_iff EffectKind.increase = (λ h. cc, λ h. cc)
assign_iff EffectKind.decrease = (λ h. cc, λ h. cc)

In-guarded :
    (b : Bool) (o : Option ℕ) (i : ℕ)
    → In i (if b then tracked o else [])
    → (b ≡ true) × (o ≡ some i)
In-guarded true o i m = (refl, In-tracked i o m)
In-guarded false o i m = absurd m

-- An add effect is an assignment of `true` to a tracked fluent.
pub In-added :
    (p : ExprPool) (facts : List ExprId) (e : EffectExpression) (i : ℕ)
    → In i (added p facts e)
    → index_of e.fluent_id facts ≡ some i
unfolding added
In-added p facts e i m = (In-guarded _ _ i m).1

pub added-In :
    (p : ExprPool) (facts : List ExprId) (e : EffectExpression) (i : ℕ)
    → e.kind ≡ EffectKind.assign
    → is_bool_constant true p e.value_id ≡ true
    → index_of e.fluent_id facts ≡ some i
    → In i (added p facts e)
unfolding added
added-In p facts e i a v h = rw ((assign_iff e.kind).1 a, v) (tracked-In i _ h)

-- A delete effect is an unconditional assignment of `false` to a tracked fluent.
pub record Deletes (p : ExprPool) (facts : List ExprId) (e : EffectExpression) (i : ℕ)
    : Type 0 where
  pub assigns : e.kind ≡ EffectKind.assign
  pub value : is_bool_constant false p e.value_id ≡ true
  pub always : e.is_conditional ≡ false
  pub index : index_of e.fluent_id facts ≡ some i

pub In-deleted :
    (p : ExprPool) (facts : List ExprId) (e : EffectExpression) (i : ℕ)
    → In i (deleted p facts e)
    → Deletes p facts e i
unfolding deleted
In-deleted p facts e i m =
    let (all, index) = In-guarded _ _ i m in
    let rest = and_right _ _ (and_right _ _ all) in
    record {
      assigns = (assign_iff e.kind).0 (and_left _ _ all);
      value = and_left _ _ rest;
      always = not_true e.is_conditional (and_right _ _ rest);
      index = index;
    }
  where
    not_true : (b : Bool) → not b ≡ true → b ≡ false
    not_true true h = cc
    not_true false h = refl

pub action_data-eq :
    (p : Problem) (facts : List ExprId) (fuel : ℕ) (a : Action) (d : ActionData)
    → action_data p facts fuel a ≡ some d
    → ((if a.has_precondition then collect p.pool facts fuel a.precondition_id else some [])
        ≡ some d.preconditions)
      × (d.add_effects ≡ concat_map (added p.pool facts) a.effects)
      × (d.del_effects ≡ concat_map (deleted p.pool facts) a.effects)
unfolding action_data
action_data-eq p facts fuel a d h =
    let (pre, e, made) = >>=-eq-some (if a.has_precondition then _ else _) _ h in
    (e ∙ ap some (cc), cc, cc)

-- The data of the actions, one for each.
pub all_data_of :
    (p : Problem) (facts : List ExprId) (fuel : ℕ) (acts : List Action) (ds : List ActionData)
    → all_data p facts fuel acts ≡ some ds
    → (a : Action) → In a acts
    → (d : ActionData) × In d ds × (action_data p facts fuel a ≡ some d)
unfolding all_data
all_data_of p facts fuel [] ds h a m = absurd m
all_data_of p facts fuel (b ∷ bs) ds h a m =
    let (d, e, h') = >>=-eq-some (action_data p facts fuel b) _ h in
    let (rest, e', h'') = >>=-eq-some (all_data p facts fuel bs) _ h' in
    let same : d ∷ rest ≡ ds = cc in
    ⊎_elim (λ k. (d, subst (λ t. In d t) same (inl refl), rw k e))
      (λ k.
        let (x, at, made) = all_data_of p facts fuel bs rest e' a k in
        (x, subst (λ t. In x t) same (inr at), made))
      m

pub of_all_data :
    (p : Problem) (facts : List ExprId) (fuel : ℕ) (acts : List Action) (ds : List ActionData)
    → all_data p facts fuel acts ≡ some ds
    → (d : ActionData) → In d ds
    → (a : Action) × In a acts × (action_data p facts fuel a ≡ some d)
unfolding all_data
of_all_data p facts fuel [] ds h d m = absurd (nothing ds h m)
  where
    nothing : (qs : List ActionData) → some [] ≡ some qs → In d qs → ⊥
    nothing [] e k = k
    nothing (q ∷ qs) e k = cc
of_all_data p facts fuel (b ∷ bs) ds h d m =
    let (d', e, h') = >>=-eq-some (action_data p facts fuel b) _ h in
    let (rest, e', h'') = >>=-eq-some (all_data p facts fuel bs) _ h' in
    let same : ds ≡ d' ∷ rest = cc in
    ⊎_elim (λ k. (b, inl refl, rw k e))
      (λ k. let (x, at, made) = of_all_data p facts fuel bs rest e' d k in (x, inr at, made))
      (subst (λ t. In d t) same m)
