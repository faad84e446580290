-- ===== src/Interference/Effects.antt =====
-- What the analysis of one effect covers.
use ran_tan_plan.Prelude.{
  ℕ, ◌≡◌, refl, sym, ◌∙◌, subst, inl, inr, Bool, true, false, ◌&&◌, Option, none, some, List, [],
  ◌∷◌, ◌++◌, if◌then◌else◌, Bool-cases, In, ⊎_elim, >>=-eq-some, eq_of_some, true-ne-false,
  In-append_left, In-append_right,
}
use ran_tan_plan.Expr.Node.{ExprId}
use ran_tan_plan.Expr.Node.Equal.{is_in, In→is_in}
use ran_tan_plan.Problem.{Problem, EffectExpression, is_assign, is_bool_type}
use ran_tan_plan.Interference.{
  Collection, collect_all, names, constant_value, ActionAnalysis, analyze_condition,
  assign_constant, analyze_value, has_intersection,
}
use ran_tan_plan.Interference.Collected.{Reads, Recorded, collect_all-Recorded}

pub disjoint_lem :
    (xs ys : List ExprId) (e : ExprId) → has_intersection xs ys ≡ false → In e xs → ¬ In e ys
unfolding has_intersection
disjoint_lem [] ys e h m = absurd m
disjoint_lem (x ∷ xs) ys e h m = λ n. elim (Bool-cases (is_in x ys)) [
  | inl found ↦ true-ne-false refl (rw (found, has_intersection) at h)
  | inr lost ↦
      ⊎_elim (λ same. true-ne-false (In→is_in x ys (subst (λ y. In y ys) same n)) lost)
        (λ k. disjoint_lem xs ys e (rw (lost, has_intersection) at h) k n) m
]

-- The sets of an analysis that the effects fill.
pub data Part : Type 0 where
  positives negatives numbers written conditions dependencies : Part

abbrev pub part : Part → ActionAnalysis → List ExprId
part positives a = a.positive_boolean_effects
part negatives a = a.negative_boolean_effects
part numbers a = a.numeric_effects
part written a = a.all_effects
part conditions a = a.conditional_effect_fluents
part dependencies a = a.numeric_effect_dependencies

pub record Grows (a b : ActionAnalysis) : Type 0 where
  pub keeps : (k : Part) (f : ExprId) → In f (part k a) → In f (part k b)
  pub needs : b.numeric_preconditions ≡ a.numeric_preconditions

pub Grows-refl : (a : ActionAnalysis) → Grows a a
Grows-refl a = record { keeps = λ k f m. m; needs = refl }

pub Grows-trans : (a b c : ActionAnalysis) → Grows a b → Grows b c → Grows a c
Grows-trans a b c g h = record {
  keeps = λ k f m. h.keeps k f (g.keeps k f m);
  needs = h.needs ∙ g.needs;
}

abbrev pub is_constant_effect : Problem → EffectExpression → Bool
is_constant_effect p e = is_assign e.kind && is_bool_type p e.fluent_id

-- What the analysis of one effect holds.
pub record CoversEffect (p : Problem) (e : EffectExpression) (a : ActionAnalysis) : Type 0 where
  pub writes : In e.fluent_id a.all_effects
  pub reads :
      e.is_conditional ≡ true
      → (f : ExprId) → Reads p e.condition_id f
      → In f a.conditional_effect_fluents
  pub depends :
      is_constant_effect p e ≡ false
      → (f : ExprId) → is_bool_type p f ≡ false
      → Reads p e.value_id f
      → In f a.numeric_effect_dependencies
  pub number : is_constant_effect p e ≡ false → In e.fluent_id a.numeric_effects
  pub makes_true :
      is_constant_effect p e ≡ true
      → constant_value p.pool e.value_id ≡ some true
      → In e.fluent_id a.positive_boolean_effects
  pub makes_false :
      is_constant_effect p e ≡ true
      → constant_value p.pool e.value_id ≡ some false
      → In e.fluent_id a.negative_boolean_effects

pub later :
    (p : Problem) (e : EffectExpression) (a b : ActionAnalysis)
    → Grows a b
    → CoversEffect p e a
    → CoversEffect p e b
later p e a b g c = record {
  writes = g.keeps written _ c.writes;
  reads = λ h f r. g.keeps conditions f (c.reads h f r);
  depends = λ h f n r. g.keeps dependencies f (c.depends h f n r);
  number = λ h. g.keeps numbers _ (c.number h);
  makes_true = λ h v. g.keeps positives _ (c.makes_true h v);
  makes_false = λ h v. g.keeps negatives _ (c.makes_false h v);
}

module _ (p : Problem) (fuel : ℕ) where
  recorded_either :
      (c : Collection) (f : ExprId)
      → Recorded p c f
      → In f (names c.boolean_fluents ++ c.numeric_fluents)
  recorded_either c f r = elim (Bool-cases (is_bool_type p f)) [
    | inl e ↦ In-append_left f (names c.boolean_fluents) c.numeric_fluents (r.boolean e)
    | inr e ↦ In-append_right f (names c.boolean_fluents) c.numeric_fluents (r.numeric e)
  ]

  pub condition_lem :
      (e : EffectExpression) (a b : ActionAnalysis)
      → analyze_condition p fuel e a ≡ some b
      → Grows a b
        × (e.is_conditional ≡ true
            → (f : ExprId) → Reads p e.condition_id f
            → In f b.conditional_effect_fluents)
  unfolding analyze_condition
  condition_lem e a b h = elim (Bool-cases e.is_conditional) [
    | inr no' ↦ (
      subst (Grows a) (eq_of_some (rw (no', analyze_condition) at h)) (Grows-refl a),
      λ y. absurd (true-ne-false y no'),
    )
    | inl yes' ↦
        let (c, found, made) =
          >>=-eq-some (collect_all p fuel e.condition_id) _ (rw (yes', analyze_condition) at h) in
        subst
          (λ x.
            Grows a x
            × (e.is_conditional ≡ true
                → (f : ExprId) → Reads p e.condition_id f
                → In f x.conditional_effect_fluents))
          (eq_of_some made)
          (
            record { keeps = grown c; needs = refl },
            λ _ f r.
                before c f
                  (recorded_either c f (collect_all-Recorded p fuel e.condition_id c f found r)),
          )
  ]
    where
      all_of : Collection → List ExprId
      all_of c = names c.boolean_fluents ++ c.numeric_fluents ++ a.conditional_effect_fluents

      before :
          (c : Collection) (f : ExprId)
          → In f (names c.boolean_fluents ++ c.numeric_fluents)
          → In f (all_of c)
      before c f m =
          In-append_left f (names c.boolean_fluents ++ c.numeric_fluents)
            a.conditional_effect_fluents m

      grown :
          (c : Collection) (k : Part) (f : ExprId)
          → In f (part k a)
          → In f (part k (record a { conditional_effect_fluents = all_of c }))
      grown c positives f m = m
      grown c negatives f m = m
      grown c numbers f m = m
      grown c written f m = m
      grown c dependencies f m = m
      grown c conditions f m =
          In-append_right f (names c.boolean_fluents ++ c.numeric_fluents)
            a.conditional_effect_fluents m

  pub value_lem :
      (e : EffectExpression) (a b : ActionAnalysis)
      → analyze_value p fuel e a ≡ some b
      → Grows a b
        × (is_constant_effect p e ≡ false
            → (In e.fluent_id b.numeric_effects)
              × ((f : ExprId)
                  → is_bool_type p f ≡ false
                  → Reads p e.value_id f
                  → In f b.numeric_effect_dependencies))
        × ((v : Bool)
            → is_constant_effect p e ≡ true
            → constant_value p.pool e.value_id ≡ some v
            → In e.fluent_id (part (if v then positives else negatives) b))
  unfolding analyze_value
  value_lem e a b h = elim (Bool-cases (is_constant_effect p e)) [
    | inl yes' ↦
        let made = eq_of_some (rw (yes', analyze_value) at h) in
        (
          subst (Grows a) made (assigned (constant_value p.pool e.value_id)),
          (λ no'. absurd (true-ne-false yes' no')),
          (λ v _ value.
              subst (λ x. In e.fluent_id (part (if v then positives else negatives) x)) made
                (hit v (constant_value p.pool e.value_id) value)),
        )
    | inr no' ↦
        let (c, found, made) =
          >>=-eq-some (collect_all p fuel e.value_id) _ (rw (no', analyze_value) at h) in
        (
          subst (Grows a) (eq_of_some made) (record { keeps = grown c; needs = refl }),
          (λ _.
              subst
                (λ x.
                  (In e.fluent_id x.numeric_effects)
                  × ((f : ExprId)
                      → is_bool_type p f ≡ false
                      → Reads p e.value_id f
                      → In f x.numeric_effect_dependencies))
                (eq_of_some made)
                (
                  inl refl,
                  λ f numeric r.
                      In-append_left f c.numeric_fluents a.numeric_effect_dependencies
                        ((collect_all-Recorded p fuel e.value_id c f found r).numeric numeric),
                )),
          (λ v yes'. absurd (true-ne-false yes' no')),
        )
  ]
    where
      assigned : (o : Option Bool) → Grows a (assign_constant e o a)
      assigned none = Grows-refl a
      assigned (some true) = record { keeps = λ k f m. more k f m; needs = refl }
        where
          more :
              (k : Part) (f : ExprId)
              → In f (part k a)
              → In f (part k (assign_constant e (some true) a))
          more positives f m = inr m
          more negatives f m = m
          more numbers f m = m
          more written f m = m
          more conditions f m = m
          more dependencies f m = m
      assigned (some false) = record { keeps = λ k f m. more k f m; needs = refl }
        where
          more :
              (k : Part) (f : ExprId)
              → In f (part k a)
              → In f (part k (assign_constant e (some false) a))
          more positives f m = m
          more negatives f m = inr m
          more numbers f m = m
          more written f m = m
          more conditions f m = m
          more dependencies f m = m

      hit :
          (v : Bool) (o : Option Bool)
          → o ≡ some v
          → In e.fluent_id (part (if v then positives else negatives) (assign_constant e o a))
      hit v none h = cc
      hit true (some true) h = inl refl
      hit true (some false) h = absurd (true-ne-false refl (sym (eq_of_some h)))
      hit false (some true) h = absurd (true-ne-false refl (eq_of_some h))
      hit false (some false) h = inl refl

      grown :
          (c : Collection) (k : Part) (f : ExprId)
          → In f (part k a)
          → In f (
              part k (record a {
                numeric_effects = e.fluent_id ∷ a.numeric_effects;
                numeric_effect_dependencies = c.numeric_fluents ++ a.numeric_effect_dependencies;
              }))
      grown c positives f m = m
      grown c negatives f m = m
      grown c numbers f m = inr m
      grown c written f m = m
      grown c conditions f m = m
      grown c dependencies f m = In-append_right f c.numeric_fluents a.numeric_effect_dependencies m
