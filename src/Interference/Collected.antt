-- ===== src/Interference/Collected.antt =====
-- What the collector records: every fluent that the walk over an expression reaches.
use ran_tan_plan.Prelude.{
  ℕ, zero, suc, ◌≡◌, refl, ◌∙◌, subst, inl, inr, Bool, true, false, not, Option, some, List, [],
  ◌∷◌, Bool-cases, In, ⊎_elim, >>=-eq-some, eq_of_some, true-ne-false,
}
use ran_tan_plan.Expr.Kinds.{ExprOperator}
use ran_tan_plan.Expr.Node.{ExprId, null, ref, id_beq}
use ran_tan_plan.Expr.Node.Equal.{id_beq→eq}
use ran_tan_plan.Expr.Pool.{is_op, children, arguments}
use ran_tan_plan.Problem.{Problem, is_bool_type}
use ran_tan_plan.Interference.{
  Polarity, Collection, put, polarity_of, collect_fluent, collect_each, is_fluent, collect_from,
  nothing_collected, collect_all, names,
}

-- The walk from an expression reaches the fluent: through the arguments of a negation, or the
-- children of anything else that is no fluent itself.
pub data Reads (p : Problem) : ExprId → ExprId → Type 0 where
  negated :
      {i : ℕ} {f : ExprId} (c : ExprId)
      → is_op p.pool (ref i) ExprOperator.not ≡ true
      → In c (arguments p.pool (ref i))
      → Reads p c f
      → Reads p (ref i) f
  itself :
      {i : ℕ}
      → is_op p.pool (ref i) ExprOperator.not ≡ false
      → is_fluent p.pool (ref i) ≡ true
      → Reads p (ref i) (ref i)
  below :
      {i : ℕ} {f : ExprId} (c : ExprId)
      → is_op p.pool (ref i) ExprOperator.not ≡ false
      → is_fluent p.pool (ref i) ≡ false
      → In c (children p.pool (ref i))
      → Reads p c f
      → Reads p (ref i) f

put-keeps :
    (id : ExprId) (q : Polarity) (m : List (ExprId × Polarity)) (f : ExprId)
    → In f (names m)
    → In f (names (put id q m))
unfolding put names
put-keeps id q [] f h = absurd h
put-keeps id q ((j, r) ∷ m) f h = elim (Bool-cases (id_beq j id)) [
  | inl e ↦ rw (e, put) (⊎_elim (λ k. inl (k ∙ id_beq→eq j id e)) inr h)
  | inr e ↦ rw (e, put) (⊎_elim inl (λ k. inr (put-keeps id q m f k)) h)
]

put-In : (id : ExprId) (q : Polarity) (m : List (ExprId × Polarity)) → In id (names (put id q m))
unfolding put names
put-In id q [] = inl refl
put-In id q ((j, r) ∷ m) = elim (Bool-cases (id_beq j id)) [
  | inl e ↦ rw (e, put) (inl refl)
  | inr e ↦ rw (e, put) (inr (put-In id q m))
]

record Grows (c d : Collection) : Type 0 where
  booleans : (f : ExprId) → In f (names c.boolean_fluents) → In f (names d.boolean_fluents)
  numbers : (f : ExprId) → In f c.numeric_fluents → In f d.numeric_fluents

-- A fluent is among the Boolean ones or the numeric ones, as its type says.
pub record Recorded (p : Problem) (c : Collection) (f : ExprId) : Type 0 where
  pub boolean : is_bool_type p f ≡ true → In f (names c.boolean_fluents)
  pub numeric : is_bool_type p f ≡ false → In f c.numeric_fluents

Grows-refl : (c : Collection) → Grows c c
Grows-refl c = record { booleans = λ f m. m; numbers = λ f m. m }

Grows-trans : (b c d : Collection) → Grows b c → Grows c d → Grows b d
Grows-trans b c d g h = record {
  booleans = λ f m. h.booleans f (g.booleans f m);
  numbers = λ f m. h.numbers f (g.numbers f m);
}

Grows-Recorded :
    (p : Problem) (c d : Collection) (f : ExprId) → Grows c d → Recorded p c f → Recorded p d f
Grows-Recorded p c d f g r = record {
  boolean = λ e. g.booleans f (r.boolean e);
  numeric = λ e. g.numbers f (r.numeric e);
}

module _ (p : Problem) where
  fluent_lem :
      (b : Bool) (id : ExprId) (c : Collection)
      → Grows c (collect_fluent p b id c) × Recorded p (collect_fluent p b id c) id
  unfolding collect_fluent
  fluent_lem b id c = elim (Bool-cases (is_bool_type p id)) [
    | inl e ↦
        rw (e, collect_fluent)
          (
            record {
              booleans = put-keeps id (polarity_of b) c.boolean_fluents;
              numbers = λ f m. m;
            },
            record {
              boolean = λ _. put-In id (polarity_of b) c.boolean_fluents;
              numeric = λ x. absurd (true-ne-false e x);
            },
          )
    | inr e ↦
        rw (e, collect_fluent)
          (
            record { booleans = λ f m. m; numbers = λ f m. inr m },
            record { boolean = λ x. absurd (true-ne-false x e); numeric = λ _. inl refl },
          )
  ]

  each_lem :
      (call : ExprId → Collection → Option Collection)
      → ((e : ExprId) (c d : Collection)
          → call e c ≡ some d
          → Grows c d × ((f : ExprId) → Reads p e f → Recorded p d f))
      → (es : List ExprId) (c d : Collection) → collect_each call es c ≡ some d
      → Grows c d × ((e : ExprId) → In e es → (f : ExprId) → Reads p e f → Recorded p d f)
  unfolding collect_each
  each_lem call ok [] c d h = (subst (Grows c) (eq_of_some h) (Grows-refl c), λ e m. absurd m)
  each_lem call ok (e ∷ es) c d h =
      let (b, first, more) = >>=-eq-some (call e c) _ h in
      let (g, here) = ok e c b first in
      let (g', there) = each_lem call ok es b d more in
      (
        Grows-trans c b d g g',
        λ x m f r.
            ⊎_elim (λ same. Grows-Recorded p b d f g' (here f (subst (λ y. Reads p y f) same r)))
              (λ k. there x k f r) m,
      )

  from_lem :
      (fuel : ℕ) (b : Bool) (e : ExprId) (c d : Collection)
      → collect_from p fuel b e c ≡ some d
      → Grows c d × ((f : ExprId) → Reads p e f → Recorded p d f)
  unfolding collect_from
  from_lem fuel b null c d h =
      (subst (Grows c) (eq_of_some h) (Grows-refl c), λ f r. absurd (none_read f r))
    where
      none_read : (f : ExprId) → Reads p null f → ⊥
      none_read f r = elim r [ ]
  from_lem zero b (ref i) c d h = cc
  from_lem (suc fuel) b (ref i) c d h = elim (Bool-cases (is_op p.pool (ref i) ExprOperator.not)) [
    | inl neg ↦
        let (g, all) =
          each_lem (collect_from p fuel (not b)) (from_lem fuel (not b)) (arguments p.pool (ref i))
            c d (rw (neg, collect_from) at h) in
        (g, λ f r. in_negation neg all r)
    | inr plain ↦ elim (Bool-cases (is_fluent p.pool (ref i))) [
      | inl fl ↦
          let same = eq_of_some (rw (plain, fl, collect_from) at h) in
          let (g, rec) = fluent_lem b (ref i) c in
          (
            subst (Grows c) same g,
            λ f r. at_fluent plain fl (subst (λ x. Recorded p x (ref i)) same rec) r,
          )
      | inr other ↦
          let (g, all) =
            each_lem (collect_from p fuel b) (from_lem fuel b) (children p.pool (ref i)) c d
              (rw (plain, other, collect_from) at h) in
          (g, λ f r. in_children plain other all r)
    ]
  ]
    where
      in_negation :
          {f : ExprId}
          → is_op p.pool (ref i) ExprOperator.not ≡ true
          → ((e : ExprId)
              → In e (arguments p.pool (ref i))
              → (f : ExprId) → Reads p e f
              → Recorded p d f)
          → Reads p (ref i) f
          → Recorded p d f
      in_negation neg all (negated c _ m r) = all c m _ r
      in_negation neg all (itself plain _) = absurd (true-ne-false neg plain)
      in_negation neg all (below c plain _ m r) = absurd (true-ne-false neg plain)

      at_fluent :
          {f : ExprId}
          → is_op p.pool (ref i) ExprOperator.not ≡ false
          → is_fluent p.pool (ref i) ≡ true
          → Recorded p d (ref i)
          → Reads p (ref i) f
          → Recorded p d f
      at_fluent plain fl rec (negated c neg m r) = absurd (true-ne-false neg plain)
      at_fluent plain fl rec (itself _ _) = rec
      at_fluent plain fl rec (below c _ other m r) = absurd (true-ne-false fl other)

      in_children :
          {f : ExprId}
          → is_op p.pool (ref i) ExprOperator.not ≡ false
          → is_fluent p.pool (ref i) ≡ false
          → ((e : ExprId)
              → In e (children p.pool (ref i))
              → (f : ExprId) → Reads p e f
              → Recorded p d f)
          → Reads p (ref i) f
          → Recorded p d f
      in_children plain other all (negated c neg m r) = absurd (true-ne-false neg plain)
      in_children plain other all (itself _ fl) = absurd (true-ne-false fl other)
      in_children plain other all (below c _ _ m r) = all c m _ r

  pub collect_all-Recorded :
      (fuel : ℕ) (e : ExprId) (d : Collection) (f : ExprId)
      → collect_all p fuel e ≡ some d
      → Reads p e f
      → Recorded p d f
  unfolding collect_all
  collect_all-Recorded fuel e d f h r = (from_lem fuel false e nothing_collected d h).1 f r
