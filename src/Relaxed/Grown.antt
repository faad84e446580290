-- ===== src/Relaxed/Grown.antt =====
-- A layer that is filled keeps its facts, gains those of the effects that apply, and every fact of it
-- has a first layer.
use ran_tan_plan.Prelude.{
  int_beq, int_beq_refl, int_beq→eq, ℕ, zero, suc, ◌+◌, ◌≤◌, ◌≡◌, refl, sym, ap, ◌∙◌, subst, ◌⊎◌,
  inl, inr, Bool, true, false, Option, none, some, List, [], ◌∷◌, In, Bool-cases, if◌then◌else◌,
  >>=-eq-some, ⊎_elim, eq_of_some, arith, get_elem?, ℤ,
}
use ran_tan_plan.Expr.Node.{ExprId}
use ran_tan_plan.Problem.{Problem, Action, Assignment, EffectExpression}
use ran_tan_plan.Interference.{constant_value}
use ran_tan_plan.Relaxed.Condition.{
  Layer, missing, find_grounded_fluent_id, are_preconditions_satisfied, compute_applicable_actions,
}
use ran_tan_plan.Relaxed.Layers.{
  Achieved, first_layer, enter, Filling, achieve, add_fact, fact_of_value,
  add_simple_effect_to_layer, initialize_fact_layer, is_triggered, add_effects_to_layer,
  add_actions_to_layer,
}

-- The fact of an effect and of an assignment.
abbrev pub fact_of : Problem → ExprId → ExprId → ℤ
fact_of p fluent value =
    fact_of_value (find_grounded_fluent_id p fluent) (constant_value p.pool value)

pub record IsFilling (n : ℕ) (t : Filling) : Type 0 where
  pub known : (z : ℤ) → In z t.facts → (k : ℕ) × (first_layer t.achievability_layer z ≡ some k)
  pub bounded : (z : ℤ) (k : ℕ) → first_layer t.achievability_layer z ≡ some k → k ≤ n

pub nothing-IsFilling : IsFilling 0 (record { facts = []; achievability_layer = [] })
unfolding first_layer
nothing-IsFilling = record { known = λ z m. absurd m; bounded = λ z k h. cc }

-- Facts and first layers stay.
pub record Grows (t s : Filling) : Type 0 where
  pub keeps : (z : ℤ) → In z t.facts → In z s.facts
  pub stays :
      (z : ℤ) (k : ℕ)
      → first_layer t.achievability_layer z ≡ some k
      → first_layer s.achievability_layer z ≡ some k

Grows-refl : (t : Filling) → Grows t t
Grows-refl t = record { keeps = λ z m. m; stays = λ z k h. h }

Grows-trans : (t s r : Filling) → Grows t s → Grows s r → Grows t r
Grows-trans t s r a b = record {
  keeps = λ z m. b.keeps z (a.keeps z m);
  stays = λ z k h. b.stays z k (a.stays z k h);
}

new_entry :
    (y z : ℤ) (n : ℕ) (m : Achieved) → int_beq y z ≡ true → first_layer ((y, n) ∷ m) z ≡ some n
unfolding first_layer
new_entry y z n m e = rw e refl

old_entry :
    (y z : ℤ) (n : ℕ) (m : Achieved)
    → int_beq y z ≡ false
    → first_layer ((y, n) ∷ m) z ≡ first_layer m z
unfolding first_layer
old_entry y z n m e = rw e refl

enter_lem :
    (y : ℤ) (n : ℕ) (m : Achieved) (o : Option ℕ)
    → first_layer m y ≡ o
    → ((k : ℕ) × (first_layer (enter y n m o) y ≡ some k))
      × ((z : ℤ) (k : ℕ) → first_layer m z ≡ some k → first_layer (enter y n m o) z ≡ some k)
      × ((z : ℤ) (k : ℕ)
          → first_layer (enter y n m o) z ≡ some k
          → (first_layer m z ≡ some k) ⊎ (k ≡ n))
unfolding enter
enter_lem y n m (some k) e = ((k, e), (λ z k h. h), (λ z k h. inl h))
enter_lem y n m none e = (
  (n, new_entry y y n m (int_beq_refl y)),
  (λ z k h. elim (Bool-cases (int_beq y z)) [
    | inr other ↦ old_entry y z n m other ∙ h
    | inl same ↦ absurd (clash z k (int_beq→eq y z same) e h)
  ]),
  (λ z k h. elim (Bool-cases (int_beq y z)) [
    | inr other ↦ inl (sym (old_entry y z n m other) ∙ h)
    | inl same ↦ inr (eq_of_some (sym h ∙ new_entry y z n m same))
  ]),
)
  where
    clash : (z : ℤ) (k : ℕ) → y ≡ z → first_layer m y ≡ none → first_layer m z ≡ some k → ⊥
    clash z k same a b = cc

add_fact_lem :
    (z : ℤ) (n : ℕ) (t : Filling)
    → IsFilling n t
    → IsFilling n (add_fact z n t) × Grows t (add_fact z n t) × In z (add_fact z n t).facts
unfolding add_fact achieve
add_fact_lem z n t i =
    let ((k, self), stays, from) =
      enter_lem z n t.achievability_layer (first_layer t.achievability_layer z) refl in
    (
      record {
        known = λ y m.
            ⊎_elim
              (λ same. (
                k,
                subst (λ x. first_layer (achieve z n t.achievability_layer) x ≡ some k) (sym same)
                    self,
              ))
              (λ q. let (j, h) = i.known y q in (j, stays y j h)) m;
        bounded = λ y j h. ⊎_elim (λ q. i.bounded y j q) (λ e. omega (arith, e)) (from y j h);
      },
      record { keeps = λ y m. inr m; stays = stays },
      inl refl,
    )

-- What an effect that applies adds.
abbrev pub Adds : Problem → ℕ → Layer → EffectExpression → Layer → Type 0
Adds p fuel previous e facts =
    (b : Bool) × (is_triggered p fuel previous e ≡ some b)
    × (b ≡ true → In (fact_of p e.fluent_id e.value_id) facts)

effect_lem :
    (p : Problem) (n : ℕ) (e : EffectExpression) (b : Bool) (t : Filling)
    → IsFilling n t
    → IsFilling n (if b then add_simple_effect_to_layer p n e t else t)
      × Grows t (if b then add_simple_effect_to_layer p n e t else t)
      × (b ≡ true
          → In
              (fact_of p e.fluent_id e.value_id)
              (if b then add_simple_effect_to_layer p n e t else t).facts)
unfolding add_simple_effect_to_layer
effect_lem p n e true t i =
    let (j, g, m) = add_fact_lem (fact_of p e.fluent_id e.value_id) n t i in (j, g, λ h. m)
effect_lem p n e false t i = (i, Grows-refl t, λ h. cc)

add_effects_lem :
    (p : Problem) (fuel : ℕ) (previous : Layer) (n : ℕ) (es : List EffectExpression) (t s : Filling)
    → IsFilling n t
    → add_effects_to_layer p fuel previous n es t ≡ some s
    → IsFilling n s
      × Grows t s
      × ((e : EffectExpression) → In e es → Adds p fuel previous e s.facts)
unfolding add_effects_to_layer
add_effects_lem p fuel previous n [] t s i h =
    let same : t ≡ s = eq_of_some h in
    (subst (IsFilling n) same i, subst (Grows t) same (Grows-refl t), λ e m. absurd m)
add_effects_lem p fuel previous n (e ∷ es) t s i h =
    let (b, triggered, k) = >>=-eq-some (is_triggered p fuel previous e) _ h in
    let (i1, g1, added) = effect_lem p n e b t i in
    let (i2, g2, all) = add_effects_lem p fuel previous n es _ s i1 k in
    (
      i2,
      Grows-trans _ _ _ g1 g2,
      λ d m.
          ⊎_elim
            (λ same.
              subst (λ x. Adds p fuel previous x s.facts) (sym same)
                (b, triggered, λ q. g2.keeps _ (added q)))
            (λ q. all d q) m,
    )

pub add_actions_lem :
    (p : Problem) (fuel : ℕ) (previous : Layer) (n : ℕ) (actions : List (ℕ × Action))
    (t s : Filling)
    → IsFilling n t
    → add_actions_to_layer p fuel previous n actions t ≡ some s
    → IsFilling n s
      × Grows t s
      × ((x : ℕ × Action)
          → In x actions
          → (e : EffectExpression) → In e x.1.effects
          → Adds p fuel previous e s.facts)
unfolding add_actions_to_layer
add_actions_lem p fuel previous n [] t s i h =
    let same : t ≡ s = eq_of_some h in
    (subst (IsFilling n) same i, subst (Grows t) same (Grows-refl t), λ x m. absurd m)
add_actions_lem p fuel previous n ((j, a) ∷ actions) t s i h =
    let (r, filled, k) = >>=-eq-some (add_effects_to_layer p fuel previous n a.effects t) _ h in
    let (i1, g1, here) = add_effects_lem p fuel previous n a.effects t r i filled in
    let (i2, g2, all) = add_actions_lem p fuel previous n actions r s i1 k in
    (
      i2,
      Grows-trans _ _ _ g1 g2,
      λ x m.
          ⊎_elim
            (λ (same : x ≡ (j, a)). λ e q.
              let (b, triggered, added) = here e (subst (λ y. In e y.1.effects) same q) in
              (b, triggered, λ w. g2.keeps _ (added w)))
            (λ q. all x q) m,
    )

skip_lem :
    (z : ℤ) (b : Bool) (t : Filling)
    → IsFilling 0 t
    → IsFilling 0 (if b then t else add_fact z 0 t)
      × Grows t (if b then t else add_fact z 0 t)
      × (b ≡ false → In z (if b then t else add_fact z 0 t).facts)
skip_lem z true t i = (i, Grows-refl t, λ h. cc)
skip_lem z false t i = let (j, g, m) = add_fact_lem z 0 t i in (j, g, λ h. m)

pub initialize_fact_layer_lem :
    (p : Problem) (assignments : List Assignment) (t : Filling)
    → IsFilling 0 t
    → IsFilling 0 (initialize_fact_layer p assignments t)
      × Grows t (initialize_fact_layer p assignments t)
      × ((a : Assignment)
          → In a assignments
          → int_beq (find_grounded_fluent_id p a.fluent_id) missing ≡ false
          → In (fact_of p a.fluent_id a.value_id) (initialize_fact_layer p assignments t).facts)
unfolding initialize_fact_layer
initialize_fact_layer_lem p [] t i = (i, Grows-refl t, λ a m. absurd m)
initialize_fact_layer_lem p (a ∷ assignments) t i =
    let z = fact_of p a.fluent_id a.value_id in
    let (i0, g0, added) =
      skip_lem z (int_beq (find_grounded_fluent_id p a.fluent_id) missing) t i in
    let (i1, g1, all) = initialize_fact_layer_lem p assignments _ i0 in
    (
      i1,
      Grows-trans _ _ _ g0 g1,
      λ b m q.
          ⊎_elim
            (λ same.
              subst
                (λ x.
                  In (fact_of p x.fluent_id x.value_id)
                    (initialize_fact_layer p (a ∷ assignments) t).facts)
                (sym same)
                (g1.keeps _ (
                  added (
                    subst (λ x. int_beq (find_grounded_fluent_id p x.fluent_id) missing ≡ false)
                      same q))))
            (λ n. all b n q) m,
    )

-- The test of an action, which is in the list with its position if it passes.
abbrev pub Listed : Problem → ℕ → Layer → ℕ → Action → List (ℕ × Action) → Type 0
Listed p fuel layer i a found =
    (b : Bool) × (are_preconditions_satisfied p fuel layer a ≡ some b)
    × (b ≡ true → In {A = ℕ × Action} (i, a) found)

-- An action whose preconditions the layer satisfies is among the applicable ones, with its position.
compute_applicable_lem :
    (p : Problem) (fuel : ℕ) (layer : Layer) (i : ℕ) (actions : List Action)
    (found : List (ℕ × Action))
    → compute_applicable_actions p fuel layer i actions ≡ some found
    → (j : ℕ) (a : Action) → get_elem? actions j ≡ some a
    → Listed p fuel layer (i + j) a found
unfolding compute_applicable_actions
compute_applicable_lem p fuel layer i [] found h j a m = cc
compute_applicable_lem p fuel layer i (x ∷ actions) found h j a m =
    let (b, e, k) = >>=-eq-some (are_preconditions_satisfied p fuel layer x) _ h in
    let (rest, e', k') =
      >>=-eq-some (compute_applicable_actions p fuel layer (suc i) actions) _ k in
    at b rest e (compute_applicable_lem p fuel layer (suc i) actions rest e') (eq_of_some k') j m
  where
    at :
        (b : Bool) (rest : List (ℕ × Action))
        → are_preconditions_satisfied p fuel layer x ≡ some b
        → ((k : ℕ) (c : Action)
            → get_elem? actions k ≡ some c
            → Listed p fuel layer (suc i + k) c rest)
        → (if b then (i, x) ∷ rest else rest) ≡ found
        → (k : ℕ) → get_elem? (x ∷ actions) k ≡ some a
        → Listed p fuel layer (i + k) a found
    at b rest e all same zero q =
        let act : x ≡ a = eq_of_some q in
        subst (λ c. Listed p fuel layer (i + 0) c found) act
          (b, e, λ t. subst (λ l. In {A = ℕ × Action} (i + 0, x) l) same (listed b t))
      where
        listed :
            (b : Bool)
            → b ≡ true
            → In {A = ℕ × Action} (i + 0, x) (if b then (i, x) ∷ rest else rest)
        listed true t = inl (ap {B = ℕ × Action} (λ k. (k, x)) (omega arith))
        listed false t = cc
    at b rest e all same (suc k) q =
        let (c, sat, l) = all k a q in
        (
          c,
          sat,
          λ t.
              subst (λ y. In y found) (ap {B = ℕ × Action} (λ n. (n, a)) (omega arith))
                (subst (λ l. In {A = ℕ × Action} (suc i + k, a) l) same (kept b (l t))),
        )
      where
        kept :
            (b : Bool)
            → In {A = ℕ × Action} (suc i + k, a) rest
            → In {A = ℕ × Action} (suc i + k, a) (if b then (i, x) ∷ rest else rest)
        kept true n = inr n
        kept false n = n

pub applicable-Listed :
    (p : Problem) (fuel : ℕ) (layer : Layer) (found : List (ℕ × Action))
    → compute_applicable_actions p fuel layer 0 p.actions ≡ some found
    → (j : ℕ) (a : Action) → get_elem? p.actions j ≡ some a
    → Listed p fuel layer j a found
applicable-Listed p fuel layer found h j a m =
    subst (λ i. Listed p fuel layer i a found) (omega arith)
      (compute_applicable_lem p fuel layer 0 p.actions found h j a m)
