-- ===== src/Relaxed/Built.antt =====
-- What `build` returns: layers up to the fixpoint, unless the limit cuts them off.
use ran_tan_plan.Prelude.{
  ℕ, zero, suc, ◌+◌, ◌≤◌, ◌≡◌, refl, sym, ap, ◌∙◌, subst, ◌⊎◌, inl, inr, true, Option, some, List,
  [], ◌∷◌, In, if◌then◌else◌, eq_of_some, arith, length, ℤ, >>=-eq-some, ◌>>=◌, and_left, and_right,
}
use ran_tan_plan.Problem.{Problem, Action}
use ran_tan_plan.Relaxed.Condition.{Layer, has_fact, compute_applicable_actions}
use ran_tan_plan.Relaxed.Layers.{
  Achieved, first_layer, Filling, current_layer, add_actions_to_layer, RelaxedPlanningGraph, all_in,
  is_fixpoint_reached, has_none, with_actions, with_layer, add_layers, max_rpg_layers,
  initial_filling, build,
}
use ran_tan_plan.Relaxed.Satisfied.{branch}
use ran_tan_plan.Relaxed.Facts.{has_fact→In}
use ran_tan_plan.Relaxed.Grown.{
  IsFilling, add_actions_lem, initialize_fact_layer_lem, nothing-IsFilling, applicable-Listed,
}
use ran_tan_plan.Relaxed.Covered.{IsNext, IsGraph, initial, layered, graph_initial}

-- Every fact of a layer has a first layer that is not after it.
abbrev pub Dated : Achieved → List Layer → Type 0
Dated m [] = Unit {0}
Dated m (layer ∷ before) =
    ((z : ℤ) → In z layer → (k : ℕ) × (first_layer m z ≡ some k) × (k ≤ length before))
    × Dated m before

Dated-stays :
    (m n : Achieved) (layers : List Layer)
    → ((z : ℤ) (k : ℕ) → first_layer m z ≡ some k → first_layer n z ≡ some k)
    → Dated m layers
    → Dated n layers
Dated-stays m n [] h d = tt
Dated-stays m n (layer ∷ before) h (d, rest) =
    ((λ z q. let (k, e, l) = d z q in (k, h z k e, l)), Dated-stays m n before h rest)

-- The graph between the turns of the loop.
pub record IsLoop (p : Problem) (fuel : ℕ) (layer : Layer) (before : List Layer)
    (r : RelaxedPlanningGraph) : Type 0 where
  pub layers : r.fact_layers ≡ layer ∷ before
  pub graph : IsGraph p fuel layer before r.action_layers
  pub dated : Dated r.achievability_layer (layer ∷ before)
  pub bounded : (z : ℤ) (k : ℕ) → first_layer r.achievability_layer z ≡ some k → k ≤ length before

-- A layer of the graph that is the next one of itself, for actions that are listed.
pub record IsSettled (p : Problem) (fuel : ℕ) (last : Layer) (r : RelaxedPlanningGraph)
    (layer : Layer) (found : List (ℕ × Action)) : Type 0 where
  pub still : IsNext p fuel layer layer found
  pub listed : In found r.action_layers
  pub from : (z : ℤ) → In z (initial_filling p).facts → In z layer
  pub within : (z : ℤ) → In z layer → In z last

all_in→In :
    (last previous : Layer) → all_in last previous ≡ true → (z : ℤ) → In z last → In z previous
unfolding all_in
all_in→In [] previous h z m = absurd m
all_in→In (y ∷ last) previous h z (inl e) =
    subst (λ x. In x previous) (sym e) (has_fact→In previous y (and_left _ _ h))
all_in→In (y ∷ last) previous h z (inr m) =
    all_in→In last previous (and_right (has_fact previous y) _ h) z m

IsNext-back :
    (p : Problem) (fuel : ℕ) (previous next : Layer) (found : List (ℕ × Action))
    → ((z : ℤ) → In z next → In z previous)
    → IsNext p fuel previous next found
    → IsNext p fuel previous previous found
IsNext-back p fuel previous next found back n = record {
  keeps = λ z m. m;
  listed = n.listed;
  adds = λ x m e q. let (b, t, a) = n.adds x m e q in (b, t, λ w. back _ (a w));
}

-- What `build` returns.
pub record IsBuilt (p : Problem) (fuel : ℕ) (r : RelaxedPlanningGraph) : Type 0 where
  pub last : Layer
  pub before : List Layer
  pub layers : r.fact_layers ≡ last ∷ before
  pub found : List (List (ℕ × Action))
  pub graph : IsGraph p fuel last before found
  pub dated : Dated r.achievability_layer (last ∷ before)
  pub settled :
      (length r.fact_layers ≡ max_rpg_layers)
      ⊎ ((layer : Layer) × (actions : List (ℕ × Action)) × IsSettled p fuel last r layer actions)

-- At a fixpoint the layer before the last one is settled.
fixpoint-IsSettled :
    (p : Problem) (fuel : ℕ) (layer : Layer) (before : List Layer) (r : RelaxedPlanningGraph)
    → (found : List (List (ℕ × Action))) → r.action_layers ≡ found
    → IsGraph p fuel layer before found
    → is_fixpoint_reached (layer ∷ before) ≡ true
    → (previous : Layer) × (actions : List (ℕ × Action)) × IsSettled p fuel layer r previous actions
unfolding is_fixpoint_reached
fixpoint-IsSettled p fuel layer before r found e initial h = cc
fixpoint-IsSettled p fuel layer before r found e (layered {previous = x} {found = actions} g n) h =
    (
      x,
      actions,
      record {
        still = IsNext-back p fuel x layer actions (all_in→In layer x h) n;
        listed = subst (λ l. In actions l) (sym e) (inl refl);
        from = graph_initial p fuel g;
        within = n.keeps;
      },
    )

-- A layer that satisfies no action is settled.
empty-IsSettled :
    (p : Problem) (fuel : ℕ) (layer : Layer) (before : List Layer) (r : RelaxedPlanningGraph)
    → IsGraph p fuel layer before r.action_layers
    → compute_applicable_actions p fuel layer 0 p.actions ≡ some []
    → IsSettled p fuel layer (with_actions r []) layer []
empty-IsSettled p fuel layer before r g h = record {
  still = record {
    keeps = λ z m. m;
    listed = applicable-Listed p fuel layer [] h;
    adds = λ x m. absurd m;
  };
  listed = inl refl;
  from = graph_initial p fuel g;
  within = λ z m. m;
}

next-IsLoop :
    (p : Problem) (fuel : ℕ) (layer : Layer) (before : List Layer) (r : RelaxedPlanningGraph)
    → (actions : List (ℕ × Action)) (filled : Filling) → IsLoop p fuel layer before r
    → compute_applicable_actions p fuel layer 0 p.actions ≡ some actions
    → add_actions_to_layer p fuel layer
        (length r.fact_layers)
        actions
        (record { facts = layer; achievability_layer = r.achievability_layer })
      ≡ some filled
    → IsLoop p fuel filled.facts (layer ∷ before) (with_layer r actions filled)
next-IsLoop p fuel layer before r actions filled i found h =
    let count : length r.fact_layers ≡ suc (length before) = ap length i.layers in
    let start : IsFilling (length r.fact_layers)
        (record { facts = layer; achievability_layer = r.achievability_layer }) =
      record {
        known = λ z m. let (k, e, _) = i.dated.0 z m in (k, e);
        bounded = λ z k e. omega (arith, count, i.bounded z k e);
      } in
    let (j, g, all) =
      add_actions_lem p fuel layer (length r.fact_layers) actions _ filled start h in
    record {
      layers = ap (λ l. filled.facts ∷ l) i.layers;
      graph = layered i.graph (record {
        keeps = g.keeps;
        listed = applicable-Listed p fuel layer actions found;
        adds = all;
      });
      dated = (
        (λ z m. let (k, e) = j.known z m in (k, e, omega (arith, count, j.bounded z k e))),
        Dated-stays r.achievability_layer filled.achievability_layer (layer ∷ before) g.stays
            i.dated,
      );
      bounded = λ z k e. omega (arith, count, j.bounded z k e);
    }

abbrev after :
    Problem
    → ℕ
    → ℕ
    → RelaxedPlanningGraph
    → List (ℕ × Action)
    → Filling
    → Option RelaxedPlanningGraph
after p fuel left r actions filled =
    if has_none actions
    then some (with_actions r actions)
    else add_layers p fuel left (with_layer r actions filled)

abbrev turn : Problem → ℕ → ℕ → RelaxedPlanningGraph → Option RelaxedPlanningGraph
turn p fuel left r =
    compute_applicable_actions p fuel (current_layer r.fact_layers) 0 p.actions >>= λ actions.
    add_actions_to_layer p fuel (current_layer r.fact_layers) (length r.fact_layers) actions
      (record { facts = current_layer r.fact_layers; achievability_layer = r.achievability_layer })
    >>= λ filled. after p fuel left r actions filled

add_layers-turn :
    (p : Problem) (fuel left : ℕ) (r : RelaxedPlanningGraph)
    → add_layers p fuel (suc left) r
      ≡ (if is_fixpoint_reached r.fact_layers then some r else turn p fuel left r)
unfolding add_layers
add_layers-turn p fuel left r = refl

no_actions : (actions : List (ℕ × Action)) → has_none actions ≡ true → actions ≡ []
no_actions [] h = refl
no_actions (a ∷ actions) h = cc

loop_lem :
    (p : Problem) (fuel left : ℕ) (layer : Layer) (before : List Layer) (r s : RelaxedPlanningGraph)
    → IsLoop p fuel layer before r
    → suc (length before) + left ≡ max_rpg_layers
    → add_layers p fuel left r ≡ some s
    → IsBuilt p fuel s
unfolding add_layers
loop_lem p fuel zero layer before r s i count h = subst (IsBuilt p fuel) (eq_of_some h) (record {
  last = layer;
  before = before;
  layers = i.layers;
  found = r.action_layers;
  graph = i.graph;
  dated = i.dated;
  settled = inl (omega (arith, count, ap length i.layers));
})
loop_lem p fuel (suc left) layer before r s i count h =
    elim (branch (is_fixpoint_reached r.fact_layers) (some r) (turn p fuel left r)
      (sym (add_layers-turn p fuel left r) ∙ h)) [
        | inl (e, x) ↦ subst (IsBuilt p fuel) (eq_of_some x) (record {
          last = layer;
          before = before;
          layers = i.layers;
          found = r.action_layers;
          graph = i.graph;
          dated = i.dated;
          settled = inr (
              fixpoint-IsSettled p fuel layer before r r.action_layers refl i.graph
                (subst (λ l. is_fixpoint_reached l ≡ true) i.layers e));
        })
        | inr (e, x) ↦
            let (actions, found, h1) =
              >>=-eq-some
                (compute_applicable_actions p fuel (current_layer r.fact_layers) 0 p.actions) _ x in
            let (filled, f, h2) =
              >>=-eq-some
                (add_actions_to_layer p fuel (current_layer r.fact_layers) (length r.fact_layers)
                  actions _)
                _ h1 in
            let found' : compute_applicable_actions p fuel layer 0 p.actions ≡ some actions =
              subst
                (λ l.
                  compute_applicable_actions p fuel (current_layer l) 0 p.actions ≡ some actions)
                i.layers found in
            let f' : add_actions_to_layer p fuel layer (length r.fact_layers) actions
                  (record { facts = layer; achievability_layer = r.achievability_layer })
                ≡ some filled =
              subst
                (λ l.
                  add_actions_to_layer p fuel (current_layer l) (length r.fact_layers) actions
                    (record {
                      facts = current_layer l;
                      achievability_layer = r.achievability_layer;
                    })
                  ≡ some filled)
                i.layers f in
            elim (branch (has_none actions) (some (with_actions r actions))
              (add_layers p fuel left (with_layer r actions filled)) h2) [
                | inl (n, y) ↦
                    let empty = no_actions actions n in
                    subst (IsBuilt p fuel) (ap (with_actions r) (sym empty) ∙ eq_of_some y)
                      (record {
                        last = layer;
                        before = before;
                        layers = i.layers;
                        found = r.action_layers;
                        graph = i.graph;
                        dated = i.dated;
                        settled = inr (
                          layer,
                          [],
                          empty-IsSettled p fuel layer before r i.graph (found' ∙ ap some empty),
                        );
                      })
                | inr (n, y) ↦
                    loop_lem p fuel left filled.facts (layer ∷ before) (with_layer r actions filled)
                      s (next-IsLoop p fuel layer before r actions filled i found' f')
                      (omega (arith, count)) y
              ]
      ]

pub build-IsBuilt :
    (p : Problem) (fuel : ℕ) (r : RelaxedPlanningGraph) → build p fuel ≡ some r → IsBuilt p fuel r
unfolding build initial_filling
build-IsBuilt p fuel r h =
    let (i, _, _) = initialize_fact_layer_lem p p.initial_state _ nothing-IsFilling in
    loop_lem p fuel 99 (initial_filling p).facts [] _ r
      (record {
        layers = refl;
        graph = initial;
        dated = ((λ z m. let (k, e) = i.known z m in (k, e, i.bounded z k e)), tt);
        bounded = i.bounded;
      })
      refl h
