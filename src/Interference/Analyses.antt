-- ===== src/Interference/Analyses.antt =====
-- rantanplan/cpp/src/analysis/interference_analysis.cpp: the analysis of every action of a problem
-- (`analyze_all_actions`). The map from actions to analyses is the list of the analyses in the order of
-- the actions: an action is looked up under its id, which is its place in a problem. Two actions that
-- the map takes for equal have equal preconditions and effects, and so one analysis.
use ran_tan_plan.Prelude.{
  ℕ, zero, suc, ◌≡◌, refl, Bool, Option, some, List, [], ◌∷◌, ◌>>=◌, >>=-eq-some, get_elem?, length,
  inl, inr, In, ap, ◌∙◌, sym,
}
use ran_tan_plan.Expr.Pool.Laws.{Below, IsOrdered}
use ran_tan_plan.Problem.{Problem, Action, EffectExpression}
use ran_tan_plan.Interference.Total.{EffectBelow, analyze_action-Returns}
use ran_tan_plan.Interference.{ActionAnalysis, analyze_action, actions_interfere}

unfoldable pub analyze_all_actions : Problem → ℕ → List Action → Option (List ActionAnalysis)
analyze_all_actions p fuel [] = some []
analyze_all_actions p fuel (a ∷ rest) = do
  r ← analyze_action p fuel a
  rs ← analyze_all_actions p fuel rest
  some (r ∷ rs)

-- `actions_interfere` for the actions of two ids.
abbrev pub interferes : List ActionAnalysis → ℕ → ℕ → Bool
interferes analyses a b = actions_interfere (get_elem? analyses a) (get_elem? analyses b)

-- The ids of the actions are their places, as `with_actions` and `without_actions` leave them.
abbrev pub IsNumbered : List Action → Type 0
IsNumbered actions = (i : ℕ) (a : Action) → get_elem? actions i ≡ some a → a.id ≡ i

-- The handles of an action lie below the fuel.
abbrev pub ActionBelow : ℕ → Action → Type 0
ActionBelow fuel a =
    Below fuel a.precondition_id × ((e : EffectExpression) → In e a.effects → EffectBelow fuel e)

-- In an ordered pool all actions are analyzed.
pub analyze_all_actions-Returns :
    (p : Problem) (fuel : ℕ) (actions : List Action)
    → IsOrdered p.pool
    → ((a : Action) → In a actions → ActionBelow fuel a)
    → (rs : List ActionAnalysis) × (analyze_all_actions p fuel actions ≡ some rs)
unfolding analyze_all_actions
analyze_all_actions-Returns p fuel [] o low = ([], refl)
analyze_all_actions-Returns p fuel (a ∷ actions) o low =
    let (r, e) = analyze_action-Returns p o fuel a (low a (inl refl)).0 (low a (inl refl)).1 in
    let (rs, e') = analyze_all_actions-Returns p fuel actions o (λ x m. low x (inr m)) in
    (r ∷ rs, rw (e, e') refl)

-- There is an analysis for each action, and no other.
pub analyze_all_actions_lem :
    (p : Problem) (fuel : ℕ) (actions : List Action) (rs : List ActionAnalysis)
    → analyze_all_actions p fuel actions ≡ some rs
    → (length rs ≡ length actions)
      × ((i : ℕ) (a : Action)
          → get_elem? actions i ≡ some a
          → get_elem? rs i ≡ analyze_action p fuel a)
unfolding analyze_all_actions
analyze_all_actions_lem p fuel [] rs h = (ap length (nil h), λ i a m. cc)
  where
    nil : some [] ≡ some rs → rs ≡ []
    nil h = cc
analyze_all_actions_lem p fuel (x ∷ xs) rs h =
    let (r, e, h') = >>=-eq-some (analyze_action p fuel x) _ h in
    let (rest, e', h'') = >>=-eq-some (analyze_all_actions p fuel xs) _ h' in
    let same : rs ≡ r ∷ rest = cc in
    let (size, all) = analyze_all_actions_lem p fuel xs rest e' in
    (ap length same ∙ ap suc size, λ i a m. rw same (at r rest e all i a m))
  where
    at :
        (r : ActionAnalysis) (rest : List ActionAnalysis)
        → analyze_action p fuel x ≡ some r
        → ((i : ℕ) (a : Action)
            → get_elem? xs i ≡ some a
            → get_elem? rest i ≡ analyze_action p fuel a)
        → (i : ℕ) (a : Action) → get_elem? (x ∷ xs) i ≡ some a
        → get_elem? (r ∷ rest) i ≡ analyze_action p fuel a
    at r rest e all zero a m =
        let same : x ≡ a = cc in sym e ∙ ap (λ y. analyze_action p fuel y) same
    at r rest e all (suc i) a m = all i a m
