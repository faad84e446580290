-- ===== src/Propagator/Footprint.antt =====
-- rantanplan/cpp/src/planners/propagators/propagator_module.hpp: the index of the actions that touch a
-- fluent in common (`build_footprint_index`). The walks over preconditions take fuel. The two
-- unordered maps are a list of entries and a function; the lists in the second one are sorted at the
-- end, so the order of the entries does not matter.
pub mod Touched
pub mod Potential
mod Tests
use ran_tan_plan.Prelude.{
  ℕ, zero, suc, Bool, true, false, Option, none, some, List, [], ◌∷◌, ◌++◌, ltb, ◌==◌,
  if◌then◌else◌, ◌>>=◌,
}
use ran_tan_plan.Expr.Node.{ExprId, id_beq}
use ran_tan_plan.Problem.{Problem, Action, EffectExpression}
use ran_tan_plan.Problem.Fluents.{collect_from_id}
use ran_tan_plan.Propagator.{update}

abbrev pub FluentActions : Type 0
FluentActions = List (ExprId × List ℕ)

-- `fluent_to_actions[f].push_back(a)`
pub push_action : ℕ → ExprId → FluentActions → FluentActions
push_action a f [] = (f, a ∷ []) ∷ []
push_action a f ((g, aids) ∷ m) =
    let rest = push_action a f m in if id_beq g f then (g, aids ++ a ∷ []) ∷ m else (g, aids) ∷ rest

pub push_fluents : ℕ → List ExprId → FluentActions → FluentActions
push_fluents a [] m = m
push_fluents a (f ∷ fs) m = push_fluents a fs (push_action a f m)

pub effect_fluents : List EffectExpression → List ExprId
effect_fluents [] = []
effect_fluents (e ∷ es) = e.fluent_id ∷ effect_fluents es

-- The fluents of the precondition, by a collector of its own.
pub precondition_fluents : Problem → ℕ → Action → Option (List ExprId)
precondition_fluents p fuel action =
    let found = collect_from_id p.pool fuel action.precondition_id [] in
    if action.has_precondition then found else some []

pub index_actions : Problem → ℕ → List Action → FluentActions → Option FluentActions
index_actions p fuel [] m = some m
index_actions p fuel (action ∷ actions) m = do
  fs ← precondition_fluents p fuel action
  index_actions p fuel actions
      (push_fluents action.id fs (push_fluents action.id (effect_fluents action.effects) m))

-- Two actions of one fluent, unless they are the same one.
pub connect : ℕ → ℕ → (ℕ → List ℕ) → ℕ → List ℕ
connect a b potential =
    if a == b
    then potential
    else let forth = update potential a (potential a ++ b ∷ []) in
      update forth b (forth b ++ a ∷ [])

pub connect_with : ℕ → List ℕ → (ℕ → List ℕ) → ℕ → List ℕ
connect_with a [] potential = potential
connect_with a (b ∷ bs) potential = connect_with a bs (connect a b potential)

pub connect_pairs : List ℕ → (ℕ → List ℕ) → ℕ → List ℕ
connect_pairs [] potential = potential
connect_pairs (a ∷ rest) potential = connect_pairs rest (connect_with a rest potential)

pub connect_fluents : FluentActions → (ℕ → List ℕ) → ℕ → List ℕ
connect_fluents [] potential = potential
connect_fluents ((f, aids) ∷ m) potential = connect_fluents m (connect_pairs aids potential)

-- `std::sort`, then `std::unique` and `erase`: the elements in ascending order, each once.
pub insert_sorted : ℕ → List ℕ → List ℕ
insert_sorted a [] = a ∷ []
insert_sorted a (x ∷ xs) =
    let rest = insert_sorted a xs in
    if ltb a x then a ∷ x ∷ xs else if a == x then x ∷ xs else x ∷ rest

pub sort_unique : List ℕ → List ℕ
sort_unique [] = []
sort_unique (a ∷ rest) = insert_sorted a (sort_unique rest)

pub build_footprint_index : Problem → ℕ → Option (ℕ → List ℕ)
build_footprint_index p fuel = do
  m ← index_actions p fuel p.actions []
  some (λ a. sort_unique (connect_fluents m (λ b. []) a))
