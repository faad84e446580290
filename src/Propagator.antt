-- ===== src/Propagator.antt =====
-- rantanplan/cpp/src/planners/propagators/propagator_strategy.cpp and propagator_module.hpp: the
-- trail of the actions that the solver has set to true, which all modules share. The solver calls
-- `fixed`, `push` and `pop`; what the variable factory says of a variable is an argument of `fixed`.
-- The back of a vector is the head of a list, and a set of numbers is a list.
pub mod Trail
pub mod Restore
pub mod Cycle
pub mod Footprint
pub mod Exists
pub mod Mutex
mod Tests
use ran_tan_plan.Prelude.{
  ℕ, zero, suc, Bool, true, false, Option, none, some, List, [], ◌∷◌, length, contains, ltb, ◌==◌,
  if◌then◌else◌,
}

-- `std::unordered_set::insert` and `erase`
pub insert : ℕ → List ℕ → List ℕ
insert a s = if contains s a then s else a ∷ s

pub erase : ℕ → List ℕ → List ℕ
erase a [] = []
erase a (x ∷ s) = let rest = erase a s in if x == a then rest else x ∷ rest

-- An entry of the trail is an action id and a timestep.
pub record SharedState : Type 0 where
  pub action_trail : List (ℕ × ℕ)
  pub action_decision_levels : List ℕ
  pub active_actions_per_timestep : ℕ → List ℕ

abbrev pub update : (ℕ → List ℕ) → ℕ → List ℕ → ℕ → List ℕ
update f t v u = if u == t then v else f u

pub record_action : ℕ → ℕ → SharedState → SharedState
record_action a t s = record s {
  action_trail = (a, t) ∷ s.action_trail;
  active_actions_per_timestep =
      update s.active_actions_per_timestep t (insert a (s.active_actions_per_timestep t));
}

-- `update_action_trail`; the first argument is the action and timestep of the variable, if any.
pub update_action_trail : Option (ℕ × ℕ) → Bool → SharedState → SharedState
update_action_trail none value s = s
update_action_trail (some (a, t)) value s = if value then record_action a t s else s

pub push : SharedState → SharedState
push s = record s { action_decision_levels = length s.action_trail ∷ s.action_decision_levels }

-- The inner loop of `pop`: entries go until `start` are left.
pub unwind : ℕ → List (ℕ × ℕ) → (ℕ → List ℕ) → List (ℕ × ℕ) × (ℕ → List ℕ)
unwind start [] active = ([], active)
unwind start ((a, t) ∷ trail) active =
    let rest = unwind start trail (update active t (erase a (active t))) in
    if ltb start (suc (length trail)) then rest else ((a, t) ∷ trail, active)

pop_level : List ℕ → SharedState → SharedState
pop_level [] s = s
pop_level (start ∷ levels) s =
    let (trail, active) = unwind start s.action_trail s.active_actions_per_timestep in
    record {
      action_trail = trail;
      action_decision_levels = levels;
      active_actions_per_timestep = active;
    }

pub pop : ℕ → SharedState → SharedState
pop zero s = s
pop (suc n) s = pop n (pop_level s.action_decision_levels s)
