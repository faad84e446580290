-- ===== src/Propagator/Mutex.antt =====
-- rantanplan/cpp/src/planners/propagators/modules/forall_mutex_module.cpp: at most one of two actions
-- that interfere may be active at a timestep. The eager module looks the interfering actions up in a
-- table and forbids them; the lazy one raises a conflict when two of them are active. The variable of an
-- action and a timestep is that pair, and a set of numbers is a list.
pub mod Agree
use ran_tan_plan.Prelude.{
  ℕ, zero, suc, ◌+◌, ◌<◌, ◌≡◌, refl, sym, ap, ◌∙◌, subst, ◌≢◌, ◌↔◌, ◌⊎◌, inl, inr, Bool, true,
  false, ◌||◌, Option, none, some, List, [], ◌∷◌, arith, contains, ltb, ◌==◌, ==_iff, if◌then◌else◌,
  In, ⊎_elim, Bool-cases, true-ne-false, contains→In, In→contains,
}
use ran_tan_plan.Graph.{Graph, num_nodes, get_neighbours, has_edge}
use ran_tan_plan.Propagator.{insert, update}
use ran_tan_plan.Propagator.Trail.{In-insert, In-update}

-- One edge of the interference graph, noted in both directions.
pub note : ℕ → ℕ → (ℕ → List ℕ) → ℕ → List ℕ
note a b table =
    let forth = update table a (insert b (table a)) in update forth b (insert a (forth b))

pub note_neighbours : ℕ → List ℕ → (ℕ → List ℕ) → ℕ → List ℕ
note_neighbours a [] table = table
note_neighbours a (b ∷ bs) table = note_neighbours a bs (note a b table)

-- `build_reverse_interference_lookup`, for the ids of the actions.
pub build_lookup : Graph → List ℕ → (ℕ → List ℕ) → ℕ → List ℕ
build_lookup g [] table = table
build_lookup g (a ∷ rest) table = build_lookup g rest (note_neighbours a (get_neighbours g a) table)

-- What the eager module tells the solver when a variable is set: the actions that are set to false at
-- the timestep, if any, with the counter.
forbid : List ℕ → ℕ → Option (List ℕ) × ℕ
forbid [] count = (none, count)
forbid (b ∷ bs) count = (some (b ∷ bs), count + 1)

pub forall_on_fixed : (ℕ → List ℕ) → Option (ℕ × ℕ) → Bool → ℕ → Option (List ℕ) × ℕ
forall_on_fixed table none value count = (none, count)
forall_on_fixed table (some (a, t)) value count =
    if value then forbid (table a) count else (none, count)

-- The active actions that interfere with the one that is set, in either direction.
pub conflicting : (ℕ → ℕ → Bool) → ℕ → List ℕ → List ℕ
conflicting has_interference a [] = []
conflicting has_interference a (b ∷ bs) =
    let rest = conflicting has_interference a bs in
    if b == a then rest else if has_interference a b || has_interference b a then b ∷ rest else rest

-- The lazy module: the actions of the conflict, the one that is set first.
accuse : ℕ → List ℕ → ℕ → Option (List ℕ) × ℕ
accuse a [] count = (none, count)
accuse a (b ∷ bs) count = (some (a ∷ b ∷ bs), count + 1)

pub lazy_on_fixed : (ℕ → ℕ → Bool) → (ℕ → List ℕ) → Option (ℕ × ℕ) → Bool → ℕ → Option (List ℕ) × ℕ
lazy_on_fixed has_interference active none value count = (none, count)
lazy_on_fixed has_interference active (some (a, t)) value count =
    if value then accuse a (conflicting has_interference a (active t)) count else (none, count)
