-- ===== src/Propagator/Cycle.antt =====
-- rantanplan/cpp/src/planners/propagators/modules/exists_cycle_module.cpp: the search for a cycle of
-- actions that are active at one timestep. A path is listed from its first node on; the captured
-- variables of the recursive lambda are passed on. The recursion takes fuel, `none` when it is used up;
-- an action without potential interferers has the empty list of them.
pub mod Walks
pub mod Dfs
pub mod Correct
mod Tests
use ran_tan_plan.Prelude.{
  ℕ, zero, suc, ◌+◌, Bool, true, false, ◌&&◌, Option, none, some, List, [], ◌∷◌, ◌++◌, length,
  contains, ltb, ◌==◌, if◌then◌else◌, ◌>>=◌,
}
use ran_tan_plan.Propagator.{insert, erase}

pub record Search : Type 0 where
  pub visited : List ℕ
  pub recursion_stack : List ℕ
  pub path : List ℕ

-- What a call returns: a cycle or none, and the sets it leaves.
abbrev pub Verdict : Type 0
Verdict = Option (List ℕ) × Search

-- `cycle.assign(std::find(path.begin(), path.end(), node), path.end())`
pub drop_until : ℕ → List ℕ → List ℕ
drop_until node [] = []
drop_until node (x ∷ path) = let rest = drop_until node path in if x == node then x ∷ path else rest

-- `path.pop_back()`
pub drop_last : List ℕ → List ℕ
drop_last [] = []
drop_last (x ∷ []) = []
drop_last (x ∷ y ∷ path) = x ∷ drop_last (y ∷ path)

pub enter : ℕ → Search → Search
enter current s = record {
  visited = insert current s.visited;
  recursion_stack = insert current s.recursion_stack;
  path = s.path ++ current ∷ [];
}

pub leave : ℕ → Search → Search
leave current s = record s {
  recursion_stack = erase current s.recursion_stack;
  path = drop_last s.path;
}

-- A cycle ends the search; otherwise it goes on with the sets that are left.
abbrev pub and_then : (Search → Option Verdict) → Verdict → Option Verdict
and_then go_on (some cycle, s) = some (some cycle, s)
and_then go_on (none, s) = go_on s

module _ (active : List ℕ) (potential_interferers : ℕ → List ℕ)
    (has_interference : ℕ → ℕ → Bool) where
  -- The loop over the potential interferers of `current`; `call` is the recursive call.
  pub scan : (ℕ → Search → Option Verdict) → ℕ → List ℕ → Search → Option Verdict
  scan call current [] s = some (none, leave current s)
  scan call current (other ∷ others) s =
      let rest = scan call current others s in
      let deeper = call other s >>= and_then (scan call current others) in
      if contains active other && has_interference current other
      then if contains s.recursion_stack other
        then some (some (drop_until other s.path), s)
        else if contains s.visited other
        then rest
        else deeper
      else rest

  pub dfs : ℕ → ℕ → Search → Option Verdict
  dfs zero current s = none
  dfs (suc fuel) current s =
      scan (dfs fuel) current (potential_interferers current) (enter current s)

  pub roots : (ℕ → Search → Option Verdict) → List ℕ → Search → Option Verdict
  roots call [] s = some (none, s)
  roots call (u ∷ us) s =
      let rest = roots call us s in
      let deeper = call u s >>= and_then (roots call us) in
      if contains s.visited u then rest else deeper

  pub find_cycle_in_active_actions : Option (Option (List ℕ))
  find_cycle_in_active_actions =
      let found =
        roots (dfs (length active)) active
          (record { visited = []; recursion_stack = []; path = [] }) in
      if ltb (length active) 2 then some none else found >>= λ r. some r.0

-- `perform_exists_propagation`: the actions of the conflict, if there is one, and the counter.
unfoldable pub perform_exists_propagation :
    List ℕ → (ℕ → List ℕ) → (ℕ → ℕ → Bool) → ℕ → Option (Option (List ℕ) × ℕ)
perform_exists_propagation active potential has_interference cycle_count = do
  found ← find_cycle_in_active_actions active potential has_interference
  elim found [ none ↦ some (none, cycle_count) | some cycle ↦ some (some cycle, cycle_count + 1) ]
