-- ===== src/Planner/Sequential.antt =====
-- rantanplan/cpp/src/planners/sequential.cpp: `SequentialPlanner::search`. The solver, the clock and
-- the encoder are parameters: `in_time n` is whether the deadline is ahead at the n-th turn of the
-- loop, `check n log h` the answer to the n-th call, which assumes the goal literal of horizon h and
-- sees what `log` put into the solver; `extract h` is the plan of the model, `none` when the
-- extraction throws. Statistics and messages are left out. The loop takes fuel, `none` when it is
-- used up.
pub mod Log
pub mod Search
pub mod Complete
mod Tests
use ran_tan_plan.Prelude.{
  ℕ, zero, suc, ◌+◌, ◌-◌, Bool, true, false, Option, none, some, List, [], ◌∷◌, ◌++◌, if◌then◌else◌,
  leb, count_up,
}
use ran_tan_plan.Planner.{
  ScheduleType, next, Event, initial_state, registered, goal, type_bounds, checked,
  add_timestep_constraints,
}

-- `unknown true` is an answer whose reason is a timeout or a cancellation.
pub data Answer : Type 0 where
  sat unsat : Answer
  unknown : Bool → Answer

-- The configuration of the planner, and what stands behind its interfaces.
pub record Setting (Plan : Type 0) : Type 0 where
  pub schedule : ScheduleType
  pub start_timestep : ℕ
  pub max_steps : ℕ
  pub manages_parallelism : Bool
  pub has_bounded_types : Bool
  pub in_time : ℕ → Bool
  pub check : ℕ → List Event → ℕ → Answer
  pub extract : ℕ → Option Plan
  pub no_plan : Plan

-- The result of `search` with the flags it leaves.
pub record Outcome (Plan : Type 0) : Type 0 where
  pub plan : Plan
  pub log : List Event
  pub solution_found : Bool
  pub timed_out : Bool

module _ {Plan : Type 0} (c : Setting Plan) where
  pub fill : List ℕ → List Event → List Event
  fill [] log = log
  fill (t ∷ ts) log = fill ts (log ++ add_timestep_constraints c.manages_parallelism true t)

  -- The transitions of the horizons that were skipped, the goal and the bounds of its state.
  pub formula : ℕ → ℕ → List Event → List Event
  formula filled h log =
      fill (count_up (h - filled) filled) log
      ++ goal h ∷ (if c.has_bounded_types then type_bounds h ∷ [] else [])

  pub stop : Bool → List Event → Outcome Plan
  stop late log = record { plan = c.no_plan; log = log; solution_found = false; timed_out = late }

  pub found : ℕ → List Event → Outcome Plan
  found h log = elim (c.extract h) [
    | some p ↦ record { plan = p; log = log; solution_found = true; timed_out = false }
    | none ↦ record { plan = c.no_plan; log = log; solution_found = true; timed_out = false }
  ]

  -- What follows the answer; `rest` is the outcome of the turns that follow.
  pub decide : Answer → ℕ → List Event → Option (Outcome Plan) → Option (Outcome Plan)
  decide sat h log rest = some (found h log)
  decide unsat h log rest = rest
  decide (unknown true) h log rest = some (stop true log)
  decide (unknown false) h log rest = rest

  pub loop : ℕ → ℕ → ℕ → ℕ → List Event → Option (Outcome Plan)
  loop zero turn filled h log = none
  loop (suc fuel) turn filled h log =
      let asked = formula filled h log in
      let after = asked ++ checked h ∷ [] in
      let more = loop fuel (suc turn) h (next c.schedule h c.max_steps) after in
      let rest = if leb (next c.schedule h c.max_steps) h then some (stop false after) else more in
      if leb h c.max_steps
      then if c.in_time turn
        then decide (c.check turn asked h) h after rest
        else some (stop true log)
      else some (stop false log)

  pub search : ℕ → Option (Outcome Plan)
  search fuel =
      loop fuel 0 c.start_timestep c.start_timestep
        (fill (count_up c.start_timestep 0) (initial_state ∷ registered 0 ∷ []))
