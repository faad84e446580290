-- ===== src/Planner.antt =====
-- rantanplan/cpp/src/planners/base_planner.hpp and base_planner.cpp: the schedule of the horizons and
-- the constraints of one timestep. Horizons are below 2 ^ 30, so `current * 2` does not overflow and
-- `current * 1.5` is exact.
pub mod Schedule
pub mod Sequential
use ran_tan_plan.Prelude.{
  ℕ, zero, suc, ◌+◌, ◌*◌, ◌/◌, Bool, true, false, not, Option, none, some, List, [], ◌∷◌, ◌++◌,
  Text, if◌then◌else◌, min, max,
}
use ran_tan_plan.Expr.Pool.{text_beq}

pub data ScheduleType : Type 0 where
  linear arithmetic geometric doubling : ScheduleType

-- `static_cast<int>(current * 1.5)` rounds down.
pub planned : ScheduleType → ℕ → ℕ
planned ScheduleType.linear current = current + 1
planned ScheduleType.arithmetic current = current + 5
planned ScheduleType.geometric current = max (current + 1) (current * 3 / 2)
planned ScheduleType.doubling current = max (current + 1) (current * 2)

pub next : ScheduleType → ℕ → ℕ → ℕ
next type current most = min (planned type current) most

-- What the planner tells the solver and the propagator.
pub data Event : Type 0 where
  initial_state : Event
  actions frames prefix_monotone symmetries state_constraints parallelism : ℕ → Event
  registered : ℕ → Event
  goal type_bounds : ℕ → Event
  checked : ℕ → Event

-- `add_timestep_constraints`, with the prefix-monotone constraints or without.
pub add_timestep_constraints : Bool → Bool → ℕ → List Event
add_timestep_constraints manages_parallelism prefix t =
    actions t ∷ frames t ∷ (if prefix then prefix_monotone t ∷ [] else [])
    ++ symmetries t
      ∷ state_constraints t
      ∷ (if not manages_parallelism then parallelism t ∷ [] else [])
    ++ registered (t + 1) ∷ []
