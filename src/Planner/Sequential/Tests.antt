-- ===== src/Planner/Sequential/Tests.antt =====
-- A search for a plan of three steps.
use ran_tan_plan.Prelude.{ℕ, ◌<◌, ◌≤◌, ◌≡◌, true, false, some, [], ◌∷◌, leb, if◌then◌else◌}
use ran_tan_plan.Planner.{ScheduleType, next, Event, initial_state, registered, goal, checked}
use ran_tan_plan.Planner.Schedule.{next_bounds}
use ran_tan_plan.Planner.Sequential.{sat, unsat, Setting, Outcome}

-- The plan is the horizon at which it was found.
abbrev three_steps : ScheduleType → Setting ℕ
three_steps type = record {
  schedule = type;
  start_timestep = 0;
  max_steps = 10;
  manages_parallelism = false;
  has_bounded_types = false;
  in_time = λ turn. true;
  check = λ turn log h. if leb 3 h then sat else unsat;
  extract = λ h. some h;
  no_plan = 0;
}

abbrev Solvable : ℕ → Type 0
Solvable h = 3 ≤ h

next_bounds_example :
    (3 < 10 → (3 < next ScheduleType.geometric 3 10) × (next ScheduleType.geometric 3 10 ≤ 10))
    × (10 ≤ 3 → next ScheduleType.geometric 3 10 ≡ 10)
next_bounds_example = next_bounds ScheduleType.geometric 3 10

abbrev short : Setting ℕ
short = record (three_steps ScheduleType.doubling) {
  max_steps = 1;
  check = λ turn log h. if leb 1 h then sat else unsat;
}

abbrev short_outcome : Outcome ℕ
short_outcome = record {
  plan = 1;
  log =
      initial_state
      ∷ registered 0
      ∷ goal 0
      ∷ checked 0
      ∷ Event.actions 0
      ∷ Event.frames 0
      ∷ Event.prefix_monotone 0
      ∷ Event.symmetries 0
      ∷ Event.state_constraints 0
      ∷ Event.parallelism 0
      ∷ registered 1
      ∷ goal 1
      ∷ checked 1
      ∷ [];
  solution_found = true;
  timed_out = false;
}
