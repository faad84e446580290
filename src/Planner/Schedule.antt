-- ===== src/Planner/Schedule.antt =====
-- The horizons that `HorizonSchedule::next` hands out.
use ran_tan_plan.Prelude.{ℕ, ◌<◌, ◌≤◌, ◌≡◌, arith}
use ran_tan_plan.Planner.{ScheduleType, planned, next}

pub lt-planned : (t : ScheduleType) (current : ℕ) → current < planned t current
unfolding planned
lt-planned ScheduleType.linear current = omega arith
lt-planned ScheduleType.arithmetic current = omega arith
lt-planned ScheduleType.geometric current = omega arith
lt-planned ScheduleType.doubling current = omega arith

-- Below the maximum every schedule moves on, by at least one horizon and never past the maximum; at
-- the maximum or above it stays there.
pub next_bounds :
    (t : ScheduleType) (current most : ℕ)
    → (current < most → (current < next t current most) × (next t current most ≤ most))
      × (most ≤ current → next t current most ≡ most)
unfolding next
next_bounds t current most = (
  (λ h. (omega (arith, lt-planned t current), omega arith)),
  (λ h. omega (arith, lt-planned t current)),
)
