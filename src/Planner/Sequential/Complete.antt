-- ===== src/Planner/Sequential/Complete.antt =====
-- What the search finds: with a solver that decides what it is asked in time, a horizon at which a
-- plan exists, or the knowledge that there is none up to the last horizon.
use ran_tan_plan.Prelude.{ℕ, ◌<◌, ◌≤◌, ◌≡◌, ◌≢◌, ◌⊎◌, Bool, true, false, List}
use ran_tan_plan.Planner.{next, Event}
use ran_tan_plan.Planner.Sequential.{sat, unsat, unknown, Setting, Outcome, stop, found}
use ran_tan_plan.Planner.Sequential.Log.{constraints, chain}

-- The solver decides in time whether a plan of at most `h` steps exists, given the chain up to `h`;
-- the encoding is prefix monotone.
pub record Decides {Plan : Type 0} (c : Setting Plan) (Solvable : ℕ → Type 0) : Type 0 where
  pub timely : (turn : ℕ) → c.in_time turn ≡ true
  pub known :
      (turn : ℕ) (log : List Event) (h : ℕ) (late : Bool) → c.check turn log h ≢ unknown late
  pub sound : (turn : ℕ) (log : List Event) (h : ℕ) → c.check turn log h ≡ sat → Solvable h
  pub complete :
      (turn : ℕ) (log : List Event) (h : ℕ)
      → c.check turn log h ≡ unsat
      → constraints log ≡ chain c.manages_parallelism h
      → ¬ Solvable h
  pub monotone : (h k : ℕ) → h ≤ k → Solvable h → Solvable k

-- The horizon that was found is the first one asked about, or the horizon asked about just before it
-- has no plan.
abbrev pub First : {Plan : Type 0} → Setting Plan → (ℕ → Type 0) → ℕ → ℕ → Type 0
First c Solvable start h =
    (h ≡ start) ⊎ ((k : ℕ) × (next c.schedule k c.max_steps ≡ h) × (k < h) × (¬ Solvable k))

pub data Verdict {Plan : Type 0} (c : Setting Plan) (Solvable : ℕ → Type 0) (r : Outcome Plan)
    : Type 0 where
  solved :
      (h : ℕ) (log : List Event)
      → h ≤ c.max_steps
      → Solvable h
      → First c Solvable c.start_timestep h
      → r ≡ found c h log
      → Verdict c Solvable r
  exhausted :
      (log : List Event)
      → ((h : ℕ) → h ≤ c.max_steps → ¬ Solvable h)
      → r ≡ stop c false log
      → Verdict c Solvable r
