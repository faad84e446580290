-- ===== src/Relaxed/Bound.antt =====
-- The lower bound on the number of steps.
use ran_tan_plan.Prelude.{ℕ, ◌≤◌, ◌≡◌, some, In, ℤ}
use ran_tan_plan.Problem.{Problem}
use ran_tan_plan.Relaxed.Condition.{Layer}
use ran_tan_plan.Relaxed.Layers.{Achieved, first_layer}

-- Every fact of a layer has a first layer of at most k.
abbrev Within : Achieved → ℕ → Layer → Type 0
Within m k layer = (z : ℤ) → In z layer → (j : ℕ) × (first_layer m z ≡ some j) × (j ≤ k)
