-- ===== src/H2/Build/Mutex.antt =====
-- The queries `is_mutex` and `all_pairs_mutex`: what they report never holds together in a reachable
-- state.
use ran_tan_plan.Prelude.{◌≡◌, ◌≢◌, true, false, List, In}
use ran_tan_plan.Expr.Node.{ExprId}
use ran_tan_plan.Problem.{Problem}
use ran_tan_plan.H2.Build.World.{Valuation}

-- At most one fluent of a group is true.
abbrev pub AtMostOne : Valuation → List ExprId → Type 0
AtMostOne v group = (f g : ExprId) → In f group → In g group → f ≢ g → v f ≡ true → v g ≡ false
