-- ===== src/Expr/Node/Tests.antt =====
-- How small doubles print.
use ran_tan_plan.Prelude.{◌≡◌, refl, false}
use ran_tan_plan.Expr.Node.{fin, double_text, micros, minus_if, pad6}

-- The smallest positive double prints as zero does.
pub double_text_tiny : double_text (fin false 0) ≡ double_text (fin false 1)
unfolding double_text micros minus_if pad6
double_text_tiny = refl
