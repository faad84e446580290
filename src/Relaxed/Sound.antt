-- ===== src/Relaxed/Sound.antt =====
-- What the answers of the relaxed planning graph say of the problem.
use ran_tan_plan.Problem.{Problem}
