-- ===== src/Propagator/Cycle/Tests.antt =====
-- Three actions that interfere in a ring.
use ran_tan_plan.Prelude.{ℕ, ◌≡◌, refl, Bool, ◌&&◌, ◌||◌, none, some, List, [], ◌∷◌, ◌==◌}
use ran_tan_plan.Propagator.{insert, erase}
use ran_tan_plan.Propagator.Cycle.{
  drop_until, drop_last, enter, leave, scan, dfs, roots, find_cycle_in_active_actions,
}

abbrev ring : ℕ → ℕ → Bool
ring a b = (a == 0 && b == 1) || ((a == 1 && b == 2) || (a == 2 && b == 0))

abbrev all : ℕ → List ℕ
all a = 0 ∷ 1 ∷ 2 ∷ []

ring_found : find_cycle_in_active_actions (0 ∷ 1 ∷ 2 ∷ []) all ring ≡ some (some (0 ∷ 1 ∷ 2 ∷ []))
unfolding find_cycle_in_active_actions roots dfs scan enter leave drop_until drop_last insert erase
ring_found = refl

-- Without the action 2 there is no cycle.
ring_broken : find_cycle_in_active_actions (0 ∷ 1 ∷ []) all ring ≡ some none
unfolding find_cycle_in_active_actions roots dfs scan enter leave drop_until drop_last insert erase
ring_broken = refl
