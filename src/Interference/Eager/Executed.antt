-- ===== src/Interference/Eager/Executed.antt =====
-- `topological_sort_actions` on the interference graph.
use ran_tan_plan.Prelude.{ℕ, ◌<◌, ◌≡◌, refl, inl, inr, List, [], ◌∷◌, In, lt→ltb}
use ran_tan_plan.Graph.{Graph}
use ran_tan_plan.Problem.{Problem}
use ran_tan_plan.Interference.Independent.{Independent}
use ran_tan_plan.Interference.Eager.{known_actions}

pub known_actions_id :
    (count : ℕ) (l : List ℕ) → ((u : ℕ) → In u l → u < count) → known_actions count l ≡ l
unfolding known_actions
known_actions_id count [] low = refl
known_actions_id count (u ∷ l) low =
    rw (lt→ltb u count (low u (inl refl)), known_actions_id count l (λ x m. low x (inr m))) refl
