-- ===== src/Planner/Sequential/Log.antt =====
-- The order of the constraints: when the solver is asked about a horizon, the transitions of all the
-- steps below it have been added, each once and in order.
use ran_tan_plan.Prelude.{
  ℕ, zero, suc, ◌≡◌, refl, ap, ◌∙◌, ◌⊎◌, inl, inr, Bool, true, false, List, [], ◌∷◌, ◌++◌,
  true-ne-false,
}
use ran_tan_plan.Planner.{
  Event, initial_state, actions, frames, prefix_monotone, symmetries, state_constraints,
  parallelism, registered, goal, type_bounds, checked, add_timestep_constraints,
}

-- The events that stay in the solver and hold at every horizon.
abbrev pub constraints : List Event → List Event
constraints [] = []
constraints (goal h ∷ log) = constraints log
constraints (type_bounds h ∷ log) = constraints log
constraints (checked h ∷ log) = constraints log
constraints (e ∷ log) = e ∷ constraints log

pub constraints-append :
    (xs ys : List Event) → constraints (xs ++ ys) ≡ constraints xs ++ constraints ys
constraints-append [] ys = refl
constraints-append (goal h ∷ xs) ys = constraints-append xs ys
constraints-append (type_bounds h ∷ xs) ys = constraints-append xs ys
constraints-append (checked h ∷ xs) ys = constraints-append xs ys
constraints-append (initial_state ∷ xs) ys = rw (constraints-append xs ys)
constraints-append (actions t ∷ xs) ys = rw (constraints-append xs ys)
constraints-append (frames t ∷ xs) ys = rw (constraints-append xs ys)
constraints-append (prefix_monotone t ∷ xs) ys = rw (constraints-append xs ys)
constraints-append (symmetries t ∷ xs) ys = rw (constraints-append xs ys)
constraints-append (state_constraints t ∷ xs) ys = rw (constraints-append xs ys)
constraints-append (parallelism t ∷ xs) ys = rw (constraints-append xs ys)
constraints-append (registered t ∷ xs) ys = rw (constraints-append xs ys)

-- The whole chain of transitions up to a horizon.
unfoldable pub chain : Bool → ℕ → List Event
chain manages zero = initial_state ∷ registered 0 ∷ []
chain manages (suc h) = chain manages h ++ add_timestep_constraints manages true h

-- Wherever the log asks about a horizon, exactly the chain up to it stands in front.
abbrev pub InOrder : Bool → List Event → Type 0
InOrder manages log =
    (before after : List Event) (h : ℕ)
    → log ≡ before ++ checked h ∷ after
    → constraints before ≡ chain manages h

pub constraints_step :
    (m : Bool) (t : ℕ)
    → constraints (add_timestep_constraints m true t) ≡ add_timestep_constraints m true t
unfolding add_timestep_constraints
constraints_step true t = refl
constraints_step false t = refl

-- A log that asks nothing.
abbrev pub quiet : List Event → Bool
quiet [] = true
quiet (checked h ∷ log) = false
quiet (e ∷ log) = quiet log

pub step-quiet : (m : Bool) (t : ℕ) → quiet (add_timestep_constraints m true t) ≡ true
unfolding add_timestep_constraints
step-quiet true t = refl
step-quiet false t = refl

quiet-no_question :
    (ys before after : List Event) (h : ℕ) → quiet ys ≡ true → ys ≡ before ++ checked h ∷ after → ⊥
quiet-no_question ys [] after h q e = true-ne-false q (ap quiet e)
quiet-no_question [] (b ∷ before) after h q e = cc
quiet-no_question (y ∷ ys) (b ∷ before) after h q e =
    quiet-no_question ys before after h (quiet_tail y ys q) (cc)
  where
    quiet_tail : (y : Event) (ys : List Event) → quiet (y ∷ ys) ≡ true → quiet ys ≡ true
    quiet_tail (checked k) ys q = cc
    quiet_tail initial_state ys q = q
    quiet_tail (actions t) ys q = q
    quiet_tail (frames t) ys q = q
    quiet_tail (prefix_monotone t) ys q = q
    quiet_tail (symmetries t) ys q = q
    quiet_tail (state_constraints t) ys q = q
    quiet_tail (parallelism t) ys q = q
    quiet_tail (registered t) ys q = q
    quiet_tail (goal t) ys q = q
    quiet_tail (type_bounds t) ys q = q

-- A question of a longer log is one of the old log or lies in what was added.
split_question :
    (log ys before after : List Event) (h : ℕ)
    → log ++ ys ≡ before ++ checked h ∷ after
    → ((rest : List Event) × (log ≡ before ++ checked h ∷ rest))
      ⊎ ((more : List Event) × (before ≡ log ++ more) × (ys ≡ more ++ checked h ∷ after))
split_question [] ys before after h e = inr (before, refl, e)
split_question (x ∷ log) ys [] after h e = inl (log, cc)
split_question (x ∷ log) ys (b ∷ before) after h e =
    elim (split_question log ys before after h (cc)) [
      | inl (rest, k) ↦ inl (rest, cc)
      | inr (more, k, l) ↦ inr (more, cc, l)
    ]

pub quiet-InOrder :
    (m : Bool) (log ys : List Event) → InOrder m log → quiet ys ≡ true → InOrder m (log ++ ys)
quiet-InOrder m log ys o q before after h e = elim (split_question log ys before after h e) [
  | inl (rest, k) ↦ o before rest h k
  | inr (more, k, l) ↦ absurd (quiet-no_question ys more after h q l)
]

pub question-InOrder :
    (m : Bool) (log : List Event) (h : ℕ)
    → InOrder m log
    → constraints log ≡ chain m h
    → InOrder m (log ++ checked h ∷ [])
question-InOrder m log h o c before after k e =
    elim (split_question log (checked h ∷ []) before after k e) [
      | inl (rest, j) ↦ o before rest k j
      | inr ([], j, l) ↦ ap constraints (j ∙ append_nil log) ∙ c ∙ ap (chain m) (number l)
      | inr (x ∷ more, j, l) ↦ absurd (too_short x more l)
    ]
  where
    append_nil : (xs : List Event) → xs ++ [] ≡ xs
    append_nil [] = refl
    append_nil (x ∷ xs) = ap (λ l. x ∷ l) (append_nil xs)

    number : checked h ∷ [] ≡ checked k ∷ after → h ≡ k
    number l = cc

    too_short :
        (x : Event) (more : List Event) → checked h ∷ [] ≡ x ∷ (more ++ checked k ∷ after) → ⊥
    too_short x [] l = cc
    too_short x (y ∷ more) l = cc
