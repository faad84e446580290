-- ===== src/Propagator/Restore.antt =====
-- The calls of the solver as steps: every reachable trail is consistent, and `pop` restores the state
-- of the matching `push`.
use ran_tan_plan.Prelude.{
  ℕ, zero, suc, ◌+◌, ◌≤◌, ◌≡◌, refl, sym, ap, ◌∙◌, subst, ◌↔◌, true, false, Bool, Option, none,
  some, List, [], ◌∷◌, ◌++◌, arith, length, length-append, In, min,
}
use ran_tan_plan.Propagator.{
  SharedState, update_action_trail, record_action, push, unwind, pop_level, pop,
}
use ran_tan_plan.Propagator.Trail.{Descending, IsConsistent, insert-Agrees, unwind_lem}

-- The calls; an action that is set to true was not set to true already.
pub data Step : SharedState → SharedState → Type 0 where
  fixed_true :
      (s : SharedState) (a t : ℕ)
      → ¬ In (a, t) s.action_trail
      → Step s (update_action_trail (some (a, t)) true s)
  fixed_false : (s : SharedState) (v : Option (ℕ × ℕ)) → Step s (update_action_trail v false s)
  fixed_other : (s : SharedState) (b : Bool) → Step s (update_action_trail none b s)
  pushed : (s : SharedState) → Step s (push s)
  popped : (s : SharedState) (n : ℕ) → Step s (pop n s)

abbrev pub initial : SharedState
initial = record {
  action_trail = [];
  action_decision_levels = [];
  active_actions_per_timestep = λ t. [];
}

pub data Reachable : SharedState → Type 0 where
  start : Reachable initial
  next : {s u : SharedState} → Reachable s → Step s u → Reachable u

Descending-weaken : (m n : ℕ) (ls : List ℕ) → m ≤ n → Descending m ls → Descending n ls
Descending-weaken m n [] h d = tt
Descending-weaken m n (l ∷ ls) h d = (omega arith, d.1)

record_action-IsConsistent :
    (s : SharedState) (a t : ℕ)
    → IsConsistent s
    → ¬ In (a, t) s.action_trail
    → IsConsistent (record_action a t s)
unfolding record_action
record_action-IsConsistent s a t v new = record {
  active = insert-Agrees s.active_actions_per_timestep s.action_trail a t v.active;
  distinct = (new, v.distinct);
  levels = Descending-weaken _ _ s.action_decision_levels (omega arith) v.levels;
}

pop_level-IsConsistent :
    (s : SharedState) → IsConsistent s → IsConsistent (pop_level s.action_decision_levels s)
unfolding pop_level
pop_level-IsConsistent s v = leave s.action_decision_levels v.levels
  where
    leave : (ls : List ℕ) → Descending (length s.action_trail) ls → IsConsistent (pop_level ls s)
    leave [] d = v
    leave (l ∷ ls) d =
        let (front, e, g, distinct, size) =
          unwind_lem l s.action_trail s.active_actions_per_timestep v.active v.distinct in
        record {
          active = g;
          distinct = distinct;
          levels = Descending-weaken l _ ls (omega arith) d.1;
        }

pop-IsConsistent : (n : ℕ) (s : SharedState) → IsConsistent s → IsConsistent (pop n s)
unfolding pop
pop-IsConsistent zero s v = v
pop-IsConsistent (suc n) s v = pop-IsConsistent n _ (pop_level-IsConsistent s v)

pub Step-IsConsistent : {s u : SharedState} → Step s u → IsConsistent s → IsConsistent u
unfolding update_action_trail push
Step-IsConsistent (fixed_true s a t new) v = record_action-IsConsistent s a t v new
Step-IsConsistent (fixed_false s none) v = v
Step-IsConsistent (fixed_false s (some p)) v = v
Step-IsConsistent (fixed_other s b) v = v
Step-IsConsistent (pushed s) v = record {
  active = v.active;
  distinct = v.distinct;
  levels = (omega arith, v.levels);
}
Step-IsConsistent (popped s n) v = pop-IsConsistent n s v

-- In every state that the calls of the solver reach, an action is active at a timestep exactly when the
-- trail has it there, the trail has nothing twice, and no decision level lies above the trail.
pub Reachable-IsConsistent : (s : SharedState) → Reachable s → IsConsistent s
Reachable-IsConsistent s start = record {
  active = λ t a. ((λ m. m), (λ m. m));
  distinct = tt;
  levels = tt;
}
Reachable-IsConsistent s (next {s = u} r st) = Step-IsConsistent st (Reachable-IsConsistent u r)

-- What the solver does between a `push` and the `pop` that takes it back: the number counts the levels
-- that are open above it.
pub data Within (s : SharedState) : ℕ → SharedState → Type 0 where
  opened : Within s 0 (push s)
  deeper : {k : ℕ} {u : SharedState} → Within s k u → Within s (suc k) (push u)
  assigned :
      {k : ℕ} {u : SharedState} (a t : ℕ)
      → Within s k u
      → ¬ In (a, t) u.action_trail
      → Within s k (update_action_trail (some (a, t)) true u)
  closed : {j k : ℕ} {u : SharedState} (n : ℕ) → Within s j u → k + n ≡ j → Within s k (pop n u)

abbrev AllAtLeast : ℕ → List ℕ → Type 0
AllAtLeast n [] = Unit {0}
AllAtLeast n (l ∷ ls) = (n ≤ l) × AllAtLeast n ls

-- The state above the bottom that `push` marked.
record Above (s : SharedState) (k : ℕ) (u : SharedState) : Type 0 where
  front : List (ℕ × ℕ)
  trail : u.action_trail ≡ front ++ s.action_trail
  open_levels : List ℕ
  levels :
      u.action_decision_levels ≡ open_levels ++ length s.action_trail ∷ s.action_decision_levels
  count : length open_levels ≡ k
  high : AllAtLeast (length s.action_trail) open_levels
  consistent : IsConsistent u

suffix_of :
    (front base top rest : List (ℕ × ℕ))
    → front ++ base ≡ top ++ rest
    → length base ≤ length rest
    → (r : List (ℕ × ℕ)) × (rest ≡ r ++ base)
suffix_of front base [] rest e h = (front, sym e)
suffix_of [] base (x ∷ top) rest e h =
    absurd (omega (arith, ap length e, length-append {0} top rest))
suffix_of (y ∷ front) base (x ∷ top) rest e h = suffix_of front base top rest (cc) h

whole_suffix :
    (r base rest : List (ℕ × ℕ)) → rest ≡ r ++ base → length rest ≡ length base → rest ≡ base
whole_suffix [] base rest e h = e
whole_suffix (x ∷ r) base rest e h = absurd (omega (arith, ap length e, length-append {0} r base))

module _ (s : SharedState) where
  -- The trail under a level that is not below the bottom.
  unwound :
      (l : ℕ) (u : SharedState) (front : List (ℕ × ℕ))
      → u.action_trail ≡ front ++ s.action_trail
      → IsConsistent u
      → length s.action_trail ≤ l
      → (r : List (ℕ × ℕ)) × ((unwind l u.action_trail u.active_actions_per_timestep).0
          ≡ r ++ s.action_trail)
        × (length (unwind l u.action_trail u.active_actions_per_timestep).0
            ≡ min l (length u.action_trail))
  unwound l u front e v h =
      let (top, split, g, d, size) =
        unwind_lem l u.action_trail u.active_actions_per_timestep v.active v.distinct in
      let longer : length s.action_trail ≤ length u.action_trail =
        omega (arith, ap length e, length-append {0} front s.action_trail) in
      let (r, k) = suffix_of front s.action_trail top _ (sym e ∙ split) (omega arith) in
      (r, k, size)

  pop_level-Above :
      (k : ℕ) (u : SharedState)
      → Above s (suc k) u
      → Above s k (pop_level u.action_decision_levels u)
  unfolding pop_level
  pop_level-Above k u a =
      subst (λ ls. Above s k (pop_level ls u)) (sym a.levels)
        (leave a.open_levels a.count a.high (
          subst (λ ls. IsConsistent (pop_level ls u)) a.levels
            (pop_level-IsConsistent u a.consistent)))
    where
      leave :
          (os : List ℕ)
          → length os ≡ suc k
          → AllAtLeast (length s.action_trail) os
          → IsConsistent (pop_level (os ++ length s.action_trail ∷ s.action_decision_levels) u)
          → Above s k (pop_level (os ++ length s.action_trail ∷ s.action_decision_levels) u)
      leave [] c h w = absurd (omega arith)
      leave (l ∷ os) c h w =
          let (r, e, size) = unwound l u a.front a.trail a.consistent h.0 in
          record {
            front = r;
            trail = e;
            open_levels = os;
            levels = refl;
            count = omega arith;
            high = h.1;
            consistent = w;
          }

  -- The level that `push` opened is popped too: what is left is the trail and the levels from before.
  pop_last :
      (u : SharedState)
      → Above s 0 u
      → ((pop_level u.action_decision_levels u).action_trail ≡ s.action_trail)
        × ((pop_level u.action_decision_levels u).action_decision_levels ≡ s.action_decision_levels)
  unfolding pop_level
  pop_last u a =
      let (r, e, size) =
        unwound (length s.action_trail) u a.front a.trail a.consistent (omega arith) in
      let longer : length s.action_trail ≤ length u.action_trail =
        omega (arith, ap length a.trail, length-append {0} a.front s.action_trail) in
      bottom a.open_levels a.count a.levels (whole_suffix r s.action_trail _ e (omega arith))
    where
      bottom :
          (os : List ℕ)
          → length os ≡ 0
          → u.action_decision_levels ≡ os ++ length s.action_trail ∷ s.action_decision_levels
          → (unwind (length s.action_trail) u.action_trail u.active_actions_per_timestep).0
            ≡ s.action_trail
          → ((pop_level u.action_decision_levels u).action_trail ≡ s.action_trail)
            × ((pop_level u.action_decision_levels u).action_decision_levels
                ≡ s.action_decision_levels)
      bottom [] c e same = rw e (same, refl)
      bottom (l ∷ os) c e same = absurd (omega arith)

  pop-Above : (n k : ℕ) (u : SharedState) → Above s (k + n) u → Above s k (pop n u)
  unfolding pop
  pop-Above zero k u a = subst (λ j. Above s j u) (omega arith) a
  pop-Above (suc n) k u a =
      pop-Above n k _ (pop_level-Above (k + n) u (subst (λ j. Above s j u) (omega arith) a))

  Within-Above : {k : ℕ} {u : SharedState} → IsConsistent s → Within s k u → Above s k u
  unfolding push update_action_trail record_action
  Within-Above v opened = record {
    front = [];
    trail = refl;
    open_levels = [];
    levels = refl;
    count = refl;
    high = tt;
    consistent = Step-IsConsistent (pushed s) v;
  }
  Within-Above v (deeper {u = u} w) =
      let a = Within-Above v w in
      record {
        front = a.front;
        trail = a.trail;
        open_levels = length u.action_trail ∷ a.open_levels;
        levels = ap (λ ls. length u.action_trail ∷ ls) a.levels;
        count = ap suc a.count;
        high = (omega (arith, ap length a.trail, length-append {0} a.front s.action_trail), a.high);
        consistent = Step-IsConsistent (pushed u) a.consistent;
      }
  Within-Above v (assigned {u = u} x t w new) =
      let a = Within-Above v w in
      record {
        front = (x, t) ∷ a.front;
        trail = ap (λ l. (x, t) ∷ l) a.trail;
        open_levels = a.open_levels;
        levels = a.levels;
        count = a.count;
        high = a.high;
        consistent = Step-IsConsistent (fixed_true u x t new) a.consistent;
      }
  Within-Above v (closed {k = k} {u = x} n w e) =
      pop-Above n k x (subst (λ j. Above s j x) (sym e) (Within-Above v w))

pop-suc :
    (k : ℕ) (u : SharedState) → pop (suc k) u ≡ pop_level (pop k u).action_decision_levels (pop k u)
unfolding pop
pop-suc zero u = refl
pop-suc (suc k) u = pop-suc k (pop_level u.action_decision_levels u)

-- Whatever the solver assigns, opens and closes above a `push`, popping the levels that are left and
-- the one of the `push` restores the trail, the decision levels and, at every timestep, the set of the
-- active actions.
pub pop-push :
    (s u : SharedState) (k : ℕ)
    → IsConsistent s
    → Within s k u
    → ((pop (suc k) u).action_trail ≡ s.action_trail)
      × ((pop (suc k) u).action_decision_levels ≡ s.action_decision_levels)
      × ((t a : ℕ)
          → In a ((pop (suc k) u).active_actions_per_timestep t)
            ↔ In a (s.active_actions_per_timestep t))
pop-push s u k v w =
    let a = Within-Above s v w in
    let rest : Above s 0 (pop k u) = pop-Above s k 0 u (subst (λ j. Above s j u) (omega arith) a) in
    let last = pop_last s (pop k u) rest in
    let (trail, levels) =
      subst
        (λ r.
          (r.action_trail ≡ s.action_trail) × (r.action_decision_levels ≡ s.action_decision_levels))
        (sym (pop-suc k u)) last in
    let after = pop-IsConsistent (suc k) u a.consistent in
    (
      trail,
      levels,
      λ t x. (
        (λ m. (v.active t x).1 (subst (λ l. In (x, t) l) trail ((after.active t x).0 m))),
        (λ m. (after.active t x).1 (subst (λ l. In (x, t) l) (sym trail) ((v.active t x).0 m))),
      ),
    )
