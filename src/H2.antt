-- ===== src/H2.antt =====
-- rantanplan/cpp/src/passes/h2_mutex_checker.cpp: pairs of facts that no reachable state has
-- together. `Tables` is the part of the object that `compute` writes, with its local `changed`;
-- facts are numbers below `num_facts`. `Build` makes the tables from a problem.

pub mod Growth
pub mod Marks
pub mod Loops
pub mod Closed
pub mod Fixpoint
pub mod Sound
pub mod Diagonal
pub mod Build
use ran_tan_plan.Prelude.{
  ℕ, zero, suc, ◌+◌, ◌*◌, Bool, true, false, not, ◌&&◌, ◌||◌, Option, none, some, List, [], ◌∷◌,
  length, get_or, set, contains, range, ◌==◌, leb, if◌then◌else◌, foldl,
}

pub record ActionData : Type 0 where
  pub preconditions : List ℕ
  pub add_effects : List ℕ
  pub del_effects : List ℕ

pub record Tables : Type 0 where
  pub reachable : List Bool
  pub co_reachable : List (List Bool)
  pub changed : Bool

abbrev pub is_reachable : Tables → ℕ → Bool
is_reachable s f = get_or s.reachable f false

abbrev pub is_co_reachable : Tables → ℕ → ℕ → Bool
is_co_reachable s f g = get_or (get_or s.co_reachable f []) g false

abbrev pub set_pair : List (List Bool) → ℕ → ℕ → List (List Bool)
set_pair rows i j = set rows i (set (get_or rows i []) j true)

-- The tables after `mark_co_reachable`, and whether the pair is new.
pub mark_co_reachable : Tables → ℕ → ℕ → Tables × Bool
mark_co_reachable s i j =
    if is_co_reachable s i j
    then (s, false)
    else (record s { co_reachable = set_pair (set_pair s.co_reachable i j) j i }, true)

-- `if (mark_co_reachable(i, j)) changed = true;`
pub note : Tables → ℕ → ℕ → Tables
note s i j =
    let (t, new) = mark_co_reachable s i j in if new then record t { changed = true } else t

-- Step 1.
pub all_reachable : Tables → List ℕ → Bool
all_reachable s [] = true
all_reachable s (p ∷ ps) = is_reachable s p && all_reachable s ps

pub all_co_reachable : Tables → ℕ → List ℕ → Bool
all_co_reachable s p [] = true
all_co_reachable s p (q ∷ qs) = is_co_reachable s p q && all_co_reachable s p qs

pub all_pairs : Tables → List ℕ → Bool
all_pairs s [] = true
all_pairs s (p ∷ ps) = all_co_reachable s p ps && all_pairs s ps

pub applicable : Tables → ActionData → Bool
applicable s a = all_reachable s a.preconditions && all_pairs s a.preconditions

-- Step 2.
pub mark_reachable : Tables → ℕ → Tables
mark_reachable s f =
    if is_reachable s f then s else record s { reachable = set s.reachable f true; changed = true }

-- Step 3 (a): another add effect `g` of the action that adds `f`.
pub pair_up : ℕ → Tables → ℕ → Tables
pair_up f s g = if leb g f then s else note s f g

pub compatible : Tables → ℕ → List ℕ → Bool
compatible s g [] = true
compatible s g (p ∷ ps) = ((p == g) || is_co_reachable s g p) && compatible s g ps

-- Step 3 (b): a fact `g` that persists through the action that adds `f`.
pub persist : ActionData → ℕ → Tables → ℕ → Tables
persist a f s g =
    if g == f
    then s
    else if is_co_reachable s f g
    then s
    else if not (is_reachable s g)
    then s
    else if contains a.del_effects g
    then s
    else if compatible s g a.preconditions
    then note s f g
    else s

-- Step 3 for one add effect, with `n` facts.
pub add_pairs : ℕ → ActionData → Tables → ℕ → Tables
add_pairs n a s f = foldl (persist a f) (foldl (pair_up f) s a.add_effects) (range n)

-- Step 4.
pub keep_pair : ℕ → Tables → ℕ → Tables
keep_pair p s f = if f == p then s else note s p f

pub keep_precondition : ActionData → Tables → ℕ → Tables
keep_precondition a s p =
    if contains a.del_effects p then s else foldl (keep_pair p) s a.add_effects

-- The four steps for one action.
pub fire : ℕ → Tables → ActionData → Tables
fire n s a =
    foldl (keep_precondition a)
      (foldl (add_pairs n a) (foldl mark_reachable s a.add_effects) a.add_effects) a.preconditions

pub visit : ℕ → Tables → ActionData → Tables
visit n s a = if applicable s a then fire n s a else s

pub round : ℕ → List ActionData → Tables → Tables
round n acts s = foldl (visit n) (record s { changed = false }) acts

-- Phase 2, `none` when the fuel is used up.
pub fixpoint : ℕ → List ActionData → ℕ → Tables → Option Tables
fixpoint n acts zero s = none
fixpoint n acts (suc fuel) s =
    let t = round n acts s in
    let rest = fixpoint n acts fuel t in if t.changed then rest else some t
