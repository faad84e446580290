-- ===== src/H2/Loops.antt =====
-- The loops of `compute` over effects, facts and preconditions, as steps that grow the tables.
use ran_tan_plan.Prelude.{
  ℕ, ◌<◌, inl, inr, Bool, true, false, arith, foldl, In, Bool-cases, if◌then◌else◌, ◌==◌, leb, not,
  contains, In→lt_count_up, range,
}
use ran_tan_plan.H2.{
  ActionData, Tables, is_reachable, is_co_reachable, mark_reachable, compatible, pair_up, persist,
  add_pairs, keep_pair, keep_precondition, applicable, fire, visit,
}
use ran_tan_plan.H2.Growth.{Shape, Grows, Grows-refl, Grows-trans, foldl-Grows}
use ran_tan_plan.H2.Marks.{note-Grows, mark_reachable-Grows}

-- An action whose effects and preconditions are facts.
pub record InRange (n : ℕ) (a : ActionData) : Type 0 where
  pub preconditions : (i : ℕ) → In i a.preconditions → i < n
  pub add_effects : (i : ℕ) → In i a.add_effects → i < n

module _ (n : ℕ) (s : Tables) (v : Shape n s) where
  pub pair_up-Grows : (f g : ℕ) → f < n → g < n → Grows n s (pair_up f s g)
  unfolding pair_up
  pair_up-Grows f g hf hg = elim (Bool-cases (leb g f)) [
    | inl e ↦ rw (e, pair_up) (Grows-refl n s v)
    | inr e ↦ rw (e, pair_up) (note-Grows n s v f g hf hg)
  ]

  pub keep_pair-Grows : (p f : ℕ) → p < n → f < n → Grows n s (keep_pair p s f)
  unfolding keep_pair
  keep_pair-Grows p f hp hf = elim (Bool-cases (f == p)) [
    | inl e ↦ rw (e, keep_pair) (Grows-refl n s v)
    | inr e ↦ rw (e, keep_pair) (note-Grows n s v p f hp hf)
  ]

  pub persist-Grows : (a : ActionData) (f g : ℕ) → f < n → g < n → Grows n s (persist a f s g)
  unfolding persist
  persist-Grows a f g hf hg = cond_rule (g == f) (Grows-refl n s v) (
      cond_rule (is_co_reachable s f g) (Grows-refl n s v) (
        cond_rule (not (is_reachable s g)) (Grows-refl n s v) (
          cond_rule (contains a.del_effects g) (Grows-refl n s v) (
            cond_rule (compatible s g a.preconditions) (note-Grows n s v f g hf hg)
              (Grows-refl n s v)))))
    where
      cond_rule :
          (b : Bool) {t u : Tables} → Grows n s t → Grows n s u → Grows n s (if b then t else u)
      cond_rule true h k = h
      cond_rule false h k = k

-- The loops.
module _ (n : ℕ) (a : ActionData) (r : InRange n a) where
  unfoldable pub pairs : ℕ → Tables → Tables
  pairs f s = foldl (pair_up f) s a.add_effects

  pub pairs-Grows : (s : Tables) (f : ℕ) → Shape n s → f < n → Grows n s (pairs f s)
  unfolding pairs
  pairs-Grows s f v hf =
      foldl-Grows n (pair_up f) a.add_effects
        (λ t g m w. pair_up-Grows n t w f g hf (r.add_effects g m)) s v

  pub persists-Grows :
      (s : Tables) (f : ℕ) → Shape n s → f < n → Grows n s (foldl (persist a f) s (range n))
  persists-Grows s f v hf =
      foldl-Grows n (persist a f) (range n)
        (λ t g m w. persist-Grows n t w a f g hf (omega (arith, In→lt_count_up n 0 g m))) s v

  pub add_pairs-Grows : (s : Tables) (f : ℕ) → Shape n s → f < n → Grows n s (add_pairs n a s f)
  unfolding add_pairs pairs
  add_pairs-Grows s f v hf =
      let one = pairs-Grows s f v hf in
      Grows-trans n s (pairs f s) _ one (persists-Grows (pairs f s) f one.shape hf)

  pub keep_precondition-Grows :
      (s : Tables) (p : ℕ) → Shape n s → p < n → Grows n s (keep_precondition a s p)
  unfolding keep_precondition
  keep_precondition-Grows s p v hp = elim (Bool-cases (contains a.del_effects p)) [
    | inl e ↦ rw (e, keep_precondition) (Grows-refl n s v)
    | inr e ↦
        rw (e, keep_precondition)
          (foldl-Grows n (keep_pair p) a.add_effects
            (λ t f m w. keep_pair-Grows n t w p f hp (r.add_effects f m)) s v)
  ]

  -- Steps 2 to 4, one after the other.
  unfoldable pub reach_all : Tables → Tables
  reach_all s = foldl mark_reachable s a.add_effects

  pub reach_all-Grows : (s : Tables) → Shape n s → Grows n s (reach_all s)
  unfolding reach_all
  reach_all-Grows s v =
      foldl-Grows n mark_reachable a.add_effects
        (λ t f m w. mark_reachable-Grows n t w f f (r.add_effects f m) (r.add_effects f m)) s v

  unfoldable pub pair_all : Tables → Tables
  pair_all s = foldl (add_pairs n a) s a.add_effects

  pub pair_all-Grows : (s : Tables) → Shape n s → Grows n s (pair_all s)
  unfolding pair_all
  pair_all-Grows s v =
      foldl-Grows n (add_pairs n a) a.add_effects
        (λ t f m w. add_pairs-Grows t f w (r.add_effects f m)) s v

  pub keep_all-Grows :
      (s : Tables) → Shape n s → Grows n s (foldl (keep_precondition a) s a.preconditions)
  keep_all-Grows s v =
      foldl-Grows n (keep_precondition a) a.preconditions
        (λ t p m w. keep_precondition-Grows t p w (r.preconditions p m)) s v

  pub fire-Grows : (s : Tables) → Shape n s → Grows n s (fire n s a)
  unfolding fire reach_all pair_all
  fire-Grows s v =
      let two = reach_all-Grows s v in
      let three = pair_all-Grows (reach_all s) two.shape in
      Grows-trans n s (reach_all s) (fire n s a) two (
        Grows-trans n (reach_all s) (pair_all (reach_all s)) (fire n s a) three
          (keep_all-Grows (pair_all (reach_all s)) three.shape))

  pub visit-Grows : (s : Tables) → Shape n s → Grows n s (visit n s a)
  unfolding visit
  visit-Grows s v = elim (Bool-cases (applicable s a)) [
    | inl e ↦ rw (e, visit) (fire-Grows s v)
    | inr e ↦ rw (e, visit) (Grows-refl n s v)
  ]
