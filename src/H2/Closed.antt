-- ===== src/H2/Closed.antt =====
-- A round of `compute` that changes nothing leaves tables that are closed under every action.
use ran_tan_plan.Prelude.{
  ℕ, ◌<◌, ◌≡◌, refl, sym, ap, ◌∙◌, subst, ◌≢◌, ◌⊎◌, inl, inr, true, false, List, [], ◌∷◌, arith,
  foldl, In, range, lt→In_count_up, In→lt_count_up, Bool-cases, ⊎_elim, ◌==◌, contains,
  not-contains,
}
use ran_tan_plan.H2.{
  ActionData, Tables, is_reachable, is_co_reachable, applicable, compatible, note, mark_reachable,
  pair_up, persist, add_pairs, fire, visit,
}
use ran_tan_plan.H2.Growth.{open_marks, Shape, Grows, Grows-trans, foldl-Grows}
use ran_tan_plan.H2.Marks.{note_marks, mark_reachable-Grows, mark_reachable_marks}
use ran_tan_plan.H2.Loops.{
  InRange, pair_up-Grows, persist-Grows, pairs, pairs-Grows, persists-Grows, add_pairs-Grows,
  reach_all, reach_all-Grows, pair_all, pair_all-Grows, keep_all-Grows,
}

-- Where the end is the start, so is every state between.
still_trans : (n : ℕ) (s m t : Tables) → Grows n s m → Grows n m t → t ≡ s → (m ≡ s) × (t ≡ m)
still_trans n s m t g h e = sort g.falls h.falls
  where
    sort :
        (m ≡ s) ⊎ ((m.changed ≡ true) × (open_marks m < open_marks s))
        → (t ≡ m) ⊎ ((t.changed ≡ true) × (open_marks t < open_marks m))
        → (m ≡ s) × (t ≡ m)
    sort (inl a) b = (a, e ∙ sym a)
    sort (inr a) (inl b) = absurd (omega (arith, a.1, ap open_marks e, ap open_marks b))
    sort (inr a) (inr b) = absurd (omega (arith, a.1, b.1, ap open_marks e))

pub foldl-still :
    {A : Type 0} (n : ℕ) (f : Tables → A → Tables) (xs : List A)
    → ((s : Tables) (x : A) → In x xs → Shape n s → Grows n s (f s x))
    → (s : Tables) → Shape n s
    → foldl f s xs ≡ s
    → (x : A) → In x xs
    → f s x ≡ s
foldl-still n f [] h s v e x m = absurd m
foldl-still n f (y ∷ xs) h s v e x m =
    let one = h s y (inl refl) v in
    let later = λ (t : Tables) (z : _) (k : In z xs). h t z (inr k) in
    let (here, there) =
      still_trans n s (f s y) (foldl f (f s y) xs) one (foldl-Grows n f xs later (f s y) one.shape)
        e in
    let rest = foldl-still n f xs later s v (ap (λ t. foldl f t xs) (sym here) ∙ there ∙ here) x in
    ⊎_elim (λ k. ap (f s) k ∙ here) rest m

-- What the loops add is there already.
pub record IsClosed (n : ℕ) (s : Tables) (a : ActionData) : Type 0 where
  pub adds : (f : ℕ) → In f a.add_effects → is_reachable s f ≡ true
  pub both :
      (f g : ℕ) → In f a.add_effects → In g a.add_effects → f < g → is_co_reachable s f g ≡ true
  pub persists :
      (f g : ℕ)
      → In f a.add_effects
      → g < n
      → g ≢ f
      → is_reachable s g ≡ true
      → ¬ In g a.del_effects
      → compatible s g a.preconditions ≡ true
      → is_co_reachable s f g ≡ true

module _ (n : ℕ) (a : ActionData) (r : InRange n a) (s : Tables) (v : Shape n s) where
  pair_up-still :
      (f g : ℕ) → f < n → g < n → f < g → pair_up f s g ≡ s → is_co_reachable s f g ≡ true
  unfolding pair_up
  pair_up-still f g hf hg lt e =
      let e' : note s f g ≡ s = ground arith in
      subst (λ t. is_co_reachable t f g ≡ true) e' (note_marks n s v f g hf hg)

  persist-still :
      (f g : ℕ)
      → f < n
      → g < n
      → g ≢ f
      → is_reachable s g ≡ true
      → contains a.del_effects g ≡ false
      → compatible s g a.preconditions ≡ true
      → persist a f s g ≡ s
      → is_co_reachable s f g ≡ true
  unfolding persist
  persist-still f g hf hg ne reach keeps fits e = elim (Bool-cases (is_co_reachable s f g)) [
    | inl yes' ↦ yes'
    | inr unknown ↦
        let other : (g == f) ≡ false = ground arith in
        let e' : note s f g ≡ s = rw (other, unknown, reach, keeps, fits, persist) at e in
        subst (λ t. is_co_reachable t f g ≡ true) e' (note_marks n s v f g hf hg)
  ]

  add_pairs-still :
      (f : ℕ)
      → f < n
      → add_pairs n a s f ≡ s
      → ((g : ℕ) → In g a.add_effects → pair_up f s g ≡ s) × ((g : ℕ) → g < n → persist a f s g ≡ s)
  unfolding add_pairs pairs
  add_pairs-still f hf e =
      let one = pairs-Grows n a r s f v hf in
      let (here, there) =
        still_trans n s (pairs n a r f s) (add_pairs n a s f) one
          (persists-Grows n a r (pairs n a r f s) f one.shape hf) e in
      (
        foldl-still n (pair_up f) a.add_effects
            (λ t g m w. pair_up-Grows n t w f g hf (r.add_effects g m)) s v here,
        λ g hg.
            foldl-still n (persist a f) (range n)
              (λ t k m w. persist-Grows n t w a f k hf (omega (arith, In→lt_count_up n 0 k m))) s v
              (ap (λ t. foldl (persist a f) t (range n)) (sym here) ∙ there ∙ here) g
              (lt→In_count_up n 0 g (omega arith) (omega arith)),
      )

  fire-still :
      fire n s a ≡ s
      → ((f : ℕ) → In f a.add_effects → mark_reachable s f ≡ s)
        × ((f : ℕ) → In f a.add_effects → add_pairs n a s f ≡ s)
  unfolding fire reach_all pair_all
  fire-still e =
      let two = reach_all-Grows n a r s v in
      let three = pair_all-Grows n a r (reach_all n a r s) two.shape in
      let (step2, step34) =
        still_trans n s (reach_all n a r s) (fire n s a) two
          (Grows-trans n (reach_all n a r s) (pair_all n a r (reach_all n a r s)) (fire n s a) three
            (keep_all-Grows n a r (pair_all n a r (reach_all n a r s)) three.shape))
          e in
      let (step3, _) =
        still_trans n (reach_all n a r s) (pair_all n a r (reach_all n a r s)) (fire n s a) three
          (keep_all-Grows n a r (pair_all n a r (reach_all n a r s)) three.shape) step34 in
      (
        foldl-still n mark_reachable a.add_effects
            (λ t f m w. mark_reachable-Grows n t w f f (r.add_effects f m) (r.add_effects f m)) s v
            step2,
        foldl-still n (add_pairs n a) a.add_effects
            (λ t f m w. add_pairs-Grows n a r t f w (r.add_effects f m)) s v
            (ap (λ t. foldl (add_pairs n a) t a.add_effects) (sym step2) ∙ step3 ∙ step2),
      )

  fire-IsClosed : fire n s a ≡ s → IsClosed n s a
  fire-IsClosed e =
      let (reaches, pairs') = fire-still e in
      record {
        adds = λ f m.
            subst (λ t. is_reachable t f ≡ true) (reaches f m)
              (mark_reachable_marks n s v f f (r.add_effects f m) (r.add_effects f m));
        both = λ f g mf mg lt.
            let hf = r.add_effects f mf in
            pair_up-still f g hf (r.add_effects g mg) lt
              ((add_pairs-still f hf (pairs' f mf)).0 g mg);
        persists = λ f g mf hg ne reach keeps fits.
            let hf = r.add_effects f mf in
            persist-still f g hf hg ne reach (not-contains a.del_effects g keeps) fits
              ((add_pairs-still f hf (pairs' f mf)).1 g hg);
      }

  pub visit-IsClosed : visit n s a ≡ s → applicable s a ≡ true → IsClosed n s a
  unfolding visit
  visit-IsClosed e h = fire-IsClosed (rw (h, visit) at e)

-- What a fixpoint is: every action that applies adds nothing.
abbrev pub AllClosed : ℕ → List ActionData → Tables → Type 0
AllClosed n acts s = (a : ActionData) → In a acts → applicable s a ≡ true → IsClosed n s a
