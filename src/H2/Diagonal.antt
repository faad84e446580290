-- ===== src/H2/Diagonal.antt =====
-- No step of `compute` marks a fact as co-reachable with itself.
use ran_tan_plan.Prelude.{
  ℕ, zero, suc, ◌≡◌, refl, sym, ap, ◌∙◌, subst, ◌≢◌, inl, inr, Bool, true, false, not, List, [],
  ◌∷◌, arith, foldl, In, Distinct, Bool-cases, Option, some, get_or, set, if◌then◌else◌, ◌==◌, leb,
  contains, range, ◌&&◌, eq_of_some, contains→In, In→contains, true-ne-false,
}
use ran_tan_plan.H2.{
  ActionData, Tables, is_reachable, is_co_reachable, set_pair, mark_co_reachable, note,
  all_reachable, all_co_reachable, all_pairs, applicable, mark_reachable, pair_up, compatible,
  persist, add_pairs, keep_pair, keep_precondition, fire, visit, round, fixpoint,
}

abbrev pub NoDiagonal : Tables → Type 0
NoDiagonal s = (i : ℕ) → is_co_reachable s i i ≡ false

foldl-keeps :
    {A S : Type 0} (P : S → Type 0) (f : S → A → S) (xs : List A)
    → ((s : S) (x : A) → In x xs → P s → P (f s x))
    → (s : S) → P s
    → P (foldl f s xs)
foldl-keeps P f [] h s k = k
foldl-keeps P f (x ∷ xs) h s k =
    foldl-keeps P f xs (λ t y m. h t y (inr m)) (f s x) (h s x (inl refl) k)

get_or-set_other :
    (bs : List Bool) (i j : ℕ) → i ≢ j → get_or (set bs i true) j false ≡ get_or bs j false
get_or-set_other [] i j h = refl
get_or-set_other (b ∷ bs) zero zero h = absurd (h refl)
get_or-set_other (b ∷ bs) zero (suc j) h = refl
get_or-set_other (b ∷ bs) (suc i) zero h = refl
get_or-set_other (b ∷ bs) (suc i) (suc j) h = get_or-set_other bs i j (λ e. h (ap suc e))

set_pair_other :
    (rows : List (List Bool)) (i j a b : ℕ)
    → (a ≡ i → j ≢ b)
    → get_or (get_or (set_pair rows i j) a []) b false ≡ get_or (get_or rows a []) b false
set_pair_other [] i j a b h = refl
set_pair_other (r ∷ rows) zero j zero b h = get_or-set_other r j b (h refl)
set_pair_other (r ∷ rows) zero j (suc a) b h = refl
set_pair_other (r ∷ rows) (suc i) j zero b h = refl
set_pair_other (r ∷ rows) (suc i) j (suc a) b h = set_pair_other rows i j a b (λ e. h (ap suc e))

both_writes :
    (s : Tables) (i j k : ℕ)
    → i ≢ j
    → get_or (get_or (set_pair (set_pair s.co_reachable i j) j i) k []) k false
      ≡ is_co_reachable s k k
both_writes s i j k ne =
    set_pair_other (set_pair s.co_reachable i j) j i k k (λ e e'. ne (e' ∙ e))
    ∙ set_pair_other s.co_reachable i j k k (λ e e'. ne (sym (e' ∙ e)))

pub mark_co_reachable-NoDiagonal :
    (s : Tables) (i j : ℕ) → i ≢ j → NoDiagonal s → NoDiagonal (mark_co_reachable s i j).0
unfolding mark_co_reachable
mark_co_reachable-NoDiagonal s i j ne d k = elim (Bool-cases (is_co_reachable s i j)) [
  | inl e ↦ rw (e, mark_co_reachable) (d k)
  | inr e ↦ rw (e, mark_co_reachable) (both_writes s i j k ne ∙ d k)
]

note-NoDiagonal : (s : Tables) (i j : ℕ) → i ≢ j → NoDiagonal s → NoDiagonal (note s i j)
unfolding note mark_co_reachable
note-NoDiagonal s i j ne d k = elim (Bool-cases (is_co_reachable s i j)) [
  | inl e ↦ rw (e, note) (d k)
  | inr e ↦ rw (e, note) (both_writes s i j k ne ∙ d k)
]

cond_rule :
    (t u : Tables) (b : Bool)
    → (b ≡ true → NoDiagonal t)
    → (b ≡ false → NoDiagonal u)
    → NoDiagonal (if b then t else u)
cond_rule t u true h k = h refl
cond_rule t u false h k = k refl

pair_up-NoDiagonal : (f : ℕ) (s : Tables) (g : ℕ) → NoDiagonal s → NoDiagonal (pair_up f s g)
unfolding pair_up
pair_up-NoDiagonal f s g d =
    cond_rule _ _ (leb g f) (λ e. d) (λ e. note-NoDiagonal s f g (λ same. ground arith) d)

persist-NoDiagonal :
    (a : ActionData) (f : ℕ) (s : Tables) (g : ℕ) → NoDiagonal s → NoDiagonal (persist a f s g)
unfolding persist
persist-NoDiagonal a f s g d =
    cond_rule _ _ (g == f) (λ _. d)
      (λ e.
        cond_rule _ _ (is_co_reachable s f g) (λ _. d)
          (λ _.
            cond_rule _ _ (not (is_reachable s g)) (λ _. d)
              (λ _.
                cond_rule _ _ (contains a.del_effects g) (λ _. d)
                  (λ _.
                    cond_rule _ _ (compatible s g a.preconditions)
                      (λ _. note-NoDiagonal s f g (λ same. ground arith) d) (λ _. d)))))

keep_pair-NoDiagonal : (p : ℕ) (s : Tables) (f : ℕ) → NoDiagonal s → NoDiagonal (keep_pair p s f)
unfolding keep_pair
keep_pair-NoDiagonal p s f d =
    cond_rule _ _ (f == p) (λ _. d) (λ e. note-NoDiagonal s p f (λ same. ground arith) d)

mark_reachable-NoDiagonal : (s : Tables) (f : ℕ) → NoDiagonal s → NoDiagonal (mark_reachable s f)
unfolding mark_reachable
mark_reachable-NoDiagonal s f d = cond_rule _ _ (is_reachable s f) (λ _. d) (λ _. d)

fire-NoDiagonal : (n : ℕ) (s : Tables) (a : ActionData) → NoDiagonal s → NoDiagonal (fire n s a)
unfolding fire add_pairs keep_precondition
fire-NoDiagonal n s a d =
    foldl-keeps NoDiagonal (keep_precondition a) a.preconditions
      (λ t p _ h.
        cond_rule _ _ (contains a.del_effects p) (λ _. h)
          (λ _.
            foldl-keeps NoDiagonal (keep_pair p) a.add_effects
              (λ u f _ k. keep_pair-NoDiagonal p u f k) t h))
      _
      (foldl-keeps NoDiagonal (add_pairs n a) a.add_effects
        (λ t f _ h.
          foldl-keeps NoDiagonal (persist a f) (range n) (λ u g _ k. persist-NoDiagonal a f u g k) _
            (foldl-keeps NoDiagonal (pair_up f) a.add_effects
              (λ u g _ k. pair_up-NoDiagonal f u g k) t h))
        _
        (foldl-keeps NoDiagonal mark_reachable a.add_effects
          (λ t f _ h. mark_reachable-NoDiagonal t f h) s d))

round-NoDiagonal :
    (n : ℕ) (acts : List ActionData) (s : Tables) → NoDiagonal s → NoDiagonal (round n acts s)
unfolding round visit
round-NoDiagonal n acts s d =
    foldl-keeps NoDiagonal (visit n) acts
      (λ t a _ h. cond_rule _ _ (applicable t a) (λ _. fire-NoDiagonal n t a h) (λ _. h)) _ d

pub fixpoint-NoDiagonal :
    (n : ℕ) (acts : List ActionData) (fuel : ℕ) (s t : Tables)
    → NoDiagonal s
    → fixpoint n acts fuel s ≡ some t
    → NoDiagonal t
unfolding fixpoint
fixpoint-NoDiagonal n acts zero s t d h = cc
fixpoint-NoDiagonal n acts (suc fuel) s t d h =
    pick (round n acts s).changed _ _ (round-NoDiagonal n acts s d)
      (fixpoint-NoDiagonal n acts fuel (round n acts s) t (round-NoDiagonal n acts s d)) h
  where
    pick :
        (b : Bool) (rest : Option Tables) (u : Tables)
        → NoDiagonal u
        → (rest ≡ some t → NoDiagonal t)
        → (if b then rest else some u) ≡ some t
        → NoDiagonal t
    pick true rest u k r e = r e
    pick false rest u k r e = subst NoDiagonal (eq_of_some e) k

all_co_reachable-In :
    (s : Tables) (p : ℕ) (qs : List ℕ) → NoDiagonal s → In p qs → all_co_reachable s p qs ≡ false
unfolding all_co_reachable
all_co_reachable-In s p [] d m = absurd m
all_co_reachable-In s p (q ∷ qs) d (inl e) = rw (← e, d p)
all_co_reachable-In s p (q ∷ qs) d (inr m) = rw (all_co_reachable-In s p qs d m) (ground arith)

and_false : (b : Bool) → (b && false) ≡ false
and_false true = refl
and_false false = refl

repeated-all_pairs :
    (s : Tables) (ps : List ℕ) → NoDiagonal s → ¬ Distinct ps → all_pairs s ps ≡ false
unfolding all_pairs
repeated-all_pairs s [] d k = absurd (k tt)
repeated-all_pairs s (p ∷ ps) d k = elim (Bool-cases (contains ps p)) [
  | inl e ↦ rw (all_co_reachable-In s p ps d (contains→In ps p e)) refl
  | inr e ↦
      let new = λ (m : In p ps). true-ne-false (In→contains ps p m) e in
      rw (repeated-all_pairs s ps d (λ x. k (new, x))) (and_false (all_co_reachable s p ps))
]

-- An action that lists a precondition twice does not pass step 1.
pub repeated-applicable :
    (s : Tables) (a : ActionData)
    → NoDiagonal s
    → ¬ Distinct a.preconditions
    → applicable s a ≡ false
unfolding applicable
repeated-applicable s a d h =
    rw (repeated-all_pairs s a.preconditions d h) (and_false (all_reachable s a.preconditions))
