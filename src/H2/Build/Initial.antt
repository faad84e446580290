-- ===== src/H2/Build/Initial.antt =====
-- Phase 1 of `compute`: the facts of the initial state and their pairs are marked.
use ran_tan_plan.Prelude.{
  ℕ, zero, suc, ◌<◌, ◌≡◌, refl, sym, ◌∙◌, ◌≢◌, inl, inr, true, false, List, [], ◌∷◌, arith, foldl,
  In, ⊎_elim, get_or, replicate, get_or-set, length-set, length-replicate, get_or-replicate,
}
use ran_tan_plan.H2.{Tables, is_reachable, is_co_reachable}
use ran_tan_plan.H2.Growth.{Shape}
use ran_tan_plan.H2.Marks.{marked-Shape, marked_keeps, marked_reach, marked_marks}
use ran_tan_plan.H2.Build.{no_marks, init_reachable, init_pair, init_pairs, initial_tables}

-- What a step of phase 1 keeps.
record Keeps (n : ℕ) (s t : Tables) : Type 0 where
  shape : Shape n t
  reach : (i : ℕ) → is_reachable s i ≡ true → is_reachable t i ≡ true
  co_reach : (i j : ℕ) → is_co_reachable s i j ≡ true → is_co_reachable t i j ≡ true

Keeps-trans : (n : ℕ) (s t u : Tables) → Keeps n s t → Keeps n t u → Keeps n s u
Keeps-trans n s t u g h = record {
  shape = h.shape;
  reach = λ i e. h.reach i (g.reach i e);
  co_reach = λ i j e. h.co_reach i j (g.co_reach i j e);
}

get_or-rows :
    (n k i : ℕ) → i < k → get_or (replicate k (replicate n false)) i [] ≡ replicate n false
get_or-rows n zero i h = absurd (omega arith)
get_or-rows n (suc k) zero h = refl
get_or-rows n (suc k) (suc i) h = get_or-rows n k i (omega arith)

no_co_marks : (n k i j : ℕ) → get_or (get_or (replicate k (replicate n false)) i []) j false ≡ false
no_co_marks n zero i j = refl
no_co_marks n (suc k) zero j = get_or-replicate n j false
no_co_marks n (suc k) (suc i) j = no_co_marks n k i j

no_marks-Shape : (n : ℕ) → Shape n (no_marks n)
unfolding no_marks
no_marks-Shape n = record {
  facts = length-replicate n false;
  rows = length-replicate n (replicate n false);
  columns = λ i h. rw (get_or-rows n n i h) (length-replicate n false);
  symmetric = λ i j. no_co_marks n n i j ∙ sym (no_co_marks n n j i);
}

module _ (n : ℕ) where
  init_reachable-Keeps :
      (s : Tables) (i : ℕ)
      → Shape n s
      → i < n
      → Keeps n s (init_reachable s i) × (is_reachable (init_reachable s i) i ≡ true)
  unfolding init_reachable
  init_reachable-Keeps s i v h =
      let write = λ (k : ℕ). get_or-set s.reachable i k true false (omega (arith, v.facts)) in
      (
        record {
          shape = record {
            facts = length-set s.reachable i true ∙ v.facts;
            rows = v.rows;
            columns = v.columns;
            symmetric = v.symmetric;
          };
          reach = λ k e. rw (write k, e) (ground arith);
          co_reach = λ a b e. e;
        },
        rw (write i) (ground arith),
      )

  init_pair-Keeps :
      (s : Tables) (i j : ℕ)
      → Shape n s
      → i < n
      → j < n
      → Keeps n s (init_pair i s j) × (is_co_reachable (init_pair i s j) i j ≡ true)
  unfolding init_pair
  init_pair-Keeps s i j v hi hj = (
    record {
      shape = marked-Shape n s v i j hi hj;
      reach = λ k e. marked_reach n s v i j hi hj k ∙ e;
      co_reach = marked_keeps n s v i j hi hj;
    },
    marked_marks n s v i j hi hj,
  )

  init_reachable_all :
      (s : Tables) (is : List ℕ)
      → Shape n s
      → ((i : ℕ) → In i is → i < n)
      → Keeps n s (foldl init_reachable s is)
        × ((i : ℕ) → In i is → is_reachable (foldl init_reachable s is) i ≡ true)
  init_reachable_all s [] v r =
      (record { shape = v; reach = λ i e. e; co_reach = λ i j e. e }, λ i m. absurd m)
  init_reachable_all s (i ∷ is) v r =
      let (one, hit) = init_reachable-Keeps s i v (r i (inl refl)) in
      let (all, hits) = init_reachable_all (init_reachable s i) is one.shape (λ k m. r k (inr m)) in
      (
        Keeps-trans n s (init_reachable s i) _ one all,
        λ k m. ⊎_elim (λ e. rw e (all.reach i hit)) (hits k) m,
      )

  init_pair_all :
      (s : Tables) (i : ℕ) (js : List ℕ)
      → Shape n s
      → i < n
      → ((j : ℕ) → In j js → j < n)
      → Keeps n s (foldl (init_pair i) s js)
        × ((j : ℕ) → In j js → is_co_reachable (foldl (init_pair i) s js) i j ≡ true)
  init_pair_all s i [] v hi r =
      (record { shape = v; reach = λ i e. e; co_reach = λ i j e. e }, λ j m. absurd m)
  init_pair_all s i (j ∷ js) v hi r =
      let (one, hit) = init_pair-Keeps s i j v hi (r j (inl refl)) in
      let (all, hits) = init_pair_all (init_pair i s j) i js one.shape hi (λ k m. r k (inr m)) in
      (
        Keeps-trans n s (init_pair i s j) _ one all,
        λ k m. ⊎_elim (λ e. rw e (all.co_reach i j hit)) (hits k) m,
      )

  init_pairs_all :
      (s : Tables) (is : List ℕ)
      → Shape n s
      → ((i : ℕ) → In i is → i < n)
      → Keeps n s (init_pairs is s)
        × ((i j : ℕ) → In i is → In j is → i ≢ j → is_co_reachable (init_pairs is s) i j ≡ true)
  unfolding init_pairs
  init_pairs_all s [] v r =
      (record { shape = v; reach = λ i e. e; co_reach = λ i j e. e }, λ i j m. absurd m)
  init_pairs_all s (i ∷ is) v r =
      let (one, hit) = init_pair_all s i is v (r i (inl refl)) (λ k m. r k (inr m)) in
      let s' = foldl (init_pair i) s is in
      let (all, hits) = init_pairs_all s' is one.shape (λ k m. r k (inr m)) in
      (
        Keeps-trans n s s' _ one all,
        λ a b ma mb ne.
            ⊎_elim
              (λ ea.
                ⊎_elim (λ eb. absurd (ne (ea ∙ sym eb))) (λ kb. rw ea (all.co_reach i b (hit b kb)))
                  mb)
              (λ ka.
                ⊎_elim (λ eb. rw eb (all.shape.symmetric a i ∙ all.co_reach i a (hit a ka)))
                  (λ kb. hits a b ka kb ne) mb)
              ma,
      )

  -- After phase 1 the facts of the initial state are marked, and every two of them together.
  pub initial_tables_lem :
      (is : List ℕ)
      → ((i : ℕ) → In i is → i < n)
      → Shape n (initial_tables n is)
        × ((i : ℕ) → In i is → is_reachable (initial_tables n is) i ≡ true)
        × ((i j : ℕ) → In i is → In j is → i ≢ j → is_co_reachable (initial_tables n is) i j ≡ true)
  unfolding initial_tables
  initial_tables_lem is r =
      let (one, hits) = init_reachable_all (no_marks n) is (no_marks-Shape n) r in
      let (all, pairs) = init_pairs_all (foldl init_reachable (no_marks n) is) is one.shape r in
      (all.shape, λ i m. all.reach i (hits i m), pairs)
