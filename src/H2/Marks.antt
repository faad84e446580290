-- ===== src/H2/Marks.antt =====
-- The writes of `compute`: `mark_co_reachable` and the flags of step 2.
use ran_tan_plan.Prelude.{
  ℕ, zero, suc, ◌+◌, ◌<◌, ◌≤◌, ◌≡◌, refl, ◌∙◌, inl, inr, Bool, true, false, List, [], ◌∷◌, arith,
  length, get_or, set, Bool-cases, if◌then◌else◌, ◌==◌, ==_iff, ◌&&◌, ◌||◌, get_or-set, length-set,
  unset, unset-set,
}
use ran_tan_plan.H2.{
  Tables, is_reachable, is_co_reachable, set_pair, mark_co_reachable, note, mark_reachable,
}
use ran_tan_plan.H2.Growth.{unset_rows, Shape, Grows, Grows-refl}

unset_rows-set :
    (rows : List (List Bool)) (i : ℕ) (r : List Bool)
    → i < length rows
    → unset_rows (set rows i r) + unset (get_or rows i []) ≡ unset_rows rows + unset r
unset_rows-set [] i r h = absurd (omega arith)
unset_rows-set (x ∷ rows) zero r h = omega arith
unset_rows-set (x ∷ rows) (suc i) r h = omega (arith, unset_rows-set rows i r (omega arith))

unset-set-le : (bs : List Bool) (i : ℕ) → unset (set bs i true) ≤ unset bs
unset-set-le [] i = omega arith
unset-set-le (true ∷ bs) zero = omega arith
unset-set-le (false ∷ bs) zero = omega arith
unset-set-le (true ∷ bs) (suc i) = omega (arith, unset-set-le bs i)
unset-set-le (false ∷ bs) (suc i) = omega (arith, unset-set-le bs i)

-- The matrix after a write.
set_pair_lem :
    (n : ℕ) (rows : List (List Bool)) (i j a b : ℕ)
    → length rows ≡ n
    → ((k : ℕ) → k < n → length (get_or rows k []) ≡ n)
    → i < n
    → j < n
    → get_or (get_or (set_pair rows i j) a []) b false ≡ (
        if i == a
        then (if j == b then true else get_or (get_or rows a []) b false)
        else get_or (get_or rows a []) b false)
set_pair_lem n rows i j a b l c hi hj =
    rw (get_or-set rows i a (set (get_or rows i []) j true) [] (omega arith))
      (elim (Bool-cases (i == a)) [
        | inl e ↦
            rw (e, get_or-set (get_or rows i []) j b true false (omega (arith, c i hi)))
              (rw ((==_iff i a).0 e))
        | inr e ↦ rw e
      ])

length-set_pair :
    (n : ℕ) (rows : List (List Bool)) (i j k : ℕ)
    → length rows ≡ n
    → ((k : ℕ) → k < n → length (get_or rows k []) ≡ n)
    → i < n
    → k < n
    → length (get_or (set_pair rows i j) k []) ≡ n
length-set_pair n rows i j k l c hi hk =
    rw (get_or-set rows i k (set (get_or rows i []) j true) [] (omega arith))
      (elim (Bool-cases (i == k)) [
        | inl e ↦ rw (e, length-set (get_or rows i []) j true) (c i hi)
        | inr e ↦ rw e (c k hk)
      ])

unset_rows-set_pair :
    (n : ℕ) (rows : List (List Bool)) (i j : ℕ)
    → length rows ≡ n
    → i < n
    → unset_rows (set_pair rows i j) ≤ unset_rows rows
unset_rows-set_pair n rows i j l hi = omega (
  arith,
  unset_rows-set rows i (set (get_or rows i []) j true) (omega arith),
  unset-set-le (get_or rows i []) j,
)

unset_rows-set_pair_new :
    (n : ℕ) (rows : List (List Bool)) (i j : ℕ)
    → length rows ≡ n
    → length (get_or rows i []) ≡ n
    → i < n
    → j < n
    → get_or (get_or rows i []) j false ≡ false
    → unset_rows (set_pair rows i j) < unset_rows rows
unset_rows-set_pair_new n rows i j l c hi hj e = omega (
  arith,
  unset_rows-set rows i (set (get_or rows i []) j true) (omega arith),
  unset-set (get_or rows i []) j (omega arith) e,
)

-- Both writes of `mark_co_reachable`.
module _ (n : ℕ) (s : Tables) (v : Shape n s) (i j : ℕ) (hi : i < n) (hj : j < n) where
  abbrev once : List (List Bool)
  once = set_pair s.co_reachable i j

  abbrev twice : List (List Bool)
  twice = set_pair once j i

  length-once : length once ≡ n
  length-once = length-set s.co_reachable i _ ∙ v.rows

  columns-once : (k : ℕ) → k < n → length (get_or once k []) ≡ n
  columns-once k hk = length-set_pair n s.co_reachable i j k v.rows v.columns hi hk

  get-twice :
      (a b : ℕ)
      → get_or (get_or twice a []) b false
        ≡ (if (i == a) && (j == b) || (j == a) && (i == b) then true else is_co_reachable s a b)
  get-twice a b =
      rw
        (
          set_pair_lem n once j i a b length-once columns-once hj hi,
          set_pair_lem n s.co_reachable i j a b v.rows v.columns hi hj,
        )
        (ground arith)

  written : Tables
  written = record s { co_reachable = twice; changed = true }

  written-Shape : Shape n written
  unfolding written
  written-Shape = record {
    facts = v.facts;
    rows = length-set once j _ ∙ length-once;
    columns = λ k hk. length-set_pair n once j i k length-once columns-once hj hk;
    symmetric = λ a b. rw (get-twice a b, get-twice b a, v.symmetric a b) (ground arith);
  }

  written-Grows : is_co_reachable s i j ≡ false → Grows n s written
  unfolding written
  written-Grows new = record {
    shape = written-Shape;
    falls = inr (
      refl,
      omega (
        arith,
        unset_rows-set_pair_new n s.co_reachable i j v.rows (v.columns i hi) hi hj new,
        unset_rows-set_pair n once j i length-once hj,
      ),
    );
    reach = λ k e. e;
    co_reach = λ a b e. rw (get-twice a b, e) (ground arith);
  }

  pub note-Grows : Grows n s (note s i j)
  unfolding note mark_co_reachable written
  note-Grows = elim (Bool-cases (is_co_reachable s i j)) [
    | inl e ↦ rw (e, note) (Grows-refl n s v)
    | inr e ↦ rw (e, note) (written-Grows e)
  ]

  pub note_marks : is_co_reachable (note s i j) i j ≡ true
  unfolding note mark_co_reachable
  note_marks = elim (Bool-cases (is_co_reachable s i j)) [
    | inl e ↦ rw (e, note) e
    | inr e ↦ rw (e, note, get-twice i j) (ground arith)
  ]

  -- The same of `mark_co_reachable` by itself, as phase 1 calls it.
  pub marked-Shape : Shape n (mark_co_reachable s i j).0
  unfolding mark_co_reachable written
  marked-Shape = elim (Bool-cases (is_co_reachable s i j)) [
    | inl e ↦ rw (e, mark_co_reachable) v
    | inr e ↦
        rw (e, mark_co_reachable)
          (record {
            facts = v.facts;
            rows = written-Shape.rows;
            columns = written-Shape.columns;
            symmetric = written-Shape.symmetric;
          })
  ]

  pub marked_keeps :
      (a b : ℕ)
      → is_co_reachable s a b ≡ true
      → is_co_reachable (mark_co_reachable s i j).0 a b ≡ true
  unfolding mark_co_reachable
  marked_keeps a b h = elim (Bool-cases (is_co_reachable s i j)) [
    | inl e ↦ rw (e, mark_co_reachable) h
    | inr e ↦ rw (e, mark_co_reachable, get-twice a b, h) (ground arith)
  ]

  pub marked_reach : (k : ℕ) → is_reachable (mark_co_reachable s i j).0 k ≡ is_reachable s k
  unfolding mark_co_reachable
  marked_reach k = elim (Bool-cases (is_co_reachable s i j)) [
    | inl e ↦ rw (e, mark_co_reachable) refl
    | inr e ↦ rw (e, mark_co_reachable) refl
  ]

  pub marked_marks : is_co_reachable (mark_co_reachable s i j).0 i j ≡ true
  unfolding mark_co_reachable
  marked_marks = elim (Bool-cases (is_co_reachable s i j)) [
    | inl e ↦ rw (e, mark_co_reachable) e
    | inr e ↦ rw (e, mark_co_reachable, get-twice i j) (ground arith)
  ]

  pub mark_reachable-Grows : Grows n s (mark_reachable s i)
  unfolding mark_reachable
  mark_reachable-Grows = elim (Bool-cases (is_reachable s i)) [
    | inl e ↦ rw (e, mark_reachable) (Grows-refl n s v)
    | inr e ↦
        rw (e, mark_reachable)
          (record {
            shape = record {
              facts = length-set s.reachable i true ∙ v.facts;
              rows = v.rows;
              columns = v.columns;
              symmetric = v.symmetric;
            };
            falls = inr (refl, omega (arith, unset-set s.reachable i (omega (arith, v.facts)) e));
            reach = λ k h.
                rw (get_or-set s.reachable i k true false (omega (arith, v.facts)), h)
                  (ground arith);
            co_reach = λ a b h. h;
          })
  ]

  pub mark_reachable_marks : is_reachable (mark_reachable s i) i ≡ true
  unfolding mark_reachable
  mark_reachable_marks = elim (Bool-cases (is_reachable s i)) [
    | inl e ↦ rw (e, mark_reachable) e
    | inr e ↦
        rw (e, mark_reachable, get_or-set s.reachable i i true false (omega (arith, v.facts)))
          (ground arith)
  ]
