-- ===== src/Grounding/FactIndex/Contract.antt =====
-- What the index promises: the enumeration of a fluent's facts and the membership test agree, and
-- `add_fact` adds one fact.
use ran_tan_plan.Prelude.{
  int_beq, int_beq_refl, int_beq→eq, ℕ, zero, suc, ◌+◌, ◌<◌, ◌≡◌, refl, sym, ap, ◌∙◌, subst, ◌↔◌,
  inl, inr, Bool, true, false, not, ◌&&◌, ◌||◌, List, [], ◌∷◌, ◌++◌, arith, length, get_or, set,
  ltb, ◌==◌, if◌then◌else◌, Bool-cases, In, Distinct, ⊎_elim, get_or-set, length-set, length-append,
  ==_iff, In-append_left, In-append_right, In-append, true-ne-false, pos, lt→ltb, and_left,
  and_right,
}
use ran_tan_plan.Grounding.FactIndex.{Tuple, FactIndex, tuple_beq, member, add_fact, contains_fact}

pub tuple_beq→eq : (s t : Tuple) → tuple_beq s t ≡ true → s ≡ t
unfolding tuple_beq
tuple_beq→eq [] [] h = refl
tuple_beq→eq [] (b ∷ t) h = cc
tuple_beq→eq (a ∷ s) [] h = cc
tuple_beq→eq (a ∷ s) (b ∷ t) h =
    let head = int_beq→eq a b (and_left (int_beq a b) (tuple_beq s t) h) in
    let rest = tuple_beq→eq s t (and_right (int_beq a b) (tuple_beq s t) h) in cc

pub tuple_beq_refl : (t : Tuple) → tuple_beq t t ≡ true
unfolding tuple_beq
tuple_beq_refl [] = refl
tuple_beq_refl (a ∷ t) = rw (int_beq_refl a, tuple_beq_refl t)

pub member→In : (t : Tuple) (xs : List Tuple) → member t xs ≡ true → In t xs
unfolding member
member→In t [] h = cc
member→In t (x ∷ xs) h = elim (Bool-cases (tuple_beq x t)) [
  | inl e ↦ inl (sym (tuple_beq→eq x t e))
  | inr e ↦ inr (member→In t xs (rw (e, member) at h))
]

pub In→member : (t : Tuple) (xs : List Tuple) → In t xs → member t xs ≡ true
unfolding member
In→member t [] m = absurd m
In→member t (x ∷ xs) (inl e) =
    let same : tuple_beq x t ≡ true = subst (λ y. tuple_beq y t ≡ true) e (tuple_beq_refl t) in
    rw same
In→member t (x ∷ xs) (inr m) = either (tuple_beq x t) (In→member t xs m)
  where
    either : {rest : Bool} (b : Bool) → rest ≡ true → (if b then true else rest) ≡ true
    either true h = refl
    either false h = h

unfoldable pub sum_lengths : List (List Tuple) → ℕ
sum_lengths [] = 0
sum_lengths (r ∷ rows) = length r + sum_lengths rows

sum_lengths-set :
    (rows : List (List Tuple)) (i : ℕ) (t : Tuple)
    → i < length rows
    → sum_lengths (set rows i (get_or rows i [] ++ t ∷ [])) ≡ suc (sum_lengths rows)
unfolding sum_lengths
sum_lengths-set [] i t h = absurd (omega arith)
sum_lengths-set (r ∷ rows) zero t h = omega (arith, length-append r (t ∷ []))
sum_lengths-set (r ∷ rows) (suc i) t h = omega (arith, sum_lengths-set rows i t (omega arith))

-- For n fluents: both stores have the same facts, each listed once, and the count is right.
pub record IsIndex (n : ℕ) (f : FactIndex) : Type 0 where
  pub buckets : length f.facts_by_fluent ≡ n
  pub sets : length f.fact_sets ≡ n
  pub listed :
      (s : ℕ) (t : Tuple) → In t (get_or f.facts_by_fluent s []) ↔ In t (get_or f.fact_sets s [])
  pub distinct : (s : ℕ) → Distinct (get_or f.facts_by_fluent s [])
  pub total : f.total_facts ≡ sum_lengths f.facts_by_fluent

Distinct-snoc : (l : List Tuple) (a : Tuple) → Distinct l → ¬ In a l → Distinct (l ++ a ∷ [])
Distinct-snoc [] a d h = ((λ m. m), tt)
Distinct-snoc (x ∷ l) a d h = (
  (λ m. ⊎_elim d.0 (λ k. ⊎_elim (λ e. h (inl (sym e))) (λ n. n) k) (In-append x l (a ∷ []) m)),
  Distinct-snoc l a d.1 (λ m. h (inr m)),
)

contains-bag :
    (f : FactIndex) (s : ℕ) (t : Tuple)
    → ltb s (length f.fact_sets) ≡ true
    → contains_fact f (pos s) t ≡ member t (get_or f.fact_sets s [])
unfolding contains_fact
contains-bag f s t low = rw low

module _ (n : ℕ) (f : FactIndex) (s : ℕ) (t : Tuple) (i : IsIndex n f) (lt : s < n) where
  abbrev bucket : ℕ → List Tuple
  bucket k = get_or f.facts_by_fluent k []

  abbrev bag : ℕ → List Tuple
  bag k = get_or f.fact_sets k []

  abbrev added : FactIndex
  added = record {
    facts_by_fluent = set f.facts_by_fluent s (bucket s ++ t ∷ []);
    fact_sets = set f.fact_sets s (t ∷ bag s);
    total_facts = suc f.total_facts;
  }

  bucket-added :
      (k : ℕ)
      → get_or added.facts_by_fluent k [] ≡ (if s == k then bucket s ++ t ∷ [] else bucket k)
  bucket-added k =
      get_or-set f.facts_by_fluent s k (bucket s ++ t ∷ []) [] (omega (arith, i.buckets))

  bag-added : (k : ℕ) → get_or added.fact_sets k [] ≡ (if s == k then t ∷ bag s else bag k)
  bag-added k = get_or-set f.fact_sets s k (t ∷ bag s) [] (omega (arith, i.sets))

  same_facts : (u : Tuple) → In u (bucket s ++ t ∷ []) ↔ In u (t ∷ bag s)
  same_facts u = (
    (λ m.
        ⊎_elim (λ k. inr ((i.listed s u).0 k)) (⊎_elim inl (λ k. absurd k))
          (In-append u (bucket s) (t ∷ []) m)),
    ⊎_elim (λ e. In-append_right u (bucket s) (t ∷ []) (inl e))
        (λ k. In-append_left u (bucket s) (t ∷ []) ((i.listed s u).1 k)),
  )

  added-IsIndex : ¬ In t (bag s) → IsIndex n added
  added-IsIndex fresh = record {
    buckets = length-set f.facts_by_fluent s _ ∙ i.buckets;
    sets = length-set f.fact_sets s _ ∙ i.sets;
    listed = λ k u. rw (bucket-added k, bag-added k) (pick k u (s == k));
    distinct = λ k. rw (bucket-added k) (unique k (s == k));
    total = ap suc i.total ∙ sym (sum_lengths-set f.facts_by_fluent s t (omega (arith, i.buckets)));
  }
    where
      pick :
          (k : ℕ) (u : Tuple) (b : Bool)
          → In u (if b then bucket s ++ t ∷ [] else bucket k)
            ↔ In u (if b then t ∷ bag s else bag k)
      pick k u true = same_facts u
      pick k u false = i.listed k u

      unique : (k : ℕ) (b : Bool) → Distinct (if b then bucket s ++ t ∷ [] else bucket k)
      unique k true = Distinct-snoc (bucket s) t (i.distinct s) (λ m. fresh ((i.listed s t).0 m))
      unique k false = i.distinct k

  added-contains :
      (k : ℕ) (u : Tuple)
      → contains_fact added (pos k) u ≡ (contains_fact f (pos k) u || ((s == k) && tuple_beq t u))
  unfolding contains_fact member
  added-contains k u =
      rw (length-set f.fact_sets s (t ∷ bag s), bag-added k)
        (elim (Bool-cases (s == k)) [
          | inl e ↦
              let same : s ≡ k = (==_iff s k).0 e in
              let low : ltb k (length f.fact_sets) ≡ true = ground (arith, i.sets) in
              rw (e, low, same) (flip (tuple_beq t u) (member u (bag k)))
          | inr e ↦ rw e (plain (if ltb k (length f.fact_sets) then member u (bag k) else false))
        ])
    where
      flip : (a b : Bool) → (if a then true else b) ≡ (b || a)
      flip true true = refl
      flip true false = refl
      flip false true = refl
      flip false false = refl

      plain : (a : Bool) → a ≡ (a || false)
      plain true = refl
      plain false = refl

  -- For a fluent that has a bucket, `add_fact` keeps the index well formed, reports whether the fact was
  -- missing, and afterwards the index contains that fact and what it contained before.
  pub add_fact_lem :
      IsIndex n (add_fact f s t).1
      × ((add_fact f s t).0 ≡ not (contains_fact f (pos s) t))
      × ((k : ℕ) (u : Tuple)
          → contains_fact (add_fact f s t).1 (pos k) u
            ≡ (contains_fact f (pos k) u || ((s == k) && tuple_beq t u)))
  unfolding add_fact
  add_fact_lem = elim (Bool-cases (member t (bag s))) [
    | inl old ↦ rw (old, add_fact) (i, sym (ap not (here true old)), λ k u. known k u old)
    | inr new ↦
        rw (new, add_fact)
          (
            added-IsIndex (λ m. true-ne-false (In→member t (bag s) m) new),
            sym (ap not (here false new)),
            added-contains,
          )
  ]
    where
      low : ltb s (length f.fact_sets) ≡ true
      low = lt→ltb s (length f.fact_sets) (omega (arith, i.sets))

      here : (b : Bool) → member t (bag s) ≡ b → contains_fact f (pos s) t ≡ b
      here b e = contains-bag f s t low ∙ e

      or_known : (x c : Bool) → (c ≡ true → x ≡ true) → x ≡ (x || c)
      or_known true c h = refl
      or_known false true h = h refl
      or_known false false h = refl

      known :
          (k : ℕ) (u : Tuple)
          → member t (bag s) ≡ true
          → contains_fact f (pos k) u ≡ (contains_fact f (pos k) u || ((s == k) && tuple_beq t u))
      known k u old = or_known _ _ (λ c.
          let at_k : s ≡ k = (==_iff s k).0 (and_left (s == k) (tuple_beq t u) c) in
          let is_u : t ≡ u = tuple_beq→eq t u (and_right (s == k) (tuple_beq t u) c) in
          rw (← at_k, ← is_u) (here true old))
