-- ===== src/Propagator/Cycle/Correct.antt =====
-- What `find_cycle_in_active_actions` reports.
use ran_tan_plan.Prelude.{
  ℕ, ◌≤◌, ◌<◌, ◌≡◌, refl, sym, ◌∙◌, subst, ◌↔◌, inl, inr, Bool, Option, none, some, List, [], ◌∷◌,
  ◌++◌, arith, length, contains, ltb, ◌>>=◌, In, Distinct, Bool-cases, contains→In, ⊎_elim, ltb→lt,
}
use ran_tan_plan.Propagator.Cycle.{
  Search, Verdict, and_then, dfs, roots, find_cycle_in_active_actions,
}
use ran_tan_plan.Propagator.Cycle.Walks.{Edge, IsCycle}
use ran_tan_plan.Propagator.Cycle.Dfs.{unseen, unseen-anti, Inv, Left, Good, CallOk, dfs_lem}

unseen-le-length : (v xs : List ℕ) → unseen v xs ≤ length xs
unseen-le-length v [] = omega arith
unseen-le-length v (x ∷ xs) = elim (Bool-cases (contains v x)) [
  | inl e ↦ rw e (omega (arith, unseen-le-length v xs))
  | inr e ↦ rw e (omega (arith, unseen-le-length v xs))
]

nil-ne-split : (front : List ℕ) (u : ℕ) (back : List ℕ) → [] ≡ front ++ u ∷ back → ⊥
nil-ne-split [] u back e = cc
nil-ne-split (x ∷ front) u back e = cc

single_split : (x : ℕ) (front : List ℕ) (u : ℕ) (back : List ℕ) → x ∷ [] ≡ front ++ u ∷ back → u ≡ x
single_split x [] u back e = cc
single_split x (y ∷ front) u back e = absurd (nil-ne-split front u back (cc))

module _ (active : List ℕ) (potential : ℕ → List ℕ) (has_interference : ℕ → ℕ → Bool) where
  -- An order in which every active action stands behind all the actions that it interferes with.
  pub record IsOrder (l : List ℕ) : Type 0 where
    pub distinct : Distinct l
    pub members : (v : ℕ) → In v l ↔ In v active
    pub behind :
        (front : List ℕ) (u : ℕ) (back : List ℕ)
        → l ≡ front ++ u ∷ back
        → (v : ℕ) → Edge active potential has_interference u v
        → In v front

  -- What the answer says.
  abbrev pub Says : Option (List ℕ) → Type 0
  Says (some c) = IsCycle active potential has_interference c
  Says none = (l : List ℕ) × IsOrder l

  -- The loop over the active actions.
  RootsSay : List ℕ → List ℕ → Verdict → Type 0
  RootsSay us finished (some c, s) = IsCycle active potential has_interference c
  RootsSay us finished (none, s) =
      (now : List ℕ) × Inv active potential has_interference now [] s
      × ((v : ℕ) → In v finished → In v now)
      × ((v : ℕ) → In v us → In v now)

  module _ (call : ℕ → Search → Option Verdict) (k : ℕ)
      (ok : CallOk active potential has_interference call k) where
    later :
        (u : ℕ) (us finished now : List ℕ)
        → ((v : ℕ) → In v finished → In v now)
        → In u now
        → (r : Verdict) → RootsSay us now r
        → RootsSay (u ∷ us) finished r
    unfolding RootsSay
    later u us finished now keeps hit (some c, s) g = g
    later u us finished now keeps hit (none, s) g = (
      g.0,
      g.1,
      (λ v m. g.2 v (keeps v m)),
      λ v m. ⊎_elim (λ e. g.2 v (subst (λ y. In y now) (sym e) hit)) (g.3 v) m,
    )

    roots_lem :
        (us finished : List ℕ) (s : Search)
        → ((u : ℕ) → In u us → In u active)
        → Inv active potential has_interference finished [] s
        → unseen s.visited active ≤ k
        → (r : Verdict) × (roots active potential has_interference call us s ≡ some r)
          × RootsSay us finished r
    unfolding roots RootsSay
    roots_lem [] finished s sub i enough =
        ((none, s), refl, (finished, i, (λ v m. m), (λ v m. absurd m)))
    roots_lem (u ∷ us) finished s sub i enough = elim (Bool-cases (contains s.visited u)) [
      | inl old ↦
          let (r, e, g) = roots_lem us finished s (λ v m. sub v (inr m)) i enough in
          let hit = ⊎_elim (λ m. m) (λ m. absurd m) ((i.seen u).0 (contains→In s.visited u old)) in
          (r, rw old e, later u us finished finished (λ v m. m) hit r g)
      | inr new ↦
          let (r1, e1, g1) = ok finished [] u s i tt (sub u (inl refl)) new enough in
          let (r, e, g) = proceed r1 e1 g1 (λ s1 l.
            let (r2, e2, g2) =
              roots_lem us l.now s1 (λ v m. sub v (inr m)) l.inv
                (omega (arith, unseen-anti s.visited s1.visited active l.grows)) in
            (r2, e2, later u us finished l.now l.keeps l.hit r2 g2)) in
          (r, rw new e, g)
    ]
      where
        proceed :
            (r : Verdict)
            → call u s ≡ some r
            → Good active potential has_interference finished [] s u r
            → ((s1 : Search)
                → Left active potential has_interference finished [] s u s1
                → (r2 : Verdict) × (roots active potential has_interference call us s1 ≡ some r2)
                  × RootsSay (u ∷ us) finished r2)
            → (r2 : Verdict) × ((call u s
                  >>= and_then (roots active potential has_interference call us))
                ≡ some r2)
              × RootsSay (u ∷ us) finished r2
        proceed (some c, s1) e g rest = ((some c, s1), rw e refl, g)
        proceed (none, s1) e l rest = let (r2, e2, g2) = rest s1 l in (r2, rw e e2, g2)

  abbrev begin : Search
  begin = record { visited = []; recursion_stack = []; path = [] }

  begin-Inv : Inv active potential has_interference [] [] begin
  begin-Inv = record {
    on_path = refl;
    stack = λ v. ((λ m. m), (λ m. m));
    seen = λ v. ((λ m. absurd m), ⊎_elim (λ m. m) (λ m. m));
    apart = λ v m. absurd m;
    distinct = tt;
    inside = λ v m. absurd m;
    behind = λ front u back e. absurd (nil-ne-split front u back e);
  }

  says : (r : Verdict) → RootsSay active [] r → Says r.0
  unfolding RootsSay
  says (some c, s) g = g
  says (none, s) g = (
    g.0,
    record { distinct = g.1.distinct; members = λ v. (g.1.inside v, g.3 v); behind = g.1.behind },
  )

  -- At most one action, which does not interfere with itself.
  few : length active < 2 → ((u : ℕ) → ¬ In u (potential u)) → (l : List ℕ) × IsOrder l
  few h self = one active refl h
    where
      one : (l : List ℕ) → l ≡ active → length l < 2 → (l' : List ℕ) × IsOrder l'
      one [] e h = (
        [],
        record {
          distinct = tt;
          members = λ v. ((λ m. absurd m), (λ m. subst (In v) (sym e) m));
          behind = λ front u back k. absurd (nil-ne-split front u back k);
        },
      )
      one (x ∷ []) e h = (
        x ∷ [],
        record {
          distinct = ((λ m. m), tt);
          members = λ v. ((λ m. subst (In v) e m), (λ m. subst (In v) (sym e) m));
          behind = λ front u back k v edge.
              let here = single_split x front u back k in
              let there : v ≡ x = ⊎_elim (λ q. q) (λ q. absurd q) (subst (In v) (sym e) edge.1) in
              absurd (self u (subst (λ y. In y (potential u)) (there ∙ sym here) edge.0));
        },
      )
      one (x ∷ y ∷ l) e h = absurd (omega arith)

-- The search returns. If no action is among its own potential interferers, then it reports a cycle
-- of active actions, each of which interferes with the next one and the last one with the first, or
-- there is an order of the active actions in which every action stands behind the actions among its
-- potential interferers with which it interferes.
pub find_cycle_lem :
    (active : List ℕ) (potential : ℕ → List ℕ) (has_interference : ℕ → ℕ → Bool)
    → ((u : ℕ) → ¬ In u (potential u))
    → (answer : Option (List ℕ)) × (find_cycle_in_active_actions active potential has_interference
        ≡ some answer)
      × Says active potential has_interference answer
unfolding find_cycle_in_active_actions
find_cycle_lem active potential has_interference self = elim (Bool-cases (ltb (length active) 2)) [
  | inl small ↦ (none, rw small refl, few active potential has_interference (ltb→lt _ _ small) self)
  | inr more ↦
      let (r, e, g) =
        roots_lem active potential has_interference
          (dfs active potential has_interference (length active)) (length active)
          (dfs_lem active potential has_interference (length active)) active []
          (begin active potential has_interference) (λ u m. m)
          (begin-Inv active potential has_interference) (unseen-le-length [] active) in
      (r.0, rw (more, e) refl, says active potential has_interference r g)
]
