-- ===== src/Propagator/Cycle/Dfs.antt =====
-- The search for a cycle: what a call finds is a cycle, and a call that finds none has put its node
-- behind all that the node interferes with.
use ran_tan_plan.Prelude.{
  ℕ, zero, suc, ◌<◌, ◌≤◌, ◌≡◌, refl, sym, ap, ◌∙◌, subst, ◌↔◌, ◌⊎◌, inl, inr, Bool, true, false,
  ◌&&◌, Option, none, some, List, [], ◌∷◌, ◌++◌, arith, contains, if◌then◌else◌, ◌>>=◌, In,
  Distinct, Bool-cases, contains→In, In→contains, ⊎_elim, true-ne-false, and_left, and_right,
  split_snoc, Distinct-snoc, In-append, In-append_left, In-append_right,
}
use ran_tan_plan.Propagator.{insert}
use ran_tan_plan.Propagator.Trail.{In-insert, In-erase}
use ran_tan_plan.Propagator.Cycle.{
  Search, Verdict, drop_until, drop_last, enter, leave, and_then, scan, dfs,
}
use ran_tan_plan.Propagator.Cycle.Walks.{
  Edge, Extends, IsCycle, Extends-snoc, drop_until-IsCycle, drop_last-snoc,
}

-- How many of the active actions have not been visited.
abbrev pub unseen : List ℕ → List ℕ → ℕ
unseen visited [] = 0
unseen visited (x ∷ xs) = if contains visited x then unseen visited xs else suc (unseen visited xs)

pub unseen-anti : (v w xs : List ℕ) → ((x : ℕ) → In x v → In x w) → unseen w xs ≤ unseen v xs
unseen-anti v w [] h = omega arith
unseen-anti v w (x ∷ xs) h = elim (Bool-cases (contains v x)) [
  | inl e ↦ let k = In→contains w x (h x (contains→In v x e)) in rw (e, k) (unseen-anti v w xs h)
  | inr e ↦ elim (Bool-cases (contains w x)) [
    | inl k ↦ rw (e, k) (omega (arith, unseen-anti v w xs h))
    | inr k ↦ rw (e, k) (omega (arith, unseen-anti v w xs h))
  ]
]

unseen-lt :
    (v w xs : List ℕ) (u : ℕ)
    → ((x : ℕ) → In x v → In x w)
    → In u xs
    → contains v u ≡ false
    → In u w
    → unseen w xs < unseen v xs
unseen-lt v w [] u h m new hit = absurd m
unseen-lt v w (x ∷ xs) u h (inl e) new hit =
    let same = subst (λ y. contains v y ≡ false) e new in
    let there = In→contains w x (subst (λ y. In y w) e hit) in
    rw (same, there) (omega (arith, unseen-anti v w xs h))
unseen-lt v w (x ∷ xs) u h (inr m) new hit = elim (Bool-cases (contains v x)) [
  | inl e ↦
      let k = In→contains w x (h x (contains→In v x e)) in
      rw (e, k) (unseen-lt v w xs u h m new hit)
  | inr e ↦ elim (Bool-cases (contains w x)) [
    | inl k ↦ rw (e, k) (omega (arith, unseen-lt v w xs u h m new hit))
    | inr k ↦ rw (e, k) (omega (arith, unseen-lt v w xs u h m new hit))
  ]
]

module _ (active : List ℕ) (potential : ℕ → List ℕ) (has_interference : ℕ → ℕ → Bool) where
  -- Every listed action stands behind all that it interferes with.
  abbrev pub Behind : List ℕ → Type 0
  Behind l =
      (front : List ℕ) (u : ℕ) (back : List ℕ)
      → l ≡ front ++ u ∷ back
      → (v : ℕ) → Edge active potential has_interference u v
      → In v front

  -- The sets between calls: `finished` lists the actions whose calls have returned, `path` those whose
  -- calls have not.
  pub record Inv (finished path : List ℕ) (s : Search) : Type 0 where
    pub on_path : s.path ≡ path
    pub stack : (v : ℕ) → In v s.recursion_stack ↔ In v path
    pub seen : (v : ℕ) → In v s.visited ↔ (In v finished ⊎ In v path)
    pub apart : (v : ℕ) → In v path → ¬ In v finished
    pub distinct : Distinct finished
    pub inside : (v : ℕ) → In v finished → In v active
    pub behind : Behind finished

  -- What a call for an action leaves if it finds no cycle.
  pub record Left (finished path : List ℕ) (s : Search) (u : ℕ) (s' : Search) : Type 0 where
    pub now : List ℕ
    pub inv : Inv now path s'
    pub keeps : (v : ℕ) → In v finished → In v now
    pub hit : In u now
    pub grows : (v : ℕ) → In v s.visited → In v s'.visited

  abbrev pub Good : List ℕ → List ℕ → Search → ℕ → Verdict → Type 0
  Good finished path s u (some c, s') = IsCycle active potential has_interference c
  Good finished path s u (none, s') = Left finished path s u s'

  abbrev pub CallOk : (ℕ → Search → Option Verdict) → ℕ → Type 0
  CallOk call k =
      (finished path : List ℕ) (u : ℕ) (s : Search)
      → Inv finished path s
      → Extends active potential has_interference path u
      → In u active
      → contains s.visited u ≡ false
      → unseen s.visited active ≤ k
      → (r : Verdict) × (call u s ≡ some r) × Good finished path s u r

  enter-Inv :
      (finished path : List ℕ) (u : ℕ) (s : Search)
      → Inv finished path s
      → contains s.visited u ≡ false
      → Inv finished (path ++ u ∷ []) (enter u s)
  unfolding enter
  enter-Inv finished path u s i new = record {
    on_path = ap (λ l. l ++ u ∷ []) i.on_path;
    stack = λ v. (
      (λ m.
          ⊎_elim (λ e. In-append_right v path (u ∷ []) (inl e))
            (λ k. In-append_left v path (u ∷ []) ((i.stack v).0 k))
            ((In-insert u v s.recursion_stack).0 m)),
      (λ m. (In-insert u v s.recursion_stack).1 (
          ⊎_elim (λ k. inr ((i.stack v).1 k)) (λ k. ⊎_elim (λ e. inl e) (λ n. absurd n) k)
            (In-append v path (u ∷ []) m))),
    );
    seen = λ v. (
      (λ m.
          ⊎_elim (λ e. inr (In-append_right v path (u ∷ []) (inl e)))
            (λ k.
              ⊎_elim (λ d. inl d) (λ d. inr (In-append_left v path (u ∷ []) d)) ((i.seen v).0 k))
            ((In-insert u v s.visited).0 m)),
      (λ m. (In-insert u v s.visited).1 (
          ⊎_elim (λ d. inr ((i.seen v).1 (inl d)))
            (λ k.
              ⊎_elim (λ d. inr ((i.seen v).1 (inr d))) (λ d. ⊎_elim (λ e. inl e) (λ n. absurd n) d)
                (In-append v path (u ∷ []) k))
            m)),
    );
    apart = λ v m.
        ⊎_elim (i.apart v)
          (λ k.
            ⊎_elim
              (λ e. λ d.
                true-ne-false
                  (In→contains s.visited u ((i.seen u).1 (inl (subst (λ y. In y finished) e d))))
                  new)
              (λ n. absurd n) k)
          (In-append v path (u ∷ []) m);
    distinct = i.distinct;
    inside = i.inside;
    behind = i.behind;
  }

  leave-Inv :
      (finished path : List ℕ) (u : ℕ) (s : Search)
      → Inv finished (path ++ u ∷ []) s
      → ¬ In u path
      → In u active
      → ((v : ℕ) → Edge active potential has_interference u v → In v finished)
      → Inv (finished ++ u ∷ []) path (leave u s)
  unfolding leave
  leave-Inv finished path u s i new member all = record {
    on_path = ap drop_last i.on_path ∙ drop_last-snoc path u;
    stack = λ v. (
      (λ m.
          let k = (In-erase u v s.recursion_stack).0 m in
          ⊎_elim (λ d. d) (λ d. ⊎_elim (λ e. absurd (k.0 e)) (λ n. absurd n) d)
            (In-append v path (u ∷ []) ((i.stack v).0 k.1))),
      (λ m. (In-erase u v s.recursion_stack).1 (
        (λ e. new (subst (λ y. In y path) e m)),
        (i.stack v).1 (In-append_left v path (u ∷ []) m),
      )),
    );
    seen = λ v. (
      (λ m.
          ⊎_elim (λ d. inl (In-append_left v finished (u ∷ []) d))
            (λ d.
              ⊎_elim (λ k. inr k)
                (λ k.
                  ⊎_elim (λ e. inl (In-append_right v finished (u ∷ []) (inl e))) (λ n. absurd n) k)
                (In-append v path (u ∷ []) d))
            ((i.seen v).0 m)),
      (λ m. (i.seen v).1 (
          ⊎_elim
            (λ d.
              ⊎_elim (λ k. inl k) (λ k. inr (In-append_right v path (u ∷ []) k))
                (In-append v finished (u ∷ []) d))
            (λ d. inr (In-append_left v path (u ∷ []) d)) m)),
    );
    apart = λ v m. λ d.
        ⊎_elim (λ k. i.apart v (In-append_left v path (u ∷ []) m) k)
          (λ k. ⊎_elim (λ e. new (subst (λ y. In y path) e m)) (λ n. n) k)
          (In-append v finished (u ∷ []) d);
    distinct =
        Distinct-snoc finished u i.distinct
          (i.apart u (In-append_right u path (u ∷ []) (inl refl)));
    inside = λ v m.
        ⊎_elim (i.inside v)
          (λ k. ⊎_elim (λ e. subst (λ y. In y active) (sym e) member) (λ n. absurd n) k)
          (In-append v finished (u ∷ []) m);
    behind = λ front x back e v edge.
        ⊎_elim (λ older. i.behind front x older.0 older.1 v edge)
          (λ last.
            subst (λ l. In v l) (sym last.0)
              (all v (subst (λ y. Edge active potential has_interference y v) last.1 edge)))
          (split_snoc finished u front x back e);
  }

  module _ (call : ℕ → Search → Option Verdict) (k : ℕ) (ok : CallOk call k) (path : List ℕ) (u : ℕ)
      (along : Extends active potential has_interference path u) (new : ¬ In u path)
      (member : In u active) where
    -- What is left after a call for a neighbour and the rest of the loop.
    chain-Left :
        (finished : List ℕ) (s : Search) (o : ℕ) (s1 s2 : Search)
        → (l : Left finished (path ++ u ∷ []) s o s1) → Left l.now path s1 u s2
        → Left finished path s u s2
    chain-Left finished s o s1 s2 l r = record {
      now = r.now;
      inv = r.inv;
      keeps = λ v m. r.keeps v (l.keeps v m);
      hit = r.hit;
      grows = λ v m. r.grows v (l.grows v m);
    }

    widen :
        (finished : List ℕ) (s : Search) (o : ℕ) (s1 : Search)
        → (l : Left finished (path ++ u ∷ []) s o s1) → (r : Verdict) → Good l.now path s1 u r
        → Good finished path s u r
    widen finished s o s1 l (some c, s2) g = g
    widen finished s o s1 l (none, s2) g = chain-Left finished s o s1 s2 l g

    -- The recursive call for `o`, then the rest of the loop.
    proceed :
        (os : List ℕ) (finished : List ℕ) (s : Search) (o : ℕ) (r : Verdict)
        → call o s ≡ some r
        → Good finished (path ++ u ∷ []) s o r
        → ((s1 : Search)
            → Left finished (path ++ u ∷ []) s o s1
            → (r2 : Verdict) × (scan active potential has_interference call u os s1 ≡ some r2)
              × Good finished path s u r2)
        → (r2 : Verdict) × ((call o s
              >>= and_then (scan active potential has_interference call u os))
            ≡ some r2)
          × Good finished path s u r2
    proceed os finished s o (some c, s1) e g rest = ((some c, s1), rw e refl, g)
    proceed os finished s o (none, s1) e l rest = let (r2, e2, g2) = rest s1 l in (r2, rw e e2, g2)

    scan_lem :
        (os : List ℕ) (finished : List ℕ) (s : Search)
        → ((o : ℕ) → In o os → In o (potential u))
        → ((o : ℕ) → Edge active potential has_interference u o → In o finished ⊎ In o os)
        → Inv finished (path ++ u ∷ []) s
        → unseen s.visited active ≤ k
        → (r : Verdict) × (scan active potential has_interference call u os s ≡ some r)
          × Good finished path s u r
    unfolding scan leave
    scan_lem [] finished s sub all i enough = (
      (none, leave u s),
      refl,
      record {
        now = finished ++ u ∷ [];
        inv =
            leave-Inv finished path u s i new member
              (λ v e. ⊎_elim (λ m. m) (λ m. absurd m) (all v e));
        keeps = λ v m. In-append_left v finished (u ∷ []) m;
        hit = In-append_right u finished (u ∷ []) (inl refl);
        grows = λ v m. m;
      },
    )
    scan_lem (o ∷ os) finished s sub all i enough =
        let skip : (Edge active potential has_interference u o → In o finished)
            → (r : Verdict) × (scan active potential has_interference call u os s ≡ some r)
              × Good finished path s u r =
          λ h.
            scan_lem os finished s (λ x m. sub x (inr m))
              (λ v e.
                ⊎_elim (λ m. inl m)
                  (λ m.
                    ⊎_elim
                      (λ same. inl (
                        subst (λ y. In y finished) (sym same)
                          (h (subst (λ y. Edge active potential has_interference u y) same e))))
                      (λ l. inr l) m)
                  (all v e))
              i enough in
        elim (Bool-cases (contains active o && has_interference u o)) [
          | inr away ↦
              let (r, e, g) =
                skip (λ edge.
                  absurd (true-ne-false (both (In→contains active o edge.1) edge.2) away)) in
              (r, rw away e, g)
          | inl near ↦
              let edge : Edge active potential has_interference u o = (
                sub o (inl refl),
                contains→In active o (and_left (contains active o) (has_interference u o) near),
                and_right (contains active o) (has_interference u o) near,
              ) in
              let ahead = Extends-snoc active potential has_interference path u o along edge in
              elim (Bool-cases (contains s.recursion_stack o)) [
                | inl on ↦ (
                  (some (drop_until o s.path), s),
                  rw (near, on) refl,
                  cycle (
                      drop_until-IsCycle active potential has_interference (path ++ u ∷ []) o
                        ((i.stack o).0 (contains→In s.recursion_stack o on)) ahead),
                )
                | inr off ↦ elim (Bool-cases (contains s.visited o)) [
                  | inl old ↦
                      let (r, e, g) = skip (λ x. done off (contains→In s.visited o old)) in
                      (r, rw (near, off, old) e, g)
                  | inr fresh ↦
                      let (r1, e1, g1) =
                        ok finished (path ++ u ∷ []) o s i ahead edge.1 fresh enough in
                      let (r, e, g) = proceed os finished s o r1 e1 g1 (λ s1 l.
                        let (r2, e2, g2) =
                          scan_lem os l.now s1 (λ x m. sub x (inr m))
                            (λ v x.
                              ⊎_elim (λ m. inl (l.keeps v m))
                                (λ m.
                                  ⊎_elim (λ same. inl (subst (λ y. In y l.now) (sym same) l.hit))
                                    (λ n. inr n) m)
                                (all v x))
                            l.inv
                            (omega (arith, unseen-anti s.visited s1.visited active l.grows)) in
                        (r2, e2, widen finished s o s1 l r2 g2)) in
                      (r, rw (near, off, fresh) e, g)
                ]
              ]
        ]
      where
        both :
            contains active o ≡ true
            → has_interference u o ≡ true
            → (contains active o && has_interference u o) ≡ true
        both a b = rw (a, b) refl

        done : contains s.recursion_stack o ≡ false → In o s.visited → In o finished
        done off m =
            ⊎_elim (λ d. d)
              (λ d. absurd (true-ne-false (In→contains s.recursion_stack o ((i.stack o).1 d)) off))
              ((i.seen o).0 m)

        cycle :
            IsCycle active potential has_interference (drop_until o (path ++ u ∷ []))
            → IsCycle active potential has_interference (drop_until o s.path)
        cycle c =
            subst (λ l. IsCycle active potential has_interference (drop_until o l)) (sym i.on_path)
              c

  -- With fuel for the actions that have not been visited, a call returns: a cycle, or its action behind
  -- all that it interferes with.
  pub dfs_lem : (fuel : ℕ) → CallOk (dfs active potential has_interference fuel) fuel
  unfolding dfs enter
  dfs_lem zero finished path u s i along member new enough = absurd (
      omega
        (arith, unseen-lt s.visited (u ∷ s.visited) active u (λ x m. inr m) member new (inl refl)))
  dfs_lem (suc fuel) finished path u s i along member new enough =
      let larger : (x : ℕ) → In x s.visited → In x (insert u s.visited) =
        λ x m. (In-insert u x s.visited).1 (inr m) in
      let fewer =
        unseen-lt s.visited (insert u s.visited) active u larger member new
          ((In-insert u u s.visited).1 (inl refl)) in
      let (r, e, g) =
        scan_lem (dfs active potential has_interference fuel) fuel (dfs_lem fuel) path u along fresh
          member (potential u) finished (enter u s) (λ o m. m) (λ o edge. inr edge.0)
          (enter-Inv finished path u s i new) (omega arith) in
      (r, e, outer larger r g)
    where
      fresh : ¬ In u path
      fresh m = true-ne-false (In→contains s.visited u ((i.seen u).1 (inr m))) new

      outer :
          ((x : ℕ) → In x s.visited → In x (insert u s.visited))
          → (r : Verdict) → Good finished path (enter u s) u r
          → Good finished path s u r
      outer larger (some c, s') g = g
      outer larger (none, s') l = record {
        now = l.now;
        inv = l.inv;
        keeps = l.keeps;
        hit = l.hit;
        grows = λ v m. l.grows v (larger v m);
      }
