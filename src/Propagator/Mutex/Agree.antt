-- ===== src/Propagator/Mutex/Agree.antt =====
-- The eager and the lazy module keep the same pairs of actions apart.
use ran_tan_plan.Prelude.{
  ℕ, ◌<◌, ◌≡◌, refl, sym, ◌∙◌, subst, ◌≢◌, ◌↔◌, ◌⊎◌, inl, inr, Bool, true, false, ◌||◌, Option,
  none, some, List, [], ◌∷◌, ◌==◌, ==_iff, In, ⊎_elim, Bool-cases, true-ne-false,
}
use ran_tan_plan.Graph.{Graph, num_nodes, get_neighbours, has_edge}
use ran_tan_plan.Graph.Edges.{has_edge→In, In→has_edge}
use ran_tan_plan.Propagator.{insert, update}
use ran_tan_plan.Propagator.Trail.{In-insert, In-update}
use ran_tan_plan.Propagator.Mutex.{
  note, note_neighbours, build_lookup, forbid, forall_on_fixed, conflicting, accuse, lazy_on_fixed,
}

abbrev Either : ℕ → ℕ → ℕ → ℕ → Type 0
Either a b x y = ((x ≡ a) × (y ≡ b)) ⊎ ((x ≡ b) × (y ≡ a))

In-update-insert :
    (f : ℕ → List ℕ) (a b x y : ℕ)
    → In y (update f a (insert b (f a)) x) ↔ (In y (f x) ⊎ (x ≡ a) × (y ≡ b))
In-update-insert f a b x y = (
  λ h.
      ⊎_elim
        (λ k.
          ⊎_elim (λ e. inr (k.0, e)) (λ l. inl (subst (λ v. In y (f v)) (sym k.0) l))
            ((In-insert b y (f a)).0 k.1))
        (λ k. inl k.1) ((In-update f a x y (insert b (f a))).0 h),
  λ h. (In-update f a x y (insert b (f a))).1 (elim (Bool-cases (x == a)) [
    | inl e ↦
        let same : x ≡ a = (==_iff x a).0 e in
        inl (
          same,
          (In-insert b y (f a)).1
              (⊎_elim (λ k. inr (subst (λ v. In y (f v)) same k)) (λ k. inl k.1) h),
        )
    | inr e ↦
        let other : x ≢ a = λ bad. true-ne-false ((==_iff x a).1 bad) e in
        inr (other, ⊎_elim (λ k. k) (λ k. absurd (other k.0)) h)
  ]),
)

note_lem :
    (a b x y : ℕ) (table : ℕ → List ℕ) → In y (note a b table x) ↔ (In y (table x) ⊎ Either a b x y)
unfolding note
note_lem a b x y table =
    let forth = In-update-insert table a b x y in
    let back = In-update-insert (update table a (insert b (table a))) b a x y in
    (
      λ h.
          ⊎_elim (λ k. ⊎_elim (λ l. inl l) (λ l. inr (inl l)) (forth.0 k)) (λ k. inr (inr k))
            (back.0 h),
      ⊎_elim (λ k. back.1 (inl (forth.1 (inl k))))
          (⊎_elim (λ k. back.1 (inl (forth.1 (inr k)))) (λ k. back.1 (inr k))),
    )

note_neighbours_lem :
    (a : ℕ) (bs : List ℕ) (x y : ℕ) (table : ℕ → List ℕ)
    → In y (note_neighbours a bs table x)
      ↔ (In y (table x) ⊎ ((x ≡ a) × In y bs) ⊎ ((y ≡ a) × In x bs))
unfolding note_neighbours
note_neighbours_lem a [] x y table =
    (λ h. inl h, ⊎_elim (λ h. h) (⊎_elim (λ h. absurd h.1) (λ h. absurd h.1)))
note_neighbours_lem a (b ∷ bs) x y table =
    let rest = note_neighbours_lem a bs x y (note a b table) in
    let one = note_lem a b x y table in
    (
      λ h.
          ⊎_elim
            (λ k.
              ⊎_elim (λ l. inl l)
                (⊎_elim (λ l. inr (inl (l.0, inl l.1))) (λ l. inr (inr (l.1, inl l.0)))) (one.0 k))
            (⊎_elim (λ k. inr (inl (k.0, inr k.1))) (λ k. inr (inr (k.0, inr k.1)))) (rest.0 h),
      ⊎_elim (λ k. rest.1 (inl (one.1 (inl k))))
          (⊎_elim
            (λ k.
              ⊎_elim (λ e. rest.1 (inl (one.1 (inr (inl (k.0, e))))))
                (λ m. rest.1 (inr (inl (k.0, m)))) k.1)
            (λ k.
              ⊎_elim (λ e. rest.1 (inl (one.1 (inr (inr (e, k.0))))))
                (λ m. rest.1 (inr (inr (k.0, m)))) k.1)),
    )

module _ (g : Graph) where
  -- One of the two is in the list, with an edge to the other.
  abbrev Joined : List ℕ → ℕ → ℕ → Type 0
  Joined ids x y = (In x ids × In y (get_neighbours g x)) ⊎ (In y ids × In x (get_neighbours g y))

  build_lookup_lem :
      (ids : List ℕ) (x y : ℕ) (table : ℕ → List ℕ)
      → In y (build_lookup g ids table x) ↔ (In y (table x) ⊎ Joined ids x y)
  unfolding build_lookup
  build_lookup_lem [] x y table =
      (λ h. inl h, ⊎_elim (λ h. h) (⊎_elim (λ h. absurd h.0) (λ h. absurd h.0)))
  build_lookup_lem (a ∷ ids) x y table =
      let rest = build_lookup_lem ids x y (note_neighbours a (get_neighbours g a) table) in
      let one = note_neighbours_lem a (get_neighbours g a) x y table in
      (
        λ h.
            ⊎_elim
              (λ k.
                ⊎_elim (λ l. inl l)
                  (⊎_elim
                    (λ l. inr (inl (inl l.0, subst (λ v. In y (get_neighbours g v)) (sym l.0) l.1)))
                    (λ l.
                      inr (inr (inl l.0, subst (λ v. In x (get_neighbours g v)) (sym l.0) l.1))))
                  (one.0 k))
              (⊎_elim (λ k. inr (inl (inr k.0, k.1))) (λ k. inr (inr (inr k.0, k.1)))) (rest.0 h),
        ⊎_elim (λ k. rest.1 (inl (one.1 (inl k))))
            (⊎_elim
              (λ k.
                ⊎_elim
                  (λ e.
                    rest.1
                      (inl (one.1 (inr (inl (e, subst (λ v. In y (get_neighbours g v)) e k.1))))))
                  (λ m. rest.1 (inr (inl (m, k.1)))) k.0)
              (λ k.
                ⊎_elim
                  (λ e.
                    rest.1
                      (inl (one.1 (inr (inr (e, subst (λ v. In x (get_neighbours g v)) e k.1))))))
                  (λ m. rest.1 (inr (inr (m, k.1)))) k.0)),
      )

or_cases : (b c : Bool) → (b || c) ≡ true → (b ≡ true) ⊎ (c ≡ true)
or_cases true c h = inl refl
or_cases false c h = inr h

or_of : (b c : Bool) → (b ≡ true) ⊎ (c ≡ true) → (b || c) ≡ true
or_of b c (inl h) = rw h refl
or_of true c (inr h) = refl
or_of false c (inr h) = h

conflicting_lem :
    (has : ℕ → ℕ → Bool) (a b : ℕ) (l : List ℕ)
    → In b (conflicting has a l) ↔ (In b l × (b ≢ a) × ((has a b ≡ true) ⊎ (has b a ≡ true)))
unfolding conflicting
conflicting_lem has a b [] = (λ h. absurd h, λ h. absurd h.0)
conflicting_lem has a b (x ∷ l) = elim (Bool-cases (x == a)) [
  | inl e ↦
      let rest = conflicting_lem has a b l in
      rw e (
        λ h. let k = rest.0 h in (inr k.0, k.1, k.2),
        λ h.
            ⊎_elim (λ same. absurd (h.1 (same ∙ (==_iff x a).0 e))) (λ m. rest.1 (m, h.1, h.2)) h.0,
      )
  | inr e ↦
      let rest = conflicting_lem has a b l in
      elim (Bool-cases (has a x || has x a)) [
        | inl yes' ↦
            rw (e, yes')
              (
                ⊎_elim
                    (λ same. (
                      inl same,
                      (λ bad. true-ne-false ((==_iff x a).1 (sym same ∙ bad)) e),
                      subst (λ y. (has a y ≡ true) ⊎ (has y a ≡ true)) (sym same)
                          (or_cases (has a x) (has x a) yes'),
                    ))
                    (λ m. let k = rest.0 m in (inr k.0, k.1, k.2)),
                λ h. ⊎_elim (λ same. inl same) (λ m. inr (rest.1 (m, h.1, h.2))) h.0,
              )
        | inr no' ↦
            rw (e, no')
              (
                λ h. let k = rest.0 h in (inr k.0, k.1, k.2),
                λ h.
                    ⊎_elim
                      (λ same. absurd (
                        true-ne-false
                          (or_of (has a x) (has x a)
                            (subst (λ y. (has a y ≡ true) ⊎ (has y a ≡ true)) same h.2))
                          no'))
                      (λ m. rest.1 (m, h.1, h.2)) h.0,
              )
      ]
]

-- The module names the action in what it tells the solver.
abbrev pub Names : Option (List ℕ) × ℕ → ℕ → Type 0
Names (none, count) b = ⊥
Names (some l, count) b = In b l

Names-forbid : (l : List ℕ) (count b : ℕ) → Names (forbid l count) b ↔ In b l
unfolding forbid
Names-forbid [] count b = (λ h. h, λ h. h)
Names-forbid (x ∷ l) count b = (λ h. h, λ h. h)

Names-accuse : (a : ℕ) (l : List ℕ) (count b : ℕ) → b ≢ a → Names (accuse a l count) b ↔ In b l
unfolding accuse
Names-accuse a [] count b d = (λ h. h, λ h. h)
Names-accuse a (x ∷ l) count b d = (⊎_elim (λ e. absurd (d e)) (λ m. m), λ m. inr m)

-- Let the ids of the actions be nodes of the interference graph. When an action is set to true at a
-- timestep at which another one is active, then the eager module forbids the other one exactly when the
-- lazy module names it in a conflict, and both do exactly when there is an edge between the two in one
-- direction or the other.
pub forall_modules_agree :
    (g : Graph) (ids : List ℕ) (active : ℕ → List ℕ) (a b t count : ℕ)
    → ((u : ℕ) → In u ids → u < num_nodes g)
    → In a ids
    → In b ids
    → b ≢ a
    → In b (active t)
    → (Names (forall_on_fixed (build_lookup g ids (λ u. [])) (some (a, t)) true count) b
        ↔ Names (lazy_on_fixed (has_edge g) active (some (a, t)) true count) b)
      × (Names (lazy_on_fixed (has_edge g) active (some (a, t)) true count) b
          ↔ ((has_edge g a b ≡ true) ⊎ (has_edge g b a ≡ true)))
unfolding forall_on_fixed lazy_on_fixed
forall_modules_agree g ids active a b t count inside ia ib d on =
    let table = build_lookup_lem g ids a b (λ u. []) in
    let eager = Names-forbid (build_lookup g ids (λ u. []) a) count b in
    let found = conflicting_lem (has_edge g) a b (active t) in
    let lazy = Names-accuse a (conflicting (has_edge g) a (active t)) count b d in
    let edges : In b (build_lookup g ids (λ u. []) a)
        ↔ ((has_edge g a b ≡ true) ⊎ (has_edge g b a ≡ true)) =
      (
        λ h.
            ⊎_elim (λ n. absurd n)
              (⊎_elim (λ k. inl (In→has_edge g a b (inside a ia) (inside b ib) k.1))
                (λ k. inr (In→has_edge g b a (inside b ib) (inside a ia) k.1)))
              (table.0 h),
        ⊎_elim (λ h. table.1 (inr (inl (ia, has_edge→In g a b h))))
            (λ h. table.1 (inr (inr (ib, has_edge→In g b a h)))),
      ) in
    (
      (
        (λ h. lazy.1 (found.1 (on, d, edges.0 (eager.0 h)))),
        (λ h. eager.1 (edges.1 (found.0 (lazy.0 h)).2)),
      ),
      ((λ h. (found.0 (lazy.0 h)).2), (λ h. lazy.1 (found.1 (on, d, h)))),
    )
