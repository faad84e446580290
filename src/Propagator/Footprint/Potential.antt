-- ===== src/Propagator/Footprint/Potential.antt =====
-- The second half of `build_footprint_index`, and the contract of the whole: two different actions are
-- potential interferers of one another exactly when both touch some fluent.
use ran_tan_plan.Prelude.{
  ℕ, ◌≡◌, refl, sym, ap, ◌∙◌, subst, ◌≢◌, ◌↔◌, ◌⊎◌, inl, inr, false, some, List, [], ◌∷◌, ◌++◌, ltb,
  ◌==◌, ==_iff, In, ⊎_elim, Bool-cases, true-ne-false, In-append, In-append_left, In-append_right,
}
use ran_tan_plan.Expr.Node.{ExprId}
use ran_tan_plan.Expr.Pool.Laws.{Below, IsOrdered}
use ran_tan_plan.Problem.{Problem, Action}
use ran_tan_plan.Propagator.{update}
use ran_tan_plan.Propagator.Trail.{In-update}
use ran_tan_plan.Propagator.Footprint.{
  FluentActions, connect, connect_with, connect_pairs, connect_fluents, insert_sorted, sort_unique,
  build_footprint_index,
}
use ran_tan_plan.Propagator.Footprint.Touched.{TouchedBy, Shares, index_lem}

-- The pair, in either direction.
abbrev Linked : ℕ → ℕ → ℕ → ℕ → Type 0
Linked a b x y = (a ≢ b) × (((x ≡ a) × (y ≡ b)) ⊎ ((x ≡ b) × (y ≡ a)))

ne_of_beq : (a b : ℕ) → (a == b) ≡ false → a ≢ b
ne_of_beq a b e same = true-ne-false ((==_iff a b).1 same) e

-- Writing one more element to the list of `a`.
In-update_snoc :
    (f : ℕ → List ℕ) (a b x y : ℕ)
    → In y (update f a (f a ++ b ∷ []) x) ↔ (In y (f x) ⊎ (x ≡ a) × (y ≡ b))
In-update_snoc f a b x y = (
  λ h.
      ⊎_elim
        (λ k.
          ⊎_elim (λ l. inl (subst (λ v. In y (f v)) (sym k.0) l))
            (λ l. ⊎_elim (λ e. inr (k.0, e)) (λ n. absurd n) l) (In-append y (f a) (b ∷ []) k.1))
        (λ k. inl k.1) ((In-update f a x y (f a ++ b ∷ [])).0 h),
  λ h. (In-update f a x y (f a ++ b ∷ [])).1 (elim (Bool-cases (x == a)) [
    | inl e ↦
        let same : x ≡ a = (==_iff x a).0 e in
        inl (
          same,
          ⊎_elim (λ k. In-append_left y (f a) (b ∷ []) (subst (λ v. In y (f v)) same k))
              (λ k. In-append_right y (f a) (b ∷ []) (inl k.1)) h,
        )
    | inr e ↦ inr (ne_of_beq x a e, ⊎_elim (λ k. k) (λ k. absurd (ne_of_beq x a e k.0)) h)
  ]),
)

connect_lem :
    (a b x y : ℕ) (f : ℕ → List ℕ) → In y (connect a b f x) ↔ (In y (f x) ⊎ Linked a b x y)
unfolding connect
connect_lem a b x y f = elim (Bool-cases (a == b)) [
  | inl e ↦ rw e (λ h. inl h, ⊎_elim (λ h. h) (λ h. absurd (h.0 ((==_iff a b).0 e))))
  | inr e ↦
      let forth = In-update_snoc f a b x y in
      let back = In-update_snoc (update f a (f a ++ b ∷ [])) b a x y in
      rw e (
        λ h.
            ⊎_elim (λ k. ⊎_elim (λ l. inl l) (λ l. inr (ne_of_beq a b e, inl l)) (forth.0 k))
              (λ k. inr (ne_of_beq a b e, inr k)) (back.0 h),
        ⊎_elim (λ k. back.1 (inl (forth.1 (inl k))))
            (λ k. ⊎_elim (λ l. back.1 (inl (forth.1 (inr l)))) (λ l. back.1 (inr l)) k.1),
      )
]

connect_with_lem :
    (a : ℕ) (bs : List ℕ) (x y : ℕ) (f : ℕ → List ℕ)
    → In y (connect_with a bs f x) ↔ (In y (f x) ⊎ ((b : ℕ) × In b bs × Linked a b x y))
unfolding connect_with
connect_with_lem a [] x y f = (λ h. inl h, ⊎_elim (λ h. h) (λ h. absurd h.1))
connect_with_lem a (b ∷ bs) x y f =
    let rest = connect_with_lem a bs x y (connect a b f) in
    let one = connect_lem a b x y f in
    (
      λ h.
          ⊎_elim (λ k. ⊎_elim (λ l. inl l) (λ l. inr (b, inl refl, l)) (one.0 k))
            (λ k. inr (k.0, inr k.1, k.2)) (rest.0 h),
      ⊎_elim (λ k. rest.1 (inl (one.1 (inl k))))
          (λ k.
            ⊎_elim (λ same. rest.1 (inl (one.1 (inr (subst (λ v. Linked a v x y) same k.2)))))
              (λ l. rest.1 (inr (k.0, l, k.2))) k.1),
    )

connect_pairs_lem :
    (l : List ℕ) (x y : ℕ) (f : ℕ → List ℕ)
    → In y (connect_pairs l f x) ↔ (In y (f x) ⊎ (x ≢ y) × In x l × In y l)
unfolding connect_pairs
connect_pairs_lem [] x y f = (λ h. inl h, ⊎_elim (λ h. h) (λ h. absurd h.1))
connect_pairs_lem (a ∷ l) x y f =
    let rest = connect_pairs_lem l x y (connect_with a l f) in
    let one = connect_with_lem a l x y f in
    (
      λ h.
          ⊎_elim
            (λ k.
              ⊎_elim (λ q. inl q)
                (λ q.
                  ⊎_elim
                    (λ r. inr (
                      (λ same. q.2.0 (sym r.0 ∙ (same ∙ r.1))),
                      inl r.0,
                      inr (subst (λ v. In v l) (sym r.1) q.1),
                    ))
                    (λ r. inr (
                      (λ same. q.2.0 (sym r.1 ∙ (sym same ∙ r.0))),
                      inr (subst (λ v. In v l) (sym r.0) q.1),
                      inl r.1,
                    ))
                    q.2.1)
                (one.0 k))
            (λ k. inr (k.0, inr k.1, inr k.2)) (rest.0 h),
      ⊎_elim (λ k. rest.1 (inl (one.1 (inl k))))
          (λ k.
            ⊎_elim
              (λ q.
                ⊎_elim (λ r. absurd (k.0 (q ∙ sym r)))
                  (λ r.
                    rest.1 (inl (one.1 (inr (y, r, ((λ same. k.0 (q ∙ same)), inl (q, refl)))))))
                  k.2)
              (λ q.
                ⊎_elim
                  (λ r. rest.1 (
                    inl (
                      one.1
                        (inr (x, q, ((λ same. k.0 (sym (same ∙ refl) ∙ sym r)), inr (refl, r)))))))
                  (λ r. rest.1 (inr (k.0, q, r))) k.2)
              k.1),
    )

connect_fluents_lem :
    (m : FluentActions) (x y : ℕ) (f : ℕ → List ℕ)
    → In y (connect_fluents m f x) ↔ (In y (f x) ⊎ (x ≢ y) × Shares m x y)
unfolding connect_fluents
connect_fluents_lem [] x y f = (λ h. inl h, ⊎_elim (λ h. h) (λ h. absurd h.1.2))
connect_fluents_lem ((g, aids) ∷ m) x y f =
    let rest = connect_fluents_lem m x y (connect_pairs aids f) in
    let one = connect_pairs_lem aids x y f in
    (
      λ h.
          ⊎_elim
            (λ k. ⊎_elim (λ q. inl q) (λ q. inr (q.0, (g, aids, inl refl, q.1, q.2))) (one.0 k))
            (λ k. inr (k.0, (k.1.0, k.1.1, inr k.1.2, k.1.3, k.1.4))) (rest.0 h),
      ⊎_elim (λ k. rest.1 (inl (one.1 (inl k))))
          (λ k.
            ⊎_elim
              (λ same.
                let bs = ap (λ (e : ExprId × List ℕ). e.1) same in
                rest.1 (inl (one.1 (inr (k.0, subst (In x) bs k.1.3, subst (In y) bs k.1.4)))))
              (λ l. rest.1 (inr (k.0, (k.1.0, k.1.1, l, k.1.3, k.1.4)))) k.1.2),
    )

In-insert_sorted : (a x : ℕ) (l : List ℕ) → In x (insert_sorted a l) ↔ ((x ≡ a) ⊎ In x l)
unfolding insert_sorted
In-insert_sorted a x [] = (λ h. h, λ h. h)
In-insert_sorted a x (y ∷ l) = elim (Bool-cases (ltb a y)) [
  | inl e ↦ rw (e, insert_sorted) (λ h. h, λ h. h)
  | inr e ↦ elim (Bool-cases (a == y)) [
    | inl k ↦
        rw (e, k, insert_sorted) (λ h. inr h, ⊎_elim (λ h. inl (h ∙ (==_iff a y).0 k)) (λ h. h))
    | inr k ↦
        let rest = In-insert_sorted a x l in
        rw (e, k, insert_sorted)
          (
            ⊎_elim (λ h. inr (inl h)) (λ h. ⊎_elim (λ q. inl q) (λ q. inr (inr q)) (rest.0 h)),
            ⊎_elim (λ h. inr (rest.1 (inl h)))
                (λ h. ⊎_elim (λ q. inl q) (λ q. inr (rest.1 (inr q))) h),
          )
  ]
]

In-sort_unique : (x : ℕ) (l : List ℕ) → In x (sort_unique l) ↔ In x l
unfolding sort_unique
In-sort_unique x [] = (λ h. h, λ h. h)
In-sort_unique x (a ∷ l) =
    let one = In-insert_sorted a x (sort_unique l) in
    let rest = In-sort_unique x l in
    (
      λ h. ⊎_elim (λ q. inl q) (λ q. inr (rest.0 q)) (one.0 h),
      ⊎_elim (λ q. one.1 (inl q)) (λ q. one.1 (inr (rest.1 q))),
    )

-- If children stand before their parents in the pool, and the fuel exceeds the handles of the
-- preconditions, then the index is built; and an action is a potential interferer of another one
-- exactly when their ids differ and there is a fluent that each of them writes or mentions in its
-- precondition. What conditions and values of effects read does not count.
pub footprint_lem :
    (p : Problem) (fuel : ℕ)
    → IsOrdered p.pool
    → ((action : Action) → In action p.actions → Below fuel action.precondition_id)
    → (potential : ℕ → List ℕ) × (build_footprint_index p fuel ≡ some potential)
      × ((a b : ℕ)
          → In b (potential a) ↔ (
              (a ≢ b)
              × ((f : ExprId) × TouchedBy p.pool p.actions f a × TouchedBy p.pool p.actions f b)))
unfolding build_footprint_index
footprint_lem p fuel o low =
    let (m, e, all) = index_lem p fuel o low in
    (
      (λ a. sort_unique (connect_fluents m (λ b. []) a)),
      rw e refl,
      λ a b. (
        (λ h.
            ⊎_elim (λ n. absurd n) (λ k. (k.0, (all a b).0 k.1))
              ((connect_fluents_lem m a b (λ c. [])).0 ((In-sort_unique b _).0 h))),
        (λ h.
            (In-sort_unique b _).1
              ((connect_fluents_lem m a b (λ c. [])).1 (inr (h.0, (all a b).1 h.1)))),
      ),
    )
