-- ===== src/Propagator/Trail.antt =====
-- The trail of the active actions: it names exactly the actions that are active, and `pop` takes back
-- what came after the matching `push`.
use ran_tan_plan.Prelude.{
  ℕ, suc, ◌≤◌, ◌≡◌, refl, sym, ap, ◌∙◌, subst, ◌≢◌, ◌↔◌, ◌⊎◌, inl, inr, false, List, [], ◌∷◌, ◌++◌,
  arith, length, contains, ltb, ◌==◌, ==_iff, In, Distinct, Bool-cases, contains→In, ltb→lt, ⊎_elim,
  true-ne-false, min,
}
use ran_tan_plan.Propagator.{insert, erase, SharedState, update, unwind}

pub In-insert : (a x : ℕ) (s : List ℕ) → In x (insert a s) ↔ ((x ≡ a) ⊎ In x s)
unfolding insert
In-insert a x s = elim (Bool-cases (contains s a)) [
  | inl e ↦ rw e (λ m. inr m, ⊎_elim (λ same. rw same (contains→In s a e)) (λ m. m))
  | inr e ↦ rw e (λ m. m, λ m. m)
]

pub In-erase : (a x : ℕ) (s : List ℕ) → In x (erase a s) ↔ ((x ≢ a) × In x s)
unfolding erase
In-erase a x [] = (λ m. absurd m, λ m. absurd m.1)
In-erase a x (y ∷ s) = elim (Bool-cases (y == a)) [
  | inl e ↦
      let same : y ≡ a = (==_iff y a).0 e in
      rw e (
        λ m. let k = (In-erase a x s).0 m in (k.0, inr k.1),
        λ m. (In-erase a x s).1 (m.0, ⊎_elim (λ at. absurd (m.0 (at ∙ same))) (λ k. k) m.1),
      )
  | inr e ↦ rw e (
    λ m.
        ⊎_elim (λ at. ((λ bad. other e (sym at ∙ bad)), inl at))
          (λ k. let r = (In-erase a x s).0 k in (r.0, inr r.1)) m,
    λ m. ⊎_elim (λ at. inl at) (λ k. inr ((In-erase a x s).1 (m.0, k))) m.1,
  )
]
  where
    other : (y == a) ≡ false → y ≢ a
    other e bad = ground arith

-- The levels lie above one another, below the length of the trail.
abbrev pub Descending : ℕ → List ℕ → Type 0
Descending n [] = Unit {0}
Descending n (l ∷ ls) = (l ≤ n) × Descending l ls

-- The sets of active actions hold what the trail names.
abbrev pub Agrees : (ℕ → List ℕ) → List (ℕ × ℕ) → Type 0
Agrees f trail = (t a : ℕ) → In a (f t) ↔ In (a, t) trail

pub record IsConsistent (s : SharedState) : Type 0 where
  pub active : Agrees s.active_actions_per_timestep s.action_trail
  pub distinct : Distinct s.action_trail
  pub levels : Descending (length s.action_trail) s.action_decision_levels

pub In-update :
    (f : ℕ → List ℕ) (t u x : ℕ) (v : List ℕ)
    → In x (update f t v u) ↔ (((u ≡ t) × In x v) ⊎ ((u ≢ t) × In x (f u)))
In-update f t u x v = elim (Bool-cases (u == t)) [
  | inl e ↦
      let same : u ≡ t = (==_iff u t).0 e in
      rw e (λ m. inl (same, m), ⊎_elim (λ m. m.1) (λ m. absurd (m.0 same)))
  | inr e ↦ rw e (λ m. inr ((λ bad. other e bad), m), ⊎_elim (λ m. absurd (other e m.0)) (λ m. m.1))
]
  where
    other : (u == t) ≡ false → u ≢ t
    other e bad = ground arith

abbrev Same : ℕ × ℕ → ℕ × ℕ → Type 0
Same p q = p ≡ q

pair_eq : (a t x u : ℕ) → Same (x, u) (a, t) → (x ≡ a) × (u ≡ t)
pair_eq a t x u e = (ap (λ (p : ℕ × ℕ). p.0) e, ap (λ (p : ℕ × ℕ). p.1) e)

pub insert-Agrees :
    (f : ℕ → List ℕ) (trail : List (ℕ × ℕ)) (a t : ℕ)
    → Agrees f trail
    → Agrees (update f t (insert a (f t))) ((a, t) ∷ trail)
insert-Agrees f trail a t g u x = (
  λ m.
      ⊎_elim
        (λ at.
          ⊎_elim (λ e. inl (ap (λ y. (y, u)) e ∙ ap (λ v. (a, v)) at.0))
            (λ k. inr (subst (λ v. In (x, v) trail) (sym at.0) ((g t x).0 k)))
            ((In-insert a x (f t)).0 at.1))
        (λ away. inr ((g u x).0 away.1)) ((In-update f t u x (insert a (f t))).0 m),
  λ m. (In-update f t u x (insert a (f t))).1 (elim (Bool-cases (u == t)) [
    | inl e ↦
        let same : u ≡ t = (==_iff u t).0 e in
        inl (
          same,
          (In-insert a x (f t)).1 (
              ⊎_elim (λ p. inl (pair_eq a t x u p).0)
                (λ k. inr ((g t x).1 (subst (λ v. In (x, v) trail) same k))) m),
        )
    | inr e ↦
        let other : u ≢ t = λ bad. true-ne-false ((==_iff u t).1 bad) e in
        inr (other, ⊎_elim (λ p. absurd (other (pair_eq a t x u p).1)) (λ k. (g u x).1 k) m)
  ]),
)

erase-Agrees :
    (f : ℕ → List ℕ) (trail : List (ℕ × ℕ)) (a t : ℕ)
    → Agrees f ((a, t) ∷ trail)
    → ¬ In (a, t) trail
    → Agrees (update f t (erase a (f t))) trail
erase-Agrees f trail a t g new u x = (
  λ m.
      ⊎_elim
        (λ at.
          let k = (In-erase a x (f t)).0 at.1 in
          ⊎_elim (λ p. absurd (k.0 (pair_eq a t x t p).0))
            (λ l. subst (λ v. In (x, v) trail) (sym at.0) l) ((g t x).0 k.1))
        (λ away. ⊎_elim (λ p. absurd (away.0 (pair_eq a t x u p).1)) (λ k. k) ((g u x).0 away.1))
        ((In-update f t u x (erase a (f t))).0 m),
  λ m. (In-update f t u x (erase a (f t))).1 (elim (Bool-cases (u == t)) [
    | inl e ↦
        let same : u ≡ t = (==_iff u t).0 e in
        let k = subst (λ v. In (x, v) trail) same m in
        inl (
          same,
          (In-erase a x (f t)).1
              ((λ bad. new (subst (λ y. In (y, t) trail) bad k)), (g t x).1 (inr k)),
        )
    | inr e ↦
        let other : u ≢ t = λ bad. true-ne-false ((==_iff u t).1 bad) e in
        inr (other, (g u x).1 (inr m))
  ]),
)

-- What `unwind` leaves: the entries at the bottom of the trail.
pub unwind_lem :
    (start : ℕ) (trail : List (ℕ × ℕ)) (f : ℕ → List ℕ)
    → Agrees f trail
    → Distinct trail
    → (front : List (ℕ × ℕ)) × (trail ≡ front ++ (unwind start trail f).0)
      × Agrees (unwind start trail f).1 (unwind start trail f).0
      × Distinct (unwind start trail f).0
      × (length (unwind start trail f).0 ≡ min start (length trail))
unfolding unwind
unwind_lem start [] f g d = ([], refl, g, d, omega arith)
unwind_lem start ((a, t) ∷ trail) f g d = elim (Bool-cases (ltb start (suc (length trail)))) [
  | inl more ↦
      let (front, e, g', d', size) =
        unwind_lem start trail (update f t (erase a (f t))) (erase-Agrees f trail a t g d.0) d.1 in
      rw (more, unwind)
        (
          (a, t) ∷ front,
          ap (λ l. (a, t) ∷ l) e,
          g',
          d',
          omega (arith, ltb→lt start (suc (length trail)) more),
        )
  | inr done ↦ rw (done, unwind) ([], refl, g, d, ground arith)
]
