-- ===== src/Propagator/Cycle/Walks.antt =====
-- Walks along interferences between active actions, and what the path of the search gives.
use ran_tan_plan.Prelude.{
  ℕ, ◌≡◌, refl, ap, sym, inl, inr, Bool, true, List, [], ◌∷◌, ◌++◌, ◌==◌, ==_iff, In, Bool-cases,
  subst, ⊎_elim, true-ne-false,
}
use ran_tan_plan.Propagator.Cycle.{drop_until, drop_last}

pub drop_last-snoc : (path : List ℕ) (a : ℕ) → drop_last (path ++ a ∷ []) ≡ path
unfolding drop_last
drop_last-snoc [] a = refl
drop_last-snoc (x ∷ []) a = refl
drop_last-snoc (x ∷ y ∷ path) a = ap (λ l. x ∷ l) (drop_last-snoc (y ∷ path) a)

module _ (active : List ℕ) (potential : ℕ → List ℕ) (has_interference : ℕ → ℕ → Bool) where
  -- An interference that the search looks at.
  abbrev pub Edge : ℕ → ℕ → Type 0
  Edge u v = In v (potential u) × In v active × (has_interference u v ≡ true)

  -- A walk from one action through others to a last one.
  abbrev pub Leads : ℕ → List ℕ → ℕ → Type 0
  Leads a [] b = Edge a b
  Leads a (x ∷ xs) b = Edge a x × Leads x xs b

  abbrev pub IsCycle : List ℕ → Type 0
  IsCycle c = (a : ℕ) × (xs : List ℕ) × (c ≡ a ∷ xs) × Leads a xs a

  -- The path of the search, followed by a node.
  abbrev pub Extends : List ℕ → ℕ → Type 0
  Extends [] b = Unit {0}
  Extends (a ∷ xs) b = Leads a xs b

  Leads-snoc : (a : ℕ) (xs : List ℕ) (u b : ℕ) → Leads a xs u → Edge u b → Leads a (xs ++ u ∷ []) b
  Leads-snoc a [] u b l e = (l, e)
  Leads-snoc a (x ∷ xs) u b l e = (l.0, Leads-snoc x xs u b l.1 e)

  pub Extends-snoc :
      (path : List ℕ) (u b : ℕ) → Extends path u → Edge u b → Extends (path ++ u ∷ []) b
  Extends-snoc [] u b l e = e
  Extends-snoc (a ∷ xs) u b l e = Leads-snoc a xs u b l e

  -- From a node of the path on, the path is a cycle if it leads back to that node.
  pub drop_until-IsCycle :
      (path : List ℕ) (b : ℕ) → In b path → Extends path b → IsCycle (drop_until b path)
  unfolding drop_until
  drop_until-IsCycle [] b m l = absurd m
  drop_until-IsCycle (a ∷ []) b m l = elim (Bool-cases (a == b)) [
    | inl e ↦ rw e (a, [], refl, subst (Leads a []) (sym ((==_iff a b).0 e)) l)
    | inr e ↦ ⊎_elim (λ k. absurd (true-ne-false ((==_iff a b).1 (sym k)) e)) (λ k. absurd k) m
  ]
  drop_until-IsCycle (a ∷ x ∷ xs) b m l = elim (Bool-cases (a == b)) [
    | inl e ↦ rw e (a, x ∷ xs, refl, subst (Leads a (x ∷ xs)) (sym ((==_iff a b).0 e)) l)
    | inr e ↦
        ⊎_elim (λ k. absurd (true-ne-false ((==_iff a b).1 (sym k)) e))
          (λ k. rw (e, drop_until) (drop_until-IsCycle (x ∷ xs) b k l.1)) m
  ]
