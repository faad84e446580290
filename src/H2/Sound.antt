-- ===== src/H2/Sound.antt =====
-- Closed tables cover every step of the world: what is true after an action has been marked.
use ran_tan_plan.Prelude.{
  ℕ, ◌<◌, ◌≡◌, refl, sym, ◌∙◌, ◌≢◌, ◌⊎◌, inl, inr, true, List, [], ◌∷◌, arith, In, Distinct,
  Bool-cases, ⊎_elim, ◌==◌,
}
use ran_tan_plan.H2.{
  ActionData, Tables, is_reachable, is_co_reachable, applicable, all_reachable, all_co_reachable,
  all_pairs, compatible,
}
use native.Mathlib.Decide.{dec_lt}
use ran_tan_plan.H2.Growth.{Shape}
use ran_tan_plan.H2.Closed.{AllClosed}

-- The facts of `T` hold together; the tables allow for that.
pub record Covers (n : ℕ) (s : Tables) (T : ℕ → Type 0) : Type 0 where
  pub bounded : (i : ℕ) → T i → i < n
  pub single : (i : ℕ) → T i → is_reachable s i ≡ true
  pub pair : (i j : ℕ) → T i → T j → i ≢ j → is_co_reachable s i j ≡ true

-- From `T` the action may lead to `T'`: its preconditions hold, and what holds afterwards was added
-- or held before and was not deleted.
pub record Leads (a : ActionData) (T T' : ℕ → Type 0) : Type 0 where
  pub before : (i : ℕ) → In i a.preconditions → T i
  pub after : (i : ℕ) → T' i → In i a.add_effects ⊎ (T i × (¬ In i a.del_effects))

module _ (n : ℕ) (s : Tables) (T : ℕ → Type 0) (c : Covers n s T) where
  holds-all_reachable : (ps : List ℕ) → ((i : ℕ) → In i ps → T i) → all_reachable s ps ≡ true
  unfolding all_reachable
  holds-all_reachable [] h = refl
  holds-all_reachable (p ∷ ps) h =
      rw (c.single p (h p (inl refl)), holds-all_reachable ps (λ i m. h i (inr m)))

  holds-all_co_reachable :
      (p : ℕ) (qs : List ℕ)
      → T p
      → ¬ In p qs
      → ((i : ℕ) → In i qs → T i)
      → all_co_reachable s p qs ≡ true
  unfolding all_co_reachable
  holds-all_co_reachable p [] t ne h = refl
  holds-all_co_reachable p (q ∷ qs) t ne h = rw (
    c.pair p q t (h q (inl refl)) (λ e. ne (inl e)),
    holds-all_co_reachable p qs t (λ m. ne (inr m)) (λ i m. h i (inr m)),
  )

  holds-all_pairs : (ps : List ℕ) → Distinct ps → ((i : ℕ) → In i ps → T i) → all_pairs s ps ≡ true
  unfolding all_pairs
  holds-all_pairs [] d h = refl
  holds-all_pairs (p ∷ ps) d h = rw (
    holds-all_co_reachable p ps (h p (inl refl)) d.0 (λ i m. h i (inr m)),
    holds-all_pairs ps d.1 (λ i m. h i (inr m)),
  )

  holds-applicable :
      (a : ActionData)
      → Distinct a.preconditions
      → ((i : ℕ) → In i a.preconditions → T i)
      → applicable s a ≡ true
  unfolding applicable
  holds-applicable a d h =
      rw (holds-all_reachable a.preconditions h, holds-all_pairs a.preconditions d h)

  holds-compatible :
      (g : ℕ) (ps : List ℕ) → T g → ((i : ℕ) → In i ps → T i) → compatible s g ps ≡ true
  unfolding compatible
  holds-compatible g [] t h = refl
  holds-compatible g (p ∷ ps) t h = elim (Bool-cases (p == g)) [
    | inl e ↦ rw (e, holds-compatible g ps t (λ i m. h i (inr m)))
    | inr e ↦ rw (
      e,
      c.pair g p t (h p (inl refl)) (λ k. ground arith),
      holds-compatible g ps t (λ i m. h i (inr m)),
    )
  ]

-- One step of the world stays covered.
pub Leads-Covers :
    (n : ℕ) (s : Tables) (acts : List ActionData) (a : ActionData) (T T' : ℕ → Type 0)
    → Shape n s
    → AllClosed n acts s
    → In a acts
    → Distinct a.preconditions
    → ((i : ℕ) → In i a.add_effects → i < n)
    → Leads a T T'
    → Covers n s T
    → Covers n s T'
Leads-Covers n s acts a T T' v closed m d r l c = record {
  bounded = λ i t. ⊎_elim (r i) (λ k. c.bounded i k.0) (l.after i t);
  single = λ i t. ⊎_elim (adds i) (λ k. c.single i k.0) (l.after i t);
  pair = λ i j t u ne. joined i j ne (l.after i t) (l.after j u);
}
  where
    open (closed a m (holds-applicable n s T c a d l.before)) use {adds, both, persists}

    stays :
        (f g : ℕ)
        → In f a.add_effects
        → f ≢ g
        → T g
        → ¬ In g a.del_effects
        → is_co_reachable s f g ≡ true
    stays f g mf ne t keeps =
        persists f g mf (c.bounded g t) (λ e. ne (sym e)) (c.single g t) keeps
          (holds-compatible n s T c g a.preconditions t l.before)

    joined :
        (i j : ℕ)
        → i ≢ j
        → In i a.add_effects ⊎ (T i × (¬ In i a.del_effects))
        → In j a.add_effects ⊎ (T j × (¬ In j a.del_effects))
        → is_co_reachable s i j ≡ true
    joined i j ne (inl x) (inl y) = elim (dec_lt i j) [
      | yes lt ↦ both i j x y lt
      | no ge ↦ v.symmetric i j ∙ both j i y x (omega arith)
    ]
    joined i j ne (inl x) (inr y) = stays i j x ne y.0 y.1
    joined i j ne (inr x) (inl y) = v.symmetric i j ∙ stays j i y (λ e. ne (sym e)) x.0 x.1
    joined i j ne (inr x) (inr y) = c.pair i j x.0 y.0 ne
