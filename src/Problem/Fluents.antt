-- ===== src/Problem/Fluents.antt =====
-- rantanplan/cpp/src/problem/visitors/fluent_collector.cpp: the state variables of an expression whose
-- arguments are all concrete. A set of handles is a list without repetition; the walk takes fuel, `none`
-- when it is used up.
use ran_tan_plan.Prelude.{
  ℕ, zero, suc, ◌≡◌, refl, sym, subst, ◌↔◌, ◌⊎◌, inl, inr, Bool, true, false, not, ◌&&◌, Option,
  none, some, List, [], ◌∷◌, arith, if◌then◌else◌, ◌>>=◌, In, ⊎_elim, Bool-cases, true-ne-false,
}
use ran_tan_plan.Expr.Kinds.{ExprKind}
use ran_tan_plan.Expr.Node.{ExprId, null, ref}
use ran_tan_plan.Expr.Node.Equal.{is_in, is_in→In}
use ran_tan_plan.Expr.Pool.{ExprPool, get, is_kind, is_state_variable, children}
use ran_tan_plan.Expr.Pool.Laws.{Below, IsOrdered}

-- Some child is a state variable, a variable or a parameter; a null handle is none of them.
pub has_open_child : ExprPool → List ExprId → Bool
has_open_child p [] = false
has_open_child p (c ∷ cs) =
    let rest = has_open_child p cs in
    if is_kind p c ExprKind.state_variable
    then true
    else if is_kind p c ExprKind.variable
    then true
    else if is_kind p c ExprKind.parameter
    then true
    else rest

pub is_grounded_variable : ExprPool → ExprId → Bool
is_grounded_variable p e = is_state_variable p e && not (has_open_child p (children p e))

-- `fluents_.insert(eid)`
pub insert_fluent : ExprId → List ExprId → List ExprId
insert_fluent e fs = if is_in e fs then fs else e ∷ fs

pub collect_children :
    (ExprId → List ExprId → Option (List ExprId)) → List ExprId → List ExprId → Option (List ExprId)
collect_children call [] fs = some fs
collect_children call (c ∷ cs) fs = do fs' ← call c fs; collect_children call cs fs'

-- `FluentCollector::collect_from_id`
pub collect_from_id : ExprPool → ℕ → ExprId → List ExprId → Option (List ExprId)
collect_from_id p fuel null fs = some fs
collect_from_id p zero (ref i) fs = none
collect_from_id p (suc fuel) (ref i) fs =
    collect_children (collect_from_id p fuel) (children p (ref i))
      (if is_grounded_variable p (ref i) then insert_fluent (ref i) fs else fs)

-- The fluent occurs in the expression, as itself or in a child.
pub data Mentions (p : ExprPool) (f : ExprId) : ExprId → Type 0 where
  itself : {e : ExprId} → is_grounded_variable p e ≡ true → f ≡ e → Mentions p f e
  inside : {e c : ExprId} → In c (children p e) → Mentions p f c → Mentions p f e

pub In-insert_fluent :
    (e f : ExprId) (fs : List ExprId) → In f (insert_fluent e fs) ↔ ((f ≡ e) ⊎ In f fs)
unfolding insert_fluent
In-insert_fluent e f fs = elim (Bool-cases (is_in e fs)) [
  | inl old ↦
      rw old
        (λ m. inr m, ⊎_elim (λ same. subst (λ y. In y fs) (sym same) (is_in→In e fs old)) (λ m. m))
  | inr new ↦ rw new (λ m. m, λ m. m)
]

module _ (p : ExprPool) where
  children_lem :
      (call : ExprId → List ExprId → Option (List ExprId)) (cs fs : List ExprId)
      → ((c : ExprId)
          → In c cs
          → (gs : List ExprId)
          → (hs : List ExprId) × (call c gs ≡ some hs)
            × ((f : ExprId) → In f hs ↔ (In f gs ⊎ Mentions p f c)))
      → (hs : List ExprId) × (collect_children call cs fs ≡ some hs)
        × ((f : ExprId) → In f hs ↔ (In f fs ⊎ ((c : ExprId) × In c cs × Mentions p f c)))
  unfolding collect_children
  children_lem call [] fs ok = (fs, refl, λ f. (λ m. inl m, ⊎_elim (λ m. m) (λ m. absurd m.1)))
  children_lem call (c ∷ cs) fs ok =
      let (gs, e, here) = ok c (inl refl) fs in
      let (hs, e', rest) = children_lem call cs gs (λ d m. ok d (inr m)) in
      (
        hs,
        rw e e',
        λ f. (
          (λ m.
              ⊎_elim (λ k. ⊎_elim (λ l. inl l) (λ l. inr (c, inl refl, l)) ((here f).0 k))
                (λ k. inr (k.0, inr k.1, k.2)) ((rest f).0 m)),
          (λ m. (rest f).1 (
              ⊎_elim (λ k. inl ((here f).1 (inl k)))
                (λ k.
                  ⊎_elim (λ same. inl ((here f).1 (inr (subst (λ y. Mentions p f y) same k.2))))
                    (λ l. inr (k.0, l, k.2)) k.1)
                m)),
        ),
      )

  null-not-Mentions : (f e : ExprId) → e ≡ null → ¬ Mentions p f e
  unfolding is_grounded_variable is_state_variable is_kind children get
  null-not-Mentions f e n (itself g same) =
      absurd (true-ne-false (subst (λ y. is_grounded_variable p y ≡ true) n g) refl)
  null-not-Mentions f e n (inside {c = c} m k) = absurd (subst (λ y. In c (children p y)) n m)

  Mentions-cases :
      (f e : ExprId)
      → Mentions p f e
      → (is_grounded_variable p e ≡ true) × (f ≡ e)
        ⊎ (c : ExprId) × In c (children p e) × Mentions p f c
  Mentions-cases f e (itself g same) = inl (g, same)
  Mentions-cases f e (inside {c = c} m k) = inr (c, m, k)

  In-own :
      (e f : ExprId) (fs : List ExprId)
      → In f (if is_grounded_variable p e then insert_fluent e fs else fs)
        ↔ (In f fs ⊎ (is_grounded_variable p e ≡ true) × (f ≡ e))
  In-own e f fs = elim (Bool-cases (is_grounded_variable p e)) [
    | inl g ↦ rw g (
      λ m. ⊎_elim (λ k. inr (refl, k)) (λ k. inl k) ((In-insert_fluent e f fs).0 m),
      λ m. (In-insert_fluent e f fs).1 (⊎_elim (λ k. inr k) (λ k. inl k.1) m),
    )
    | inr g ↦ rw g (λ m. inl m, ⊎_elim (λ m. m) (λ m. absurd (true-ne-false m.0 refl)))
  ]

  pub collect_from_id_lem :
      IsOrdered p
      → (fuel : ℕ) (e : ExprId) (fs : List ExprId) → Below fuel e
      → (hs : List ExprId) × (collect_from_id p fuel e fs ≡ some hs)
        × ((f : ExprId) → In f hs ↔ (In f fs ⊎ Mentions p f e))
  unfolding collect_from_id
  collect_from_id_lem o zero null fs h =
      (fs, refl, λ f. (λ m. inl m, ⊎_elim (λ m. m) (λ m. absurd (null-not-Mentions f null refl m))))
  collect_from_id_lem o (suc fuel) null fs h =
      (fs, refl, λ f. (λ m. inl m, ⊎_elim (λ m. m) (λ m. absurd (null-not-Mentions f null refl m))))
  collect_from_id_lem o zero (ref i) fs h = absurd (omega arith)
  collect_from_id_lem o (suc fuel) (ref i) fs h =
      let (hs, e, all) =
        children_lem (collect_from_id p fuel) (children p (ref i)) _
          (λ c m gs. collect_from_id_lem o fuel c gs (lower c (o i c m))) in
      (
        hs,
        e,
        λ f. (
          (λ m.
              ⊎_elim
                (λ k. ⊎_elim (λ l. inl l) (λ l. inr (itself l.0 l.1)) ((In-own (ref i) f fs).0 k))
                (λ k. inr (inside k.1 k.2)) ((all f).0 m)),
          (λ m. (all f).1 (
              ⊎_elim (λ k. inl ((In-own (ref i) f fs).1 (inl k)))
                (λ k.
                  ⊎_elim (λ l. inl ((In-own (ref i) f fs).1 (inr l))) (λ l. inr l)
                    (Mentions-cases f (ref i) k))
                m)),
        ),
      )
    where
      lower : (c : ExprId) → Below i c → Below fuel c
      lower null k = tt
      lower (ref c) k = omega arith
