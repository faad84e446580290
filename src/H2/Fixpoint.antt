-- ===== src/H2/Fixpoint.antt =====
-- Phase 2 of `compute` ends, in tables that are closed under every action and keep the marks of
-- phase 1.
use ran_tan_plan.Prelude.{
  ℕ, zero, suc, ◌+◌, ◌*◌, ◌<◌, ◌≤◌, ◌≡◌, sym, ap, ◌∙◌, subst, inl, inr, Bool, true, false, List, [],
  ◌∷◌, arith, In, Bool-cases, ⊎_elim, some, length, get_or, unset-le-length, if_true, if_false,
}
use ran_tan_plan.H2.{ActionData, Tables, is_reachable, is_co_reachable, visit, round, fixpoint}
use ran_tan_plan.H2.Growth.{open_marks, unset_rows, Shape, Grows, foldl-Grows}
use ran_tan_plan.H2.Loops.{InRange, visit-Grows}
use ran_tan_plan.H2.Closed.{AllClosed, foldl-still, visit-IsClosed}

pub record IsFixpoint (n : ℕ) (acts : List ActionData) (s t : Tables) : Type 0 where
  pub shape : Shape n t
  pub closed : AllClosed n acts t
  pub reach : (i : ℕ) → is_reachable s i ≡ true → is_reachable t i ≡ true
  pub co_reach : (i j : ℕ) → is_co_reachable s i j ≡ true → is_co_reachable t i j ≡ true

abbrev fresh : Tables → Tables
fresh s = record s { changed = false }

fresh-Shape : (n : ℕ) (s : Tables) → Shape n s → Shape n (fresh s)
fresh-Shape n s v = record {
  facts = v.facts;
  rows = v.rows;
  columns = v.columns;
  symmetric = v.symmetric;
}

module _ (n : ℕ) (acts : List ActionData) (r : (a : ActionData) → In a acts → InRange n a) where
  round-Grows : (s : Tables) → Shape n s → Grows n (fresh s) (round n acts s)
  unfolding round
  round-Grows s v =
      foldl-Grows n (visit n) acts (λ t a m w. visit-Grows n a (r a m) t w) (fresh s)
        (fresh-Shape n s v)

  round-closed : (s : Tables) → Shape n s → round n acts s ≡ fresh s → AllClosed n acts (fresh s)
  unfolding round
  round-closed s v e a m = visit-IsClosed n a (r a m) (fresh s) (fresh-Shape n s v) (
      foldl-still n (visit n) acts (λ t b k w. visit-Grows n b (r b k) t w) (fresh s)
        (fresh-Shape n s v) e a m)

  quiet : (s : Tables) → Shape n s → (round n acts s).changed ≡ false → round n acts s ≡ fresh s
  quiet s v e = ⊎_elim (λ k. k) (λ k. cc) (round-Grows s v).falls

  busy :
      (s : Tables)
      → Shape n s
      → (round n acts s).changed ≡ true
      → open_marks (round n acts s) < open_marks s
  busy s v e =
      ⊎_elim (λ k. absurd (settled (round n acts s) k e)) (λ k. k.1) (round-Grows s v).falls
    where
      settled : (t : Tables) → t ≡ fresh s → t.changed ≡ true → ⊥
      settled t k h = cc (ap (λ (x : Tables). x.changed) k)

  again :
      (fuel : ℕ) (s : Tables)
      → (round n acts s).changed ≡ true
      → fixpoint n acts (suc fuel) s ≡ fixpoint n acts fuel (round n acts s)
  unfolding fixpoint
  again fuel s e = if_true _ _ _ e

  last :
      (fuel : ℕ) (s : Tables)
      → (round n acts s).changed ≡ false
      → fixpoint n acts (suc fuel) s ≡ some (round n acts s)
  unfolding fixpoint
  last fuel s e = if_false _ _ _ e

  -- The `while` loop ends: with more fuel than there are unset flags the rounds reach tables that are
  -- closed under every action, of the same shape, and with every mark of the start.
  pub fixpoint_reached :
      (fuel : ℕ) (s : Tables)
      → Shape n s
      → open_marks s < fuel
      → (t : Tables) × (fixpoint n acts fuel s ≡ some t) × IsFixpoint n acts s t
  fixpoint_reached zero s v h = absurd (omega arith)
  fixpoint_reached (suc fuel) s v h = elim (Bool-cases (round n acts s).changed) [
    | inl e ↦
        let g = round-Grows s v in
        let (t, ends, p) =
          fixpoint_reached fuel (round n acts s) g.shape (omega (arith, busy s v e)) in
        (
          t,
          again fuel s e ∙ ends,
          record {
            shape = p.shape;
            closed = p.closed;
            reach = λ i k. p.reach i (g.reach i k);
            co_reach = λ i j k. p.co_reach i j (g.co_reach i j k);
          },
        )
    | inr e ↦
        let g = round-Grows s v in
        (
          round n acts s,
          last fuel s e,
          record {
            shape = g.shape;
            closed = subst (AllClosed n acts) (sym (quiet s v e)) (round-closed s v (quiet s v e));
            reach = g.reach;
            co_reach = g.co_reach;
          },
        )
  ]

unset_rows-le :
    (n : ℕ) (rows : List (List Bool))
    → ((i : ℕ) → i < length rows → length (get_or rows i []) ≡ n)
    → unset_rows rows ≤ length rows * n
unset_rows-le n [] h = omega arith
unset_rows-le n (r ∷ rows) h = omega (
  arith,
  h 0 (omega arith),
  unset-le-length r,
  unset_rows-le n rows (λ i k. h (suc i) (omega arith)),
)

pub open_marks-le : (n : ℕ) (s : Tables) → Shape n s → open_marks s ≤ n + n * n
open_marks-le n s v =
    let rows = unset_rows-le n s.co_reachable (λ i k. v.columns i (omega (arith, v.rows))) in
    let square : length s.co_reachable * n ≡ n * n = ap (λ (m : ℕ). m * n) v.rows in
    omega (arith, unset-le-length s.reachable, v.facts, rows, square)
