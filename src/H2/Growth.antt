-- ===== src/H2/Growth.antt =====
-- What every step of `compute` does to the tables: it keeps their shape, loses no mark, and either
-- leaves them as they are or sets `changed` and a flag that was unset.
use ran_tan_plan.Prelude.{
  ℕ, ◌+◌, ◌<◌, ◌≡◌, refl, sym, ◌∙◌, subst, ◌⊎◌, inl, inr, Bool, true, List, [], ◌∷◌, arith, length,
  get_or, foldl, In, unset,
}
use ran_tan_plan.H2.{Tables, is_reachable, is_co_reachable}

-- The flags that are still unset in a matrix.
abbrev pub unset_rows : List (List Bool) → ℕ
unset_rows [] = 0
unset_rows (r ∷ rs) = unset r + unset_rows rs

abbrev pub open_marks : Tables → ℕ
open_marks s = unset s.reachable + unset_rows s.co_reachable

-- n facts, a square matrix that is symmetric.
pub record Shape (n : ℕ) (s : Tables) : Type 0 where
  pub facts : length s.reachable ≡ n
  pub rows : length s.co_reachable ≡ n
  pub columns : (i : ℕ) → i < n → length (get_or s.co_reachable i []) ≡ n
  pub symmetric : (i j : ℕ) → is_co_reachable s i j ≡ is_co_reachable s j i

pub record Grows (n : ℕ) (s t : Tables) : Type 0 where
  pub shape : Shape n t
  pub falls : (t ≡ s) ⊎ ((t.changed ≡ true) × (open_marks t < open_marks s))
  pub reach : (i : ℕ) → is_reachable s i ≡ true → is_reachable t i ≡ true
  pub co_reach : (i j : ℕ) → is_co_reachable s i j ≡ true → is_co_reachable t i j ≡ true

pub Grows-refl : (n : ℕ) (s : Tables) → Shape n s → Grows n s s
Grows-refl n s h = record { shape = h; falls = inl refl; reach = λ i e. e; co_reach = λ i j e. e }

falls_trans :
    (s t u : Tables)
    → (t ≡ s) ⊎ ((t.changed ≡ true) × (open_marks t < open_marks s))
    → (u ≡ t) ⊎ ((u.changed ≡ true) × (open_marks u < open_marks t))
    → (u ≡ s) ⊎ ((u.changed ≡ true) × (open_marks u < open_marks s))
falls_trans s t u (inl e) (inl k) = inl (k ∙ e)
falls_trans s t u (inl e) (inr k) = inr (k.0, subst (λ x. open_marks u < open_marks x) e k.1)
falls_trans s t u (inr h) (inl k) =
    inr (subst (λ x. (x.changed ≡ true) × (open_marks x < open_marks s)) (sym k) h)
falls_trans s t u (inr h) (inr k) = inr (k.0, omega arith)

pub Grows-trans : (n : ℕ) (s t u : Tables) → Grows n s t → Grows n t u → Grows n s u
Grows-trans n s t u g h = record {
  shape = h.shape;
  falls = falls_trans s t u g.falls h.falls;
  reach = λ i e. h.reach i (g.reach i e);
  co_reach = λ i j e. h.co_reach i j (g.co_reach i j e);
}

pub foldl-Grows :
    {A : Type 0} (n : ℕ) (f : Tables → A → Tables) (xs : List A)
    → ((s : Tables) (x : A) → In x xs → Shape n s → Grows n s (f s x))
    → (s : Tables) → Shape n s
    → Grows n s (foldl f s xs)
foldl-Grows n f [] h s v = Grows-refl n s v
foldl-Grows n f (x ∷ xs) h s v =
    let one = h s x (inl refl) v in
    Grows-trans n s (f s x) (foldl f (f s x) xs) one
      (foldl-Grows n f xs (λ t y m. h t y (inr m)) (f s x) one.shape)
