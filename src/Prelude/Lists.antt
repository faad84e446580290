-- ===== src/Prelude/Lists.antt =====
-- Lists measured and indexed by native numbers, and membership and universal predicates that
-- compute to sums and products.
use Prim.Native.Nat.{ℕ, zero, suc, ◌+◌, ◌<◌, ◌≤◌}
use mathlib.Core.Path.{◌≡◌, refl, sym, ap}
use mathlib.Core.Logic.{◌⊎◌, inl, inr, ⊎_elim}
use mathlib.Core.Bool.{Bool, true, false, false, ◌||◌}
use mathlib.Core.List.{List, [], ◌∷◌, ◌++◌}
use mathlib.Core.Option.{Option, none, some}
use native.Mathlib.Decide.{ℕ_discrete}
use native.Mathlib.Omega.{arith}
use ran_tan_plan.Prelude.Tests.{Bool-cases, ◌==◌, if◌then◌else◌}

module _ {ℓ} {A : Type ℓ} where
  abbrev pub length : List A → ℕ
  length [] = 0
  length (x ∷ xs) = suc (length xs)

  abbrev pub get_elem? : List A → ℕ → Option A
  get_elem? [] i = none
  get_elem? (x ∷ xs) zero = some x
  get_elem? (x ∷ xs) (suc i) = get_elem? xs i

  abbrev pub get_or : List A → ℕ → A → A
  get_or [] i d = d
  get_or (x ∷ xs) zero d = x
  get_or (x ∷ xs) (suc i) d = get_or xs i d

  -- A write out of bounds changes nothing.
  abbrev pub set : List A → ℕ → A → List A
  set [] i v = []
  set (x ∷ xs) zero v = v ∷ xs
  set (x ∷ xs) (suc i) v = x ∷ set xs i v

  abbrev pub replicate : ℕ → A → List A
  replicate zero a = []
  replicate (suc n) a = a ∷ replicate n a

module _ {A : Type 0} where
  -- Membership with the place kept.
  abbrev pub In : A → List A → Type 0
  In a [] = ⊥
  In a (x ∷ xs) = (a ≡ x) ⊎ In a xs

  abbrev pub All {κ} : (A → Type κ) → List A → Type κ
  All P [] = Unit
  All P (x ∷ xs) = P x × All P xs

  -- No element occurs twice.
  abbrev pub Distinct : List A → Type 0
  Distinct [] = Unit
  Distinct (x ∷ xs) = (¬ In x xs) × Distinct xs

  pub All-In {κ} : (P : A → Type κ) (xs : List A) (a : A) → All P xs → In a xs → P a
  All-In P [] a h m = absurd m
  All-In P (x ∷ xs) a h (inl e) = rw e h.0
  All-In P (x ∷ xs) a h (inr m) = All-In P xs a h.1 m

  pub All-of_In {κ} : (P : A → Type κ) (xs : List A) → ((a : A) → In a xs → P a) → All P xs
  All-of_In P [] h = tt
  All-of_In P (x ∷ xs) h = (h x (inl refl), All-of_In P xs (λ a m. h a (inr m)))

  pub In-append_left : (a : A) (xs ys : List A) → In a xs → In a (xs ++ ys)
  In-append_left a [] ys m = absurd m
  In-append_left a (x ∷ xs) ys (inl e) = inl e
  In-append_left a (x ∷ xs) ys (inr m) = inr (In-append_left a xs ys m)

  pub In-append_right : (a : A) (xs ys : List A) → In a ys → In a (xs ++ ys)
  In-append_right a [] ys m = m
  In-append_right a (x ∷ xs) ys m = inr (In-append_right a xs ys m)

  pub In-append : (a : A) (xs ys : List A) → In a (xs ++ ys) → In a xs ⊎ In a ys
  In-append a [] ys m = inr m
  In-append a (x ∷ xs) ys (inl e) = inl (inl e)
  In-append a (x ∷ xs) ys (inr m) = elim (In-append a xs ys m) [
    | inl l ↦ inl (inr l)
    | inr r ↦ inr r
  ]

module _ {ℓ} {A : Type ℓ} where
  pub length-append : (xs ys : List A) → length (xs ++ ys) ≡ length xs + length ys
  length-append [] ys = omega arith
  length-append (x ∷ xs) ys = omega (arith, length-append xs ys)

  pub length-set : (xs : List A) (i : ℕ) (v : A) → length (set xs i v) ≡ length xs
  length-set [] i v = refl
  length-set (x ∷ xs) zero v = refl
  length-set (x ∷ xs) (suc i) v = ap suc (length-set xs i v)

  pub length-replicate : (n : ℕ) (a : A) → length (replicate n a) ≡ n
  length-replicate zero a = refl
  length-replicate (suc n) a = ap suc (length-replicate n a)

  pub get_or-set :
      (xs : List A) (i j : ℕ) (v d : A)
      → i < length xs
      → get_or (set xs i v) j d ≡ (if i == j then v else get_or xs j d)
  get_or-set [] i j v d h = absurd (omega arith)
  get_or-set (x ∷ xs) zero zero v d h = ground arith
  get_or-set (x ∷ xs) zero (suc j) v d h = ground arith
  get_or-set (x ∷ xs) (suc i) zero v d h = ground arith
  get_or-set (x ∷ xs) (suc i) (suc j) v d h = ground (arith, get_or-set xs i j v d)

  pub get_or-replicate : (n i : ℕ) (a : A) → get_or (replicate n a) i a ≡ a
  get_or-replicate zero i a = refl
  get_or-replicate (suc n) zero a = refl
  get_or-replicate (suc n) (suc i) a = get_or-replicate n i a

  pub get_elem?-append_left :
      (xs ys : List A) (i : ℕ) (a : A) → get_elem? xs i ≡ some a → get_elem? (xs ++ ys) i ≡ some a
  get_elem?-append_left [] ys i a h = cc
  get_elem?-append_left (x ∷ xs) ys zero a h = h
  get_elem?-append_left (x ∷ xs) ys (suc i) a h = get_elem?-append_left xs ys i a h

  pub get_elem?-append_length :
      (xs : List A) (a : A) (ys : List A) → get_elem? (xs ++ a ∷ ys) (length xs) ≡ some a
  get_elem?-append_length [] a ys = refl
  get_elem?-append_length (x ∷ xs) a ys = get_elem?-append_length xs a ys

  pub get_elem?-append_cases :
      (xs : List A) (a : A) (i : ℕ) (b : A)
      → get_elem? (xs ++ a ∷ []) i ≡ some b
      → (get_elem? xs i ≡ some b) ⊎ ((i ≡ length xs) × (a ≡ b))
  get_elem?-append_cases [] a zero b h = inr (refl, cc)
  get_elem?-append_cases [] a (suc i) b h = inl h
  get_elem?-append_cases (x ∷ xs) a zero b h = inl h
  get_elem?-append_cases (x ∷ xs) a (suc i) b h = elim (get_elem?-append_cases xs a i b h) [
    | inl old ↦ inl old
    | inr (e, same) ↦ inr (ap suc e, same)
  ]

  pub lt-length_of_get_elem? :
      (xs : List A) (i : ℕ) (a : A) → get_elem? xs i ≡ some a → i < length xs
  lt-length_of_get_elem? [] i a h = cc
  lt-length_of_get_elem? (x ∷ xs) zero a h = omega arith
  lt-length_of_get_elem? (x ∷ xs) (suc i) a h = omega (arith, lt-length_of_get_elem? xs i a h)

module _ {A : Type 0} where
  pub In-of_get_elem? : (xs : List A) (i : ℕ) (a : A) → get_elem? xs i ≡ some a → In a xs
  In-of_get_elem? [] i a h = cc
  In-of_get_elem? (x ∷ xs) zero a h = inl (cc)
  In-of_get_elem? (x ∷ xs) (suc i) a h = inr (In-of_get_elem? xs i a h)

-- `std::find` over a vector of numbers.
abbrev pub contains : List ℕ → ℕ → Bool
contains [] a = false
contains (x ∷ xs) a = (x == a) || contains xs a

pub contains→In : (xs : List ℕ) (a : ℕ) → contains xs a ≡ true → In a xs
contains→In [] a h = cc
contains→In (x ∷ xs) a h = ground (arith, contains→In xs a)

pub In→contains : (xs : List ℕ) (a : ℕ) → In a xs → contains xs a ≡ true
In→contains [] a m = absurd m
In→contains (x ∷ xs) a (inl e) = ground arith
In→contains (x ∷ xs) a (inr m) = ground (arith, In→contains xs a m)

pub not-contains : (xs : List ℕ) (a : ℕ) → ¬ In a xs → contains xs a ≡ false
not-contains xs a h = elim (Bool-cases (contains xs a)) [
  | inl e ↦ absurd (h (contains→In xs a e))
  | inr e ↦ e
]

-- The numbers of a counted loop: `count_up k i` is i, i + 1, … of length k.
abbrev pub count_up : ℕ → ℕ → List ℕ
count_up zero i = []
count_up (suc k) i = i ∷ count_up k (i + 1)

abbrev pub range : ℕ → List ℕ
range n = count_up n 0

pub In→lt_count_up : (k i j : ℕ) → In j (count_up k i) → (i ≤ j) × (j < i + k)
In→lt_count_up zero i j m = absurd m
In→lt_count_up (suc k) i j (inl e) = omega arith
In→lt_count_up (suc k) i j (inr m) = omega (arith, In→lt_count_up k (i + 1) j m)

pub lt→In_count_up : (k i j : ℕ) → i ≤ j → j < i + k → In j (count_up k i)
lt→In_count_up zero i j l h = absurd (omega arith)
lt→In_count_up (suc k) i j l h = elim (ℕ_discrete j i) [
  | yes e ↦ inl e
  | no ne ↦ inr (lt→In_count_up k (i + 1) j (omega arith) (omega arith))
]

pub split_snoc :
    (l : List ℕ) (a : ℕ) (front : List ℕ) (u : ℕ) (back : List ℕ)
    → l ++ a ∷ [] ≡ front ++ u ∷ back
    → ((rest : List ℕ) × (l ≡ front ++ u ∷ rest)) ⊎ ((front ≡ l) × (u ≡ a))
split_snoc [] a [] u back e = inr (refl, cc)
split_snoc [] a (x ∷ []) u back e = cc
split_snoc [] a (x ∷ y ∷ front) u back e = cc
split_snoc (x ∷ l) a [] u back e = inl (l, cc)
split_snoc (x ∷ l) a (y ∷ front) u back e = elim (split_snoc l a front u back (cc)) [
  | inl (rest, k) ↦ inl (rest, cc)
  | inr (k, same) ↦ inr (cc, same)
]

pub Distinct-snoc : (l : List ℕ) (a : ℕ) → Distinct l → ¬ In a l → Distinct (l ++ a ∷ [])
Distinct-snoc [] a d h = ((λ m. m), tt)
Distinct-snoc (x ∷ l) a d h = (
  (λ m. ⊎_elim d.0 (λ k. ⊎_elim (λ e. h (inl (sym e))) (λ n. n) k) (In-append x l (a ∷ []) m)),
  Distinct-snoc l a d.1 (λ m. h (inr m)),
)
