-- ===== src/Prelude/Decimal.antt =====
-- `std::to_string` of integers, as bytes, and the reading back that shows it loses nothing.
use Prim.Native.Nat.{ℕ, zero, suc, ◌+◌, ◌-◌, ◌*◌, ◌/◌, ◌%◌, ◌<◌, ◌≤◌}
use mathlib.Core.Path.{◌≡◌, refl, sym, ap, ◌∙◌}
use mathlib.Core.Logic.{◌≢◌, ◌⊎◌, inl, inr}
use mathlib.Core.List.{List, [], ◌∷◌, ◌++◌}
use native.Mathlib.Omega.{arith}
use ran_tan_plan.Prelude.Tests.{ltb, if◌then◌else◌, Bool-cases}
use ran_tan_plan.Prelude.Lists.{All, length}
use ran_tan_plan.Prelude.Int.{ℤ, pos, negsuc}

-- A string of bytes.
abbrev pub Text : Type 0
Text = List ℕ

show_digits : ℕ → ℕ → Text
show_digits zero n = []
show_digits (suc f) n =
    let front = show_digits f (n / 10) in
    if ltb n 10 then (48 + n) ∷ [] else front ++ (48 + n % 10) ∷ []

pub show_nat : ℕ → Text
show_nat n = show_digits (suc n) n

pub show_int : ℤ → Text
show_int (pos n) = show_nat n
show_int (negsuc n) = b'-' ∷ show_nat (suc n)

read_from : ℕ → Text → ℕ
read_from acc [] = acc
read_from acc (c ∷ cs) = read_from (acc * 10 + (c - 48)) cs

read_from-append :
    (acc : ℕ) (xs : Text) (c : ℕ) → read_from acc (xs ++ c ∷ []) ≡ read_from acc xs * 10 + (c - 48)
unfolding read_from
read_from-append acc [] c = refl
read_from-append acc (x ∷ xs) c = read_from-append (acc * 10 + (x - 48)) xs c

read_from-show_digits : (f n : ℕ) → n < f → read_from 0 (show_digits f n) ≡ n
unfolding show_digits read_from
read_from-show_digits zero n h = absurd (omega arith)
read_from-show_digits (suc f) n h = elim (Bool-cases (ltb n 10)) [
  | inl small ↦ rw small (omega arith)
  | inr big ↦
      let ih = read_from-show_digits f (n / 10) (ground arith) in
      rw (big, read_from-append 0 (show_digits f (n / 10)) (48 + n % 10), ih) (omega arith)
]

pub show_nat-injective : (m n : ℕ) → show_nat m ≡ show_nat n → m ≡ n
unfolding show_nat
show_nat-injective m n h =
    sym (read_from-show_digits (suc m) m (omega arith))
    ∙ ap (read_from 0) h
    ∙ read_from-show_digits (suc n) n (omega arith)

-- A decimal digit or a minus sign.
abbrev pub IsDigit : ℕ → Type 0
IsDigit c = (48 ≤ c) × (c < 58)

All-concat : (P : ℕ → Type 0) (xs : Text) (c : ℕ) → All P xs → P c → All P (xs ++ c ∷ [])
All-concat P [] c h p = (p, tt)
All-concat P (x ∷ xs) c h p = (h.0, All-concat P xs c h.1 p)

show_digits-IsDigit : (f n : ℕ) → All IsDigit (show_digits f n)
unfolding show_digits
show_digits-IsDigit zero n = tt
show_digits-IsDigit (suc f) n = elim (Bool-cases (ltb n 10)) [
  | inl small ↦ rw small ((ground arith, ground arith), tt)
  | inr big ↦ rw big (
      All-concat IsDigit (show_digits f (n / 10)) (48 + n % 10) (show_digits-IsDigit f (n / 10))
        (omega arith, omega arith))
]

pub show_nat-IsDigit : (n : ℕ) → All IsDigit (show_nat n)
unfolding show_nat
show_nat-IsDigit n = show_digits-IsDigit (suc n) n

concat-ne-nil : (xs : Text) (c : ℕ) → xs ++ c ∷ [] ≢ []
concat-ne-nil [] c h = cc
concat-ne-nil (x ∷ xs) c h = cc

pub show_nat-ne-nil : (n : ℕ) → show_nat n ≢ []
unfolding show_nat show_digits
show_nat-ne-nil n h = elim (Bool-cases (ltb n 10)) [
  | inl small ↦ ground arith
  | inr big ↦ concat-ne-nil (show_digits n (n / 10)) (48 + n % 10) (ground arith)
]

-- A digit or a minus sign: what `show_int` is made of.
abbrev pub IsIntChar : ℕ → Type 0
IsIntChar c = IsDigit c ⊎ (c ≡ b'-')

digits-IsIntChar : (xs : Text) → All IsDigit xs → All IsIntChar xs
digits-IsIntChar [] h = tt
digits-IsIntChar (x ∷ xs) h = (inl h.0, digits-IsIntChar xs h.1)

pub show_int-IsIntChar : (z : ℤ) → All IsIntChar (show_int z)
unfolding show_int
show_int-IsIntChar (pos n) = digits-IsIntChar (show_nat n) (show_nat-IsDigit n)
show_int-IsIntChar (negsuc n) =
    (inr refl, digits-IsIntChar (show_nat (suc n)) (show_nat-IsDigit (suc n)))

not-IsDigit_minus : (xs ys : Text) → All IsDigit xs → xs ≢ b'-' ∷ ys
not-IsDigit_minus [] ys h e = cc
not-IsDigit_minus (x ∷ xs) ys h e = ground arith

pub show_int-injective : (a b : ℤ) → show_int a ≡ show_int b → a ≡ b
unfolding show_int
show_int-injective (pos m) (pos n) h = ap pos (show_nat-injective m n h)
show_int-injective (pos m) (negsuc n) h =
    absurd (not-IsDigit_minus (show_nat m) (show_nat (suc n)) (show_nat-IsDigit m) h)
show_int-injective (negsuc m) (pos n) h =
    absurd (not-IsDigit_minus (show_nat n) (show_nat (suc m)) (show_nat-IsDigit n) (sym h))
show_int-injective (negsuc m) (negsuc n) h =
    let e : suc m ≡ suc n = show_nat-injective (suc m) (suc n) (cc) in
    let e' : m ≡ n = omega arith in ap negsuc e'

pub show_int-ne-nil : (z : ℤ) → show_int z ≢ []
unfolding show_int
show_int-ne-nil (pos n) h = show_nat-ne-nil n h
show_int-ne-nil (negsuc n) h = cc

-- Before its first separator a text is determined.
pub split_unique :
    (c : ℕ) (xs ys r s : Text)
    → All (λ x. x ≢ c) xs
    → All (λ x. x ≢ c) ys
    → xs ++ c ∷ r ≡ ys ++ c ∷ s
    → (xs ≡ ys) × (r ≡ s)
split_unique c [] [] r s h k e = (refl, cc)
split_unique c [] (y ∷ ys) r s h k e = absurd (k.0 (cc))
split_unique c (x ∷ xs) [] r s h k e = absurd (h.0 (cc))
split_unique c (x ∷ xs) (y ∷ ys) r s h k e =
    let (same, rest) = split_unique c xs ys r s h.1 k.1 (cc) in let head : x ≡ y = cc in (cc, rest)

-- Two texts of one length, each with a rest.
pub split_length :
    (xs ys r s : Text) → length xs ≡ length ys → xs ++ r ≡ ys ++ s → (xs ≡ ys) × (r ≡ s)
split_length [] [] r s h e = (refl, e)
split_length [] (y ∷ ys) r s h e = absurd (omega arith)
split_length (x ∷ xs) [] r s h e = absurd (omega arith)
split_length (x ∷ xs) (y ∷ ys) r s h e =
    let (same, rest) = split_length xs ys r s (omega arith) (cc) in
    let head : x ≡ y = cc in (cc, rest)

pub All-append {κ} : (P : ℕ → Type κ) (xs ys : Text) → All P xs → All P ys → All P (xs ++ ys)
All-append P [] ys h k = k
All-append P (x ∷ xs) ys h k = (h.0, All-append P xs ys h.1 k)

pub All-map {κ ι} :
    (P : ℕ → Type κ) (Q : ℕ → Type ι) (xs : Text) → ((x : ℕ) → P x → Q x) → All P xs → All Q xs
All-map P Q [] f h = tt
All-map P Q (x ∷ xs) f h = (f x h.0, All-map P Q xs f h.1)

show_nat_runs : show_nat 1204 ≡ b'1' ∷ b'2' ∷ b'0' ∷ b'4' ∷ []
unfolding show_nat show_digits
show_nat_runs = refl
