-- ===== src/Expr/Node/Key.antt =====
-- `canonical_key` (problem/expr_pool.cpp) determines a node, but for doubles that print alike.
use mathlib.Core.List.{append_assoc}
use ran_tan_plan.Prelude.{
  ℕ, ◌/◌, ◌%◌, ◌^◌, ◌≡◌, refl, sym, ap, ◌∙◌, subst, ◌≢◌, ◌↔◌, Bool, true, false, Option, none, some,
  List, [], ◌∷◌, ◌++◌, arith, Text, ℤ, show_nat, show_int, All, All-map, All-append, IsDigit,
  IsIntChar, show_nat-IsDigit, show_nat-injective, show_int-IsIntChar, show_int-injective,
  show_int-ne-nil, split_unique, split_length, length,
}
use ran_tan_plan.Expr.Kinds.{ExprOperator, kind_code-injective, op_code-injective}
use ran_tan_plan.Expr.Node.{
  ExprId, null, ref, id_int, Double, nan, inf, fin, ExprPayload, monostate, bool, int64, double,
  string, ExprNode, micros, minus_if, pad6, double_text, op_int, type_int, payload_key,
  more_children, children_key, canonical_key,
}

-- Doubles count as equal when they print alike.
abbrev pub SamePayload : ExprPayload → ExprPayload → Type 0
SamePayload (double d) (double e) = double_text d ≡ double_text e
SamePayload p q = p ≡ q

pub record Similar (m n : ExprNode) : Type 0 where
  pub kind : m.kind ≡ n.kind
  pub op : m.op ≡ n.op
  pub type_id : m.type_id ≡ n.type_id
  pub children : m.children ≡ n.children
  pub payload : SamePayload m.payload n.payload

int-free : (c : ℕ) (z : ℤ) → ¬ IsIntChar c → All (λ x. x ≢ c) (show_int z)
int-free c z h =
    All-map IsIntChar (λ x. x ≢ c) (show_int z) (λ x i e. h (subst IsIntChar e i))
      (show_int-IsIntChar z)

nat-free : (c n : ℕ) → ¬ IsDigit c → All (λ x. x ≢ c) (show_nat n)
nat-free c n h =
    All-map IsDigit (λ x. x ≢ c) (show_nat n) (λ x i e. h (subst IsDigit e i)) (show_nat-IsDigit n)

-- An integer in front of a separator.
split_int :
    (c : ℕ) (a b : ℤ) (r s : Text)
    → ¬ IsIntChar c
    → show_int a ++ c ∷ r ≡ show_int b ++ c ∷ s
    → (a ≡ b) × (r ≡ s)
split_int c a b r s h e =
    let (same, rest) =
      split_unique c (show_int a) (show_int b) r s (int-free c a h) (int-free c b h) e in
    (show_int-injective a b same, rest)

not-colon : ¬ IsIntChar b':'
not-colon h = omega arith

not-bar : ¬ IsIntChar b'|'
not-bar h = omega arith

not-comma : ¬ IsIntChar b','
not-comma h = omega arith

-- Doubles print without a bar.
abbrev NoBar : Text → Type 0
NoBar = All (λ x. x ≢ b'|')

nat-NoBar : (n : ℕ) → NoBar (show_nat n)
nat-NoBar n = nat-free b'|' n (λ h. omega arith)

minus_if-NoBar : (s : Bool) → NoBar (minus_if s)
unfolding minus_if
minus_if-NoBar true = (omega arith, tt)
minus_if-NoBar false = tt

pad6-NoBar : (n : ℕ) → NoBar (pad6 n)
unfolding pad6
pad6-NoBar n = ground (arith, nat-NoBar n)

double_text-NoBar : (d : Double) → NoBar (double_text d)
unfolding double_text
double_text-NoBar (nan s) = All-append _ (minus_if s) _ (minus_if-NoBar s) (omega arith)
double_text-NoBar (inf s) = All-append _ (minus_if s) _ (minus_if-NoBar s) (omega arith)
double_text-NoBar (fin s u) =
    let m = micros u in
    All-append _ (minus_if s) _ (minus_if-NoBar s) (
      All-append _ (show_nat (m / 10 ^ 6)) _ (nat-NoBar (m / 10 ^ 6))
        (omega arith, pad6-NoBar (m % 10 ^ 6)))

abbrev first : Text → ℕ
first [] = 0
first (c ∷ cs) = c

-- A payload in front of the bar.
split_payload :
    (p q : ExprPayload) (r s : Text)
    → payload_key p ++ b'|' ∷ r ≡ payload_key q ++ b'|' ∷ s
    → SamePayload p q × (r ≡ s)
unfolding payload_key
split_payload monostate monostate r s e = (refl, cc)
split_payload (bool a) (bool b) r s e = ground arith
split_payload (int64 a) (int64 b) r s e =
    let (same, rest) = split_int b'|' a b r s not-bar (cc) in (ap int64 same, rest)
split_payload (double a) (double b) r s e =
    split_unique b'|' (double_text a) (double_text b) r s (double_text-NoBar a)
      (double_text-NoBar b) (cc)
split_payload (string a) (string b) r s e =
    let (size, rest) =
      split_unique b':' (show_nat (length a)) (show_nat (length b)) (a ++ b'|' ∷ r) (b ++ b'|' ∷ s)
        (nat-free b':' (length a) (λ h. omega arith)) (nat-free b':' (length b) (λ h. omega arith))
        (regroup (length a) (length b) e) in
    let (same, rest') =
      split_length a b (b'|' ∷ r) (b'|' ∷ s) (show_nat-injective (length a) (length b) size) rest in
    (ap string same, cc)
  where
    tails : {u v : Text} → b's' ∷ b':' ∷ u ≡ b's' ∷ b':' ∷ v → u ≡ v
    tails h = cc

    regroup :
        (m n : ℕ)
        → b's' ∷ b':' ∷ ((show_nat m ++ b':' ∷ a) ++ b'|' ∷ r)
          ≡ b's' ∷ b':' ∷ ((show_nat n ++ b':' ∷ b) ++ b'|' ∷ s)
        → show_nat m ++ b':' ∷ (a ++ b'|' ∷ r) ≡ show_nat n ++ b':' ∷ (b ++ b'|' ∷ s)
    regroup m n h =
        sym (append_assoc (show_nat m) (b':' ∷ a) (b'|' ∷ r))
        ∙ tails h
        ∙ append_assoc (show_nat n) (b':' ∷ b) (b'|' ∷ s)
split_payload p q r s e = absurd (omega (arith, ap first e))

-- Each child in front of a comma.
ended : List ExprId → Text
ended [] = []
ended (c ∷ cs) = show_int (id_int c) ++ b',' ∷ ended cs

id_int-injective : (a b : ExprId) → id_int a ≡ id_int b → a ≡ b
unfolding id_int
id_int-injective null null e = refl
id_int-injective null (ref j) e = cc
id_int-injective (ref i) null e = cc
id_int-injective (ref i) (ref j) e = cc

nil-ne-append : (xs : Text) (c : ℕ) (ys : Text) → xs ++ c ∷ ys ≢ []
nil-ne-append [] c ys e = cc
nil-ne-append (x ∷ xs) c ys e = cc

ended-injective : (xs ys : List ExprId) → ended xs ≡ ended ys → xs ≡ ys
unfolding ended
ended-injective [] [] e = refl
ended-injective [] (y ∷ ys) e = absurd (nil-ne-append (show_int (id_int y)) b',' (ended ys) (sym e))
ended-injective (x ∷ xs) [] e = absurd (nil-ne-append (show_int (id_int x)) b',' (ended xs) e)
ended-injective (x ∷ xs) (y ∷ ys) e =
    let (same, rest) = split_int b',' (id_int x) (id_int y) (ended xs) (ended ys) not-comma e in
    let head = id_int-injective x y same in let tail = ended-injective xs ys rest in (cc)

more_children-ended : (xs : List ExprId) → more_children xs ++ b',' ∷ [] ≡ b',' ∷ ended xs
unfolding more_children ended
more_children-ended [] = refl
more_children-ended (x ∷ xs) = ap (◌∷◌ b',') (
    append_assoc (show_int (id_int x)) (more_children xs) (b',' ∷ [])
    ∙ ap (◌++◌ (show_int (id_int x))) (more_children-ended xs))

children_key-ended :
    (x : ExprId) (xs : List ExprId) → children_key (x ∷ xs) ++ b',' ∷ [] ≡ ended (x ∷ xs)
unfolding children_key ended
children_key-ended x xs =
    append_assoc (show_int (id_int x)) (more_children xs) (b',' ∷ [])
    ∙ ap (◌++◌ (show_int (id_int x))) (more_children-ended xs)

children_key-ne-nil : (x : ExprId) (xs : List ExprId) → children_key (x ∷ xs) ≢ []
unfolding children_key
children_key-ne-nil x xs e = start (show_int (id_int x)) (show_int-ne-nil (id_int x)) e
  where
    start : (t : Text) → t ≢ [] → t ++ more_children xs ≡ [] → ⊥
    start [] h k = h refl
    start (c ∷ cs) h k = cc

children_key-injective : (xs ys : List ExprId) → children_key xs ≡ children_key ys → xs ≡ ys
unfolding children_key
children_key-injective [] [] e = refl
children_key-injective [] (y ∷ ys) e = absurd (children_key-ne-nil y ys (sym e))
children_key-injective (x ∷ xs) [] e = absurd (children_key-ne-nil x xs e)
children_key-injective (x ∷ xs) (y ∷ ys) e =
    ended-injective (x ∷ xs) (y ∷ ys)
      (sym (children_key-ended x xs) ∙ ap (λ t. t ++ b',' ∷ []) e ∙ children_key-ended y ys)

op_int-injective : (a b : Option ExprOperator) → op_int a ≡ op_int b → a ≡ b
unfolding op_int
op_int-injective none none e = refl
op_int-injective none (some b) e = cc
op_int-injective (some a) none e = cc
op_int-injective (some a) (some b) e = ap some (op_code-injective a b (cc))

type_int-injective : (a b : Option ℕ) → type_int a ≡ type_int b → a ≡ b
unfolding type_int
type_int-injective none none e = refl
type_int-injective none (some b) e = cc
type_int-injective (some a) none e = cc
type_int-injective (some a) (some b) e = cc

pub Similar-of_key : (m n : ExprNode) → canonical_key m ≡ canonical_key n → Similar m n
unfolding canonical_key
Similar-of_key m n e =
    let (k, e₁) = split_int b':' _ _ _ _ not-colon e in
    let (o, e₂) = split_int b':' _ _ _ _ not-colon e₁ in
    let (t, e₃) = split_int b'|' _ _ _ _ not-bar e₂ in
    let (p, e₄) = split_payload m.payload n.payload _ _ e₃ in
    record {
      kind = kind_code-injective m.kind n.kind (cc);
      op = op_int-injective m.op n.op o;
      type_id = type_int-injective m.type_id n.type_id t;
      children = children_key-injective m.children n.children e₄;
      payload = p;
    }

payload_key_of_SamePayload : (p q : ExprPayload) → SamePayload p q → payload_key p ≡ payload_key q
unfolding payload_key
payload_key_of_SamePayload (double d) (double e) h = cc
payload_key_of_SamePayload p q h = ap payload_key h

-- Two nodes have one key exactly when they agree in kind, operator, type, children and payload,
-- where two doubles agree when they print alike.
pub canonical_key_iff : (m n : ExprNode) → (canonical_key m ≡ canonical_key n) ↔ Similar m n
unfolding canonical_key
canonical_key_iff m n = (
  Similar-of_key m n,
  λ s. rw (
    s.kind,
    s.op,
    s.type_id,
    s.children,
    payload_key_of_SamePayload m.payload n.payload s.payload,
  ),
)
