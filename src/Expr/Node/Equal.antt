-- ===== src/Expr/Node/Equal.antt =====
-- Equality of handles, and of payloads up to the way doubles print.
use ran_tan_plan.Prelude.{
  ◌≡◌, refl, sym, ap, ◌∙◌, subst, Bool, true, false, List, [], ◌∷◌, In, inl, inr, if◌then◌else◌,
  if_false, Bool-cases, ==_iff, ==_refl,
}
use ran_tan_plan.Expr.Node.{
  ExprId, null, ref, id_beq, ExprPayload, monostate, bool, int64, double, string,
}
use ran_tan_plan.Expr.Node.Key.{SamePayload}

pub id_beq→eq : (a b : ExprId) → id_beq a b ≡ true → a ≡ b
unfolding id_beq
id_beq→eq null null h = refl
id_beq→eq null (ref j) h = cc
id_beq→eq (ref i) null h = cc
id_beq→eq (ref i) (ref j) h = ap ref ((==_iff i j).0 h)

pub id_beq_refl : (a : ExprId) → id_beq a a ≡ true
unfolding id_beq
id_beq_refl null = refl
id_beq_refl (ref i) = ==_refl i

-- Doubles that print alike print alike in a chain.
pub SamePayload-trans : (p q r : ExprPayload) → SamePayload p q → SamePayload q r → SamePayload p r
SamePayload-trans monostate q r h k = subst (λ x. SamePayload x r) (sym h) k
SamePayload-trans (bool b) q r h k = subst (λ x. SamePayload x r) (sym h) k
SamePayload-trans (int64 z) q r h k = subst (λ x. SamePayload x r) (sym h) k
SamePayload-trans (string s) q r h k = subst (λ x. SamePayload x r) (sym h) k
SamePayload-trans (double d) (double e) (double f) h k = h ∙ k
SamePayload-trans (double d) (double e) monostate h k = absurd (cc)
SamePayload-trans (double d) (double e) (bool b) h k = absurd (cc)
SamePayload-trans (double d) (double e) (int64 z) h k = absurd (cc)
SamePayload-trans (double d) (double e) (string s) h k = absurd (cc)
SamePayload-trans (double d) monostate r h k = absurd (cc)
SamePayload-trans (double d) (bool b) r h k = absurd (cc)
SamePayload-trans (double d) (int64 z) r h k = absurd (cc)
SamePayload-trans (double d) (string s) r h k = absurd (cc)

-- `std::unordered_set::count` of a set of handles.
unfoldable pub is_in : ExprId → List ExprId → Bool
unfolding id_beq
is_in e [] = false
is_in e (x ∷ xs) = let rest = is_in e xs in if id_beq x e then true else rest

pub In→is_in : (e : ExprId) (xs : List ExprId) → In e xs → is_in e xs ≡ true
unfolding is_in
In→is_in e [] m = absurd m
In→is_in e (x ∷ xs) (inl same) =
    let found : id_beq x e ≡ true = subst (λ y. id_beq y e ≡ true) same (id_beq_refl e) in
    rw found refl
In→is_in e (x ∷ xs) (inr m) = either (id_beq x e) (In→is_in e xs m)
  where
    either : {rest : Bool} (b : Bool) → rest ≡ true → (if b then true else rest) ≡ true
    either true h = refl
    either false h = h

pub is_in→In : (e : ExprId) (xs : List ExprId) → is_in e xs ≡ true → In e xs
unfolding is_in
is_in→In e [] h = cc
is_in→In e (x ∷ xs) h = elim (Bool-cases (id_beq x e)) [
  | inl found ↦ inl (sym (id_beq→eq x e found))
  | inr other ↦ inr (is_in→In e xs (sym (if_false _ _ _ other) ∙ h))
]
