-- ===== src/Grounding/FactIndex.antt =====
-- rantanplan/cpp/src/grounding/fact_index.hpp and fact_index.cpp: the facts known to be reachable, per
-- fluent in the order they were added and as a set. A set of tuples is a list here. The assertion of
-- `add_fact`, that the fluent has a bucket, is a hypothesis of the theorems; fluents are found under
-- their name as the maps of `Problem` find them, the last one of a name; a
-- head symbol that carries no name, on which the source throws, gives `none`.
pub mod Contract
pub mod Initial
mod Tests
use ran_tan_plan.Prelude.{
  int_beq, int_beq_refl, int_beq→eq, ℕ, zero, suc, ◌+◌, ◌-◌, ◌%◌, ◌^◌, Bool, true, false, not, ◌&&◌,
  Option, none, some, List, [], ◌∷◌, ◌++◌, length, get_or, set, replicate, ltb, ◌==◌, if◌then◌else◌,
  ◌>>=◌, Text, ℤ, pos, negsuc,
}
use ran_tan_plan.Expr.Kinds.{ExprKind}
use ran_tan_plan.Expr.Node.{
  ExprId, null, ref, ExprNode, ExprPayload, monostate, bool, int64, double, string,
}
use ran_tan_plan.Expr.Pool.{
  ExprPool, get, is_kind, is_state_variable, is_constant, children, arguments, is_bool_constant,
  text_beq,
}
use ran_tan_plan.Problem.{Assignment}

abbrev pub Tuple : Type 0
Tuple = List ℤ

pub record FactIndex : Type 0 where
  pub facts_by_fluent : List (List Tuple)
  pub fact_sets : List (List Tuple)
  pub total_facts : ℕ

pub tuple_beq : Tuple → Tuple → Bool
tuple_beq [] [] = true
tuple_beq (a ∷ s) (b ∷ t) = int_beq a b && tuple_beq s t
tuple_beq _ _ = false

pub member : Tuple → List Tuple → Bool
member t [] = false
member t (x ∷ xs) = let rest = member t xs in if tuple_beq x t then true else rest

-- `FactIndex(problem)`, for a problem with n fluents.
pub make : ℕ → FactIndex
make n = record { facts_by_fluent = replicate n []; fact_sets = replicate n []; total_facts = 0 }

-- Whether the fact is new, and the index afterwards.
pub add_fact : FactIndex → ℕ → Tuple → Bool × FactIndex
add_fact f s t = if member t (get_or f.fact_sets s []) then (false, f) else (
  true,
  record {
    facts_by_fluent = set f.facts_by_fluent s (get_or f.facts_by_fluent s [] ++ t ∷ []);
    fact_sets = set f.fact_sets s (t ∷ get_or f.fact_sets s []);
    total_facts = suc f.total_facts;
  },
)

-- The tests of the id against 0 and the size come first; out of range, the bucket is empty.
pub contains_fact : FactIndex → ℤ → Tuple → Bool
contains_fact f (negsuc k) t = false
contains_fact f (pos s) t =
    let found = member t (get_or f.fact_sets s []) in
    if ltb s (length f.fact_sets) then found else false

pub get_facts : FactIndex → ℤ → List Tuple
get_facts f (negsuc k) = []
get_facts f (pos s) =
    let facts = get_or f.facts_by_fluent s [] in
    if ltb s (length f.facts_by_fluent) then facts else []

-- The fluents and objects of the problem.
pub record FluentSchema : Type 0 where
  pub name : Text
  pub id : ℕ
  pub is_predicate : Bool

pub record Vocabulary : Type 0 where
  pub fluents : List FluentSchema
  pub objects : List Text

pub find_fluent : Text → List FluentSchema → Option FluentSchema
find_fluent s [] = none
find_fluent s (f ∷ fs) = elim (find_fluent s fs) [
  | some g ↦ some g
  | none ↦ if text_beq f.name s then some f else none
]

pub find_object_index : Text → List Text → Option ℕ
find_object_index s [] = none
find_object_index s (o ∷ os) = elim (find_object_index s os) [
  | some i ↦ some (suc i)
  | none ↦ if text_beq o s then some 0 else none
]

-- `static_cast<int>` of a 64-bit integer.
pub to_int32 : ℤ → ℤ
to_int32 z =
    let r : ℕ = elim z [ pos n ↦ n % 2 ^ 32 | negsuc n ↦ 2 ^ 32 - 1 - n % 2 ^ 32 ] in
    if ltb r (2 ^ 31) then pos r else negsuc (2 ^ 32 - 1 - r)

pub object_index : Vocabulary → Text → Option ℤ
object_index v s = do i ← find_object_index s v.objects; some (pos i)

-- One argument: an object or an integer.
pub argument_index : ExprPool → Vocabulary → ExprId → Option ℤ
argument_index p v arg = do
  n ← get p arg
  if is_constant p arg
      then elim n.payload [ string s ↦ object_index v s | int64 z ↦ some (to_int32 z) | _ ↦ none ]
      else none

pub argument_indices : ExprPool → Vocabulary → List ExprId → Option Tuple
argument_indices p v [] = some []
argument_indices p v (a ∷ as') = do
  i ← argument_index p v a
  is ← argument_indices p v as'
  some (i ∷ is)

-- The name in the head symbol, `none` if there is no head symbol that is a fluent's.
pub head_name : ExprPool → ExprId → Option Text
head_name p e = elim (children p e) [
  | [] ↦ none
  | h ∷ cs ↦
      if is_kind p h ExprKind.fluent_symbol
      then elim (get p h) [ none ↦ none | some n ↦ elim n.payload [ string s ↦ some s | _ ↦ none ] ]
      else none
]

pub decomposed : ExprPool → Vocabulary → ExprId → Option (ℕ × Tuple)
decomposed p v e = do
  name ← head_name p e
  f ← find_fluent name v.fluents
  t ← argument_indices p v (arguments p e)
  if f.is_predicate then some (f.id, t) else none

pub decompose_state_variable : ExprPool → Vocabulary → ExprId → Option (ℕ × Tuple)
decompose_state_variable p v e = if is_state_variable p e then decomposed p v e else none

pub initialize_from_initial_state : ExprPool → Vocabulary → List Assignment → FactIndex → FactIndex
initialize_from_initial_state p v [] f = f
initialize_from_initial_state p v (a ∷ more) f =
    let added : FactIndex = elim (decompose_state_variable p v a.fluent_id) [
      | some (s, t) ↦ (add_fact f s t).1
      | none ↦ f
    ] in
    initialize_from_initial_state p v more (if is_bool_constant true p a.value_id then added else f)
