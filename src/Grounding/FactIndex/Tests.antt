-- ===== src/Grounding/FactIndex/Tests.antt =====
-- The index of a problem with one predicate `p` of one argument, which holds initially of the object
-- `o`.
use ran_tan_plan.Prelude.{
  ℕ, ◌≡◌, refl, true, not, ◌&&◌, ◌||◌, none, some, List, [], ◌∷◌, arith, pos, ◌==◌,
}
use ran_tan_plan.Expr.Kinds.{ExprKind, kind_beq}
use ran_tan_plan.Expr.Node.{ref, monostate, bool, string}
use ran_tan_plan.Expr.Pool.{
  ExprPool, get, is_kind, is_state_variable, is_constant, children, arguments, is_bool_constant,
  text_beq,
}
use ran_tan_plan.Problem.{Assignment}
use ran_tan_plan.Grounding.FactIndex.{
  Tuple, tuple_beq, member, make, add_fact, contains_fact, get_facts, Vocabulary, find_fluent,
  find_object_index, object_index, argument_index, argument_indices, head_name, decomposed,
  decompose_state_variable, initialize_from_initial_state,
}
use ran_tan_plan.Grounding.FactIndex.Contract.{IsIndex, add_fact_lem}
use ran_tan_plan.Grounding.FactIndex.Initial.{make-IsIndex}

abbrev p_of_o : ExprPool
p_of_o = record {
  nodes =
      record {
        kind = ExprKind.fluent_symbol;
        op = none;
        type_id = none;
        children = [];
        payload = string (b'p' ∷ []);
      }
      ∷ record {
        kind = ExprKind.constant;
        op = none;
        type_id = none;
        children = [];
        payload = string (b'o' ∷ []);
      }
      ∷ record {
        kind = ExprKind.state_variable;
        op = none;
        type_id = some 0;
        children = ref 0 ∷ ref 1 ∷ [];
        payload = monostate;
      }
      ∷ record {
        kind = ExprKind.constant;
        op = none;
        type_id = none;
        children = [];
        payload = bool true;
      }
      ∷ [];
  keys = [];
}

abbrev words : Vocabulary
words = record {
  fluents = record { name = b'p' ∷ []; id = 0; is_predicate = true } ∷ [];
  objects = (b'q' ∷ []) ∷ (b'o' ∷ []) ∷ [];
}

abbrev begin : List Assignment
begin = record { fluent_id = ref 2; value_id = ref 3 } ∷ []

seeded_once :
    get_facts (initialize_from_initial_state p_of_o words begin (make 1)) (pos 0)
    ≡ (pos 1 ∷ []) ∷ []
unfolding get_facts initialize_from_initial_state make add_fact member decompose_state_variable
    decomposed head_name find_fluent find_object_index object_index argument_index argument_indices
    is_bool_constant is_state_variable is_kind is_constant children arguments get kind_beq text_beq
seeded_once = refl

no_facts-IsIndex : IsIndex 1 (make 1)
no_facts-IsIndex = make-IsIndex 1

add_fact_lem_example :
    IsIndex 1 (add_fact (make 1) 0 (pos 1 ∷ [])).1
    × ((add_fact (make 1) 0 (pos 1 ∷ [])).0 ≡ not (contains_fact (make 1) (pos 0) (pos 1 ∷ [])))
    × ((k : ℕ) (u : Tuple)
        → contains_fact (add_fact (make 1) 0 (pos 1 ∷ [])).1 (pos k) u
          ≡ (contains_fact (make 1) (pos k) u || ((0 == k) && tuple_beq (pos 1 ∷ []) u)))
add_fact_lem_example = add_fact_lem 1 (make 1) 0 (pos 1 ∷ []) no_facts-IsIndex (omega arith)
