-- ===== src/Relaxed/Door.antt =====
-- A door: one action opens it, another one needs it open.
use ran_tan_plan.Prelude.{
  ℕ, zero, suc, ◌≡◌, refl, sym, ap, ◌∙◌, subst, ◌⊎◌, inl, inr, Bool, true, false, not, ◌&&◌, ◌||◌,
  ◌==◌, true-ne-false, eq_of_some, Option, none, some, [], ◌∷◌, In, pos, negsuc, ⊎_elim,
}
use ran_tan_plan.Expr.Kinds.{ExprKind, ExprOperator, kind_beq, op_beq}
use ran_tan_plan.Expr.Node.{ExprId, null, ref, id_beq, ExprNode, monostate, bool}
use ran_tan_plan.Expr.Pool.{
  ExprPool, get, is_op, is_kind, is_constant, is_state_variable, is_function_application, children,
  arguments, argument_count, has_head_and_arguments,
}
use ran_tan_plan.Problem.{Problem, Action, EffectKind, EffectExpression, TypeKind, is_bool_type}
use ran_tan_plan.Interference.{constant_value}
use ran_tan_plan.Relaxed.Condition.{
  has_fact, compute_applicable_actions, are_preconditions_satisfied, conditions_satisfied,
  extract_cnf_conditions, extract_each, all_satisfied, is_literal, is_fact_in_layer,
  find_grounded_fluent_id, find_grounded_fluent_index, encode_negative_fact_id,
  is_condition_satisfied, evaluate_ground_equality, operands, get_inner_condition,
  negation_satisfied,
}
use ran_tan_plan.H2.Build.{index_of}
use ran_tan_plan.Relaxed.Layers.{
  build, add_layers, initial_filling, initialize_fact_layer, add_fact, achieve, enter, first_layer,
  fact_of_value, is_fixpoint_reached, all_in, add_actions_to_layer, add_effects_to_layer,
  is_triggered, add_simple_effect_to_layer, RelaxedPlanningGraph,
}
use ran_tan_plan.Relaxed.World.{
  Valuation, IsCoherent, IsFluent, Initially, Happens, ReachedIn, start, step, Part, is_plain,
  whole, conjunct, negated, IsRecognized, IsSupported,
}

abbrev pub leaf : ExprKind → Option ExprOperator → ExprNode
leaf k o = record { kind = k; op = o; type_id = none; children = []; payload = monostate }

abbrev pub truth : Bool → ExprNode
truth b = record {
  kind = ExprKind.constant;
  op = none;
  type_id = some 0;
  children = [];
  payload = bool b;
}

-- 1 is the fluent `open`, 5 its negation.
abbrev pub pool : ExprPool
pool = record {
  nodes =
      leaf ExprKind.fluent_symbol none
      ∷ record {
        kind = ExprKind.state_variable;
        op = none;
        type_id = some 0;
        children = ref 0 ∷ [];
        payload = monostate;
      }
      ∷ truth true
      ∷ truth false
      ∷ leaf ExprKind.function_symbol none
      ∷ record {
        kind = ExprKind.function_application;
        op = some ExprOperator.not;
        type_id = some 0;
        children = ref 4 ∷ ref 1 ∷ [];
        payload = monostate;
      }
      ∷ [];
  keys = [];
}

abbrev opened : EffectExpression
opened = record {
  kind = EffectKind.assign;
  fluent_id = ref 1;
  value_id = ref 2;
  condition_id = null;
  is_conditional = false;
}

abbrev open_door : Action
open_door = record {
  id = 0;
  precondition_id = ref 5;
  has_precondition = true;
  effects = opened ∷ [];
}

abbrev pub pass_through : Action
pass_through = record { id = 1; precondition_id = ref 1; has_precondition = true; effects = [] }

abbrev pub door : Problem
door = record {
  pool = pool;
  types = TypeKind.bool ∷ [];
  grounded_fluents = ref 1 ∷ [];
  actions = open_door ∷ pass_through ∷ [];
  initial_state = record { fluent_id = ref 1; value_id = ref 3 } ∷ [];
  goals = ref 1 ∷ [];
}

-- The state in which the door is open or not.
abbrev pub state : Bool → Valuation
state b null = false
state b (ref i) = ((i == 1) && b) || ((i == 2) || ((i == 5) && not b))

only_not : (e : ExprId) → is_op pool e ExprOperator.not ≡ true → e ≡ ref 5
unfolding is_op get op_beq
only_not null h = cc
only_not (ref zero) h = cc
only_not (ref (suc zero)) h = cc
only_not (ref (suc (suc zero))) h = cc
only_not (ref (suc (suc (suc zero)))) h = cc
only_not (ref (suc (suc (suc (suc zero))))) h = cc
only_not (ref (suc (suc (suc (suc (suc zero)))))) h = refl
only_not (ref (suc (suc (suc (suc (suc (suc i))))))) h = cc

no_connective :
    (e : ExprId) (o : ExprOperator) → op_beq ExprOperator.not o ≡ false → is_op pool e o ≡ true → ⊥
unfolding is_op get
no_connective null o k h = cc
no_connective (ref zero) o k h = cc
no_connective (ref (suc zero)) o k h = cc
no_connective (ref (suc (suc zero))) o k h = cc
no_connective (ref (suc (suc (suc zero)))) o k h = cc
no_connective (ref (suc (suc (suc (suc zero))))) o k h = cc
no_connective (ref (suc (suc (suc (suc (suc zero)))))) o k h = true-ne-false h k
no_connective (ref (suc (suc (suc (suc (suc (suc i))))))) o k h = cc

no_and : (e : ExprId) → is_op pool e ExprOperator.and ≡ true → ⊥
unfolding op_beq
no_and e h = no_connective e ExprOperator.and refl h

no_equals : (e : ExprId) → is_op pool e ExprOperator.equals ≡ true → ⊥
unfolding op_beq
no_equals e h = no_connective e ExprOperator.equals refl h

constants_known :
    (b : Bool) (e : ExprId) (c : Bool) → constant_value pool e ≡ some c → state b e ≡ c
unfolding constant_value get is_constant is_kind kind_beq
constants_known b null c h = cc
constants_known b (ref zero) c h = cc
constants_known b (ref (suc zero)) c h = cc
constants_known b (ref (suc (suc zero))) c h = eq_of_some h
constants_known b (ref (suc (suc (suc zero)))) c h = eq_of_some h
constants_known b (ref (suc (suc (suc (suc zero))))) c h = cc
constants_known b (ref (suc (suc (suc (suc (suc zero)))))) c h = cc
constants_known b (ref (suc (suc (suc (suc (suc (suc i))))))) c h = cc

inner_of : get_inner_condition door (ref 5) ≡ ref 1
unfolding get_inner_condition has_head_and_arguments argument_count arguments children get
    is_function_application is_state_variable is_kind kind_beq
inner_of = refl

state-IsCoherent : (b : Bool) → IsCoherent door (state b)
state-IsCoherent b = record {
  constant = constants_known b;
  negation = λ e i k h. negates b e i (only_not e k) h;
  conjunction = λ e c k. absurd (no_and e k);
  equality = λ e x y k. absurd (no_equals e k);
}
  where
    negates :
        (b : Bool) (e : ExprId) (i : ℕ)
        → e ≡ ref 5
        → get_inner_condition door e ≡ ref i
        → state b e ≡ not (state b (ref i))
    negates b e i same h =
        let inner : ref 1 ≡ ref i = sym inner_of ∙ ap (get_inner_condition door) (sym same) ∙ h in
        ap (state b) same ∙ five b ∙ ap (λ x. not (state b x)) inner
      where
        five : (b : Bool) → state b (ref 5) ≡ not (state b (ref 1))
        five true = refl
        five false = refl

only_open : (i : ℕ) → IsFluent door i → ref 1 ≡ ref i
only_open i (inl e, _) = sym e
only_open i (inr m, _) = absurd m

parts_of_literal : (e : ExprId) → Part door (ref 1) e → e ≡ ref 1
parts_of_literal e whole = refl
parts_of_literal e (conjunct {e = d} part k m) = absurd (no_and d k)
parts_of_literal e (negated {e = d} part k) =
    let same : ref 1 ≡ ref 5 = sym (parts_of_literal d part) ∙ only_not d k in cc

parts_of_negation : (e : ExprId) → Part door (ref 5) e → (e ≡ ref 5) ⊎ (e ≡ ref 1)
parts_of_negation e whole = inl refl
parts_of_negation e (conjunct {e = d} part k m) = absurd (no_and d k)
parts_of_negation e (negated {e = d} part k) =
    inr (ap (get_inner_condition door) (only_not d k) ∙ inner_of)

open_typed : is_bool_type door (ref 1) ≡ true
unfolding is_bool_type get
open_typed = refl

pub literal-IsRecognized : IsRecognized door (ref 1)
literal-IsRecognized = record {
  literal = λ e part plain lit. inl (parts_of_literal e part);
  typed = λ e part m.
      subst (λ x. is_bool_type door x ≡ true) (sym (parts_of_literal e part)) open_typed;
  negated_equality = λ e part k q. absurd (no_equals _ q);
}

not_plain : is_plain door (ref 5) ≡ true → ⊥
unfolding is_op get op_beq
not_plain h = cc

negation-IsRecognized : IsRecognized door (ref 5)
negation-IsRecognized = record {
  literal = λ e part plain lit.
      ⊎_elim (λ five. absurd (not_plain (subst (λ x. is_plain door x ≡ true) five plain)))
        (λ one. inl one) (parts_of_negation e part);
  typed = λ e part m.
      ⊎_elim (λ same. subst (λ x. is_bool_type door x ≡ true) (sym same) open_typed) (λ n. absurd n)
        m;
  negated_equality = λ e part k q. absurd (no_equals _ q);
}

open_plain : is_op pool (ref 1) ExprOperator.not ≡ false
unfolding is_op get
open_plain = refl

is_true : constant_value pool (ref 2) ≡ some true
unfolding constant_value get is_constant is_kind kind_beq
is_true = refl

is_false : constant_value pool (ref 3) ≡ some false
unfolding constant_value get is_constant is_kind kind_beq
is_false = refl

pub door-IsSupported : IsSupported door
door-IsSupported = record {
  fluents = λ e m.
      ⊎_elim (λ same. subst (λ x. is_op pool x ExprOperator.not ≡ false) (sym same) open_plain)
        (λ n. absurd n) m;
  constants = λ a e i ma me f fluent. (true, value a e ma me);
  preconditions = λ a m h.
      ⊎_elim
        (λ same. subst (λ x. IsRecognized door x.precondition_id) (sym same) negation-IsRecognized)
        (⊎_elim
          (λ same. subst (λ x. IsRecognized door x.precondition_id) (sym same) literal-IsRecognized)
          (λ n. absurd n))
        m;
  conditions = λ a e ma me h. absurd (simple a e ma me h);
}
  where
    value :
        (a : Action) (e : EffectExpression)
        → In a door.actions
        → In e a.effects
        → constant_value pool e.value_id ≡ some true
    value a e (inl same) me =
        ⊎_elim (λ k. subst (λ x. constant_value pool x.value_id ≡ some true) (sym k) is_true)
          (λ n. absurd n) (subst (λ x. In e x.effects) same me)
    value a e (inr (inl same)) me = absurd (subst (λ x. In e x.effects) same me)
    value a e (inr (inr m)) me = absurd m

    simple :
        (a : Action) (e : EffectExpression)
        → In a door.actions
        → In e a.effects
        → e.is_conditional ≡ true
        → ⊥
    simple a e (inl same) me h =
        ⊎_elim (λ k. true-ne-false h (ap (λ x. x.is_conditional) k)) (λ n. n)
          (subst (λ x. In e x.effects) same me)
    simple a e (inr (inl same)) me h = subst (λ x. In e x.effects) same me
    simple a e (inr (inr m)) me h = m

closed : Initially door (state false)
closed i f =
    let same = only_open i f in
    (
      record { fluent_id = ref 1; value_id = ref 3 },
      inl refl,
      same,
      is_false ∙ ap (λ x. some (state false x)) same,
    )

opening : Happens door open_door (state false) (state true)
opening = record {
  applicable = λ h. refl;
  after =
      λ i f. inl (opened, inl refl, inl refl, only_open i f, ap (state true) (sym (only_open i f)));
}

pub reached : ReachedIn door 1 (state true)
reached =
    step open_door (inl refl) (start (state-IsCoherent false) closed) opening
      (state-IsCoherent true)

-- The negative fact of `open` is -2.
abbrev pub door_graph : RelaxedPlanningGraph
door_graph = record {
  fact_layers = (pos 0 ∷ pos 0 ∷ negsuc 1 ∷ []) ∷ (pos 0 ∷ negsuc 1 ∷ []) ∷ (negsuc 1 ∷ []) ∷ [];
  action_layers = ((0, open_door) ∷ (1, pass_through) ∷ []) ∷ ((0, open_door) ∷ []) ∷ [];
  achievability_layer = (pos 0, 1) ∷ (negsuc 1, 0) ∷ [];
}

pub door_built : build door 8 ≡ some door_graph
unfolding build add_layers initial_filling initialize_fact_layer add_fact achieve enter first_layer
    fact_of_value is_fixpoint_reached all_in has_fact compute_applicable_actions
    are_preconditions_satisfied conditions_satisfied extract_cnf_conditions extract_each
    all_satisfied is_condition_satisfied negation_satisfied is_literal is_fact_in_layer
    find_grounded_fluent_id find_grounded_fluent_index get_inner_condition encode_negative_fact_id
    add_actions_to_layer add_effects_to_layer is_triggered add_simple_effect_to_layer constant_value
    index_of id_beq is_op get op_beq kind_beq is_kind is_constant is_state_variable
    is_function_application has_head_and_arguments argument_count arguments children is_bool_type
    evaluate_ground_equality operands
door_built = refl
