-- ===== src/Lib.antt =====
-- RanTanPlan compiles planning problems, with Boolean and numeric fluents, to formulas for a solver
-- of satisfiability modulo theories, and asks the solver for plans of growing length. This library
-- models the C++ planner under rantanplan/cpp/src (paths below are relative to it) and proves what
-- makes its analyses and its search correct.
--
-- How the parts work together. Every expression is a node of one pool and is known by its handle;
-- equal nodes share a handle (`ExprPool`). The grounder replaces parameters by objects
-- (`substitute`), driven by an index of the facts found reachable so far (`FactIndex`). On the
-- grounded problem the analyses run: pairs of fluents that are never true together
-- (`H2MutexChecker`), actions that disturb each other (`InterferenceAnalysis`), the order in which
-- the actions of one parallel step can be executed (`Graph`), which actions and facts can be reached
-- at all (`RelaxedPlanningGraph`), and how complex the numeric effects are (`classify_value_kind`).
-- The planner then takes horizons from a schedule, adds the constraints of each timestep once, and
-- calls the solver (`SequentialPlanner::search`). While the solver runs, a propagator follows its
-- assignments on a trail and forbids actions that cannot share a step: those that exclude each other
-- (`ForallMutexModule`) or those that form a cycle of interference (`ExistsCycleModule`).
--
-- Files.
--   Prelude             names of the libraries passed on; lists over the native numbers (Lists),
--                       vectors of flags (Flags), decimal text (Decimal), ℤ (Int), Boolean tests (Tests)
--   Expr.Kinds          problem/expr_enums.hpp: ExprKind, ExprOperator and the classes of operators
--   Expr.Operators      problem/expr_enums.hpp: string_to_expr_operator, expr_operator_to_string,
--                       map_up_operator
--   Expr.Node           problem/expr_pool.hpp, expr_pool.cpp: ExprID, ExprPayload, ExprNode and
--                       canonical_key, the text under which a node is interned
--   Expr.Pool           problem/expr_pool.hpp, expr_pool.cpp: ExprPool::intern, the accessors, the tests
--                       of kind and operator, the constants
--   Expr.Substitution   problem/substitution.cpp: substitute and substitute_vars
--   Problem             problem/problem.hpp, action.hpp, effect.hpp, effect_expression.hpp,
--                       assignment.hpp, type.hpp: the fields that the analyses read
--   Problem.Fluents     problem/visitors/fluent_collector.cpp: the fluents of an expression
--   H2                  passes/h2_mutex_checker.cpp: the tables, and phase 2 of compute
--   H2.Build            the same file: the constructor, phase 1, the queries; World, below it, says
--                       what a reachable state is
--   Planner             planners/base_planner.hpp, base_planner.cpp: HorizonSchedule and the
--                       constraints of a timestep
--   Planner.Sequential  planners/sequential.cpp: SequentialPlanner::search
--   Graph               analysis/graph.hpp, graph.cpp: edges and topological_sort
--   Grounding.FactIndex grounding/fact_index.hpp, fact_index.cpp
--   Interference        problem/visitors/fluent_polarity_collector.cpp,
--                       analysis/interference_analysis.cpp: the analysis of an action and the
--                       directed test
--   Interference.Analyses  analysis/interference_analysis.cpp: analyze_all_actions
--   Interference.Eager  analysis/eager_interference_analysis.cpp: the graph of all pairs
--   Interference.Lazy   analysis/lazy_interference_analysis.cpp: the test on demand, with a cache
--   Relaxed             analysis/relaxed_planning_graph.hpp, relaxed_planning_graph.cpp: Condition
--                       (fact ids and conditions), Layers (build), Answers; World says what a
--                       reachable state is
--   Propagator          planners/propagators/propagator_strategy.cpp: the trail and its levels
--   Propagator.Cycle    planners/propagators/modules/exists_cycle_module.cpp: the search for a cycle
--   Propagator.Footprint  planners/propagators/propagator_module.hpp: build_footprint_index
--   Propagator.Exists   planners/propagators/modules/exists_cycle_module.cpp: the propagation
--   Propagator.Mutex    planners/propagators/modules/forall_mutex_module.cpp
--   ValueKind           problem/effect_expression.cpp: classify_value_kind
--
-- State. An object of the source is a record, and a method that changes it is a function that returns
-- the changed record. Where the source throws or reads outside a container the result is `none`. A
-- hash map is a list of entries, with the entry that a look-up of the source finds; a hash set is a
-- list, of which only membership is used. Handles and node ids are natural numbers, so a number that
-- wraps at 2 ^ 32, which takes that many nodes, is outside the model.
--
-- Fuel. Recursions over expressions take fuel. In a pool where children stand before their parents,
-- as interning builds it, every child has a smaller handle, so more fuel than the handle is enough;
-- for substitution the height of the expression is. The fixpoint of H2 may take one more round than
-- there are flags, since a round that goes on sets one. The walk of `topological_sort` takes one
-- unit for each node that is not marked yet, since a node is marked before the walk goes on, and so
-- does the search for a cycle for the active actions that are not visited. The loop that builds the
-- relaxed graph counts the layers up to `MAX_RPG_LAYERS`, as in the source, and its conditions take
-- one unit more than an expression with the same handle elsewhere. The loop of the search needs more
-- fuel than `max_steps`, since every turn raises the horizon.
--
-- Parameters. The solver, the clock and the extraction of a plan are arguments of the search. What the
-- theorems on its result assume of them (`Decides`) is that the time suffices, that the solver does
-- not give up, that it answers satisfiable only at a horizon with a plan, and unsatisfiable, when it
-- has been given the constraints of the horizon, only where there is none, and that a plan fits into
-- every longer horizon. In the world of H2, numeric conditions, negations and disjunctions may
-- take any value in a state, as the checker ignores them.
--
-- The propagator asks the variable factory and the solver through arguments. The relaxed graph relies
-- on what Relaxed.World calls IsSupported and IsRecognized: literals are grounded fluents, Boolean
-- fluents are assigned constants, and an equality under a negation is between constants.
--
-- Not modelled: the encoders, whose terms are built with the solver's library; the symmetry checker,
-- which only asks that solver; protocol buffers, configuration, logs and the command line; and, so
-- far, the numeric relaxed planning graph, the rest of the grounder, the transformation passes, the
-- components of a graph, the remaining planners, the semantic interference analyses and the frame
-- axiom module of the propagator.

pub mod Expr
pub mod Graph
pub mod Grounding
pub mod H2
pub mod Interference
pub mod Planner
pub mod Prelude
pub mod Problem
pub mod Propagator
pub mod Relaxed
pub mod ValueKind
