-- ===== src/Relaxed.antt =====
-- rantanplan/cpp/src/analysis/relaxed_planning_graph.hpp and relaxed_planning_graph.cpp: the Boolean
-- relaxed planning graph. The layers are kept last first, a set of fact ids is a list of which only
-- membership is used, and a pointer to an action is its position with the action. The assertion that
-- an effect names a grounded fluent is left out, as in a release build: −1 is then inserted. Walks
-- over expressions take fuel. Times, counts and messages are left out.
pub mod Condition
pub mod Layers
pub mod Answers
pub mod World
pub mod Facts
pub mod Satisfied
pub mod Conditions
pub mod Grown
pub mod Covered
pub mod Built
pub mod Sound
pub mod Bound
pub mod Answered
pub mod Total
pub mod Door
mod Tests
