-- ===== src/Grounding.antt =====
-- The grounder, rantanplan/cpp/src/grounding.
pub mod FactIndex
