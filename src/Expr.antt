-- ===== src/Expr.antt =====
-- Expressions: problem/expr_enums.hpp, problem/expr_pool.hpp, problem/expr_pool.cpp and
-- problem/substitution.cpp under rantanplan/cpp/src.
pub mod Kinds
pub mod Node
pub mod Pool
pub mod Operators
pub mod Substitution
