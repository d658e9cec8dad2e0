-- ===== src/Sat.antt =====
-- sat.c and sat.h: the clause-learning SAT solver at the centre of SMCHR.
pub mod Literal
pub mod State
pub mod Clause
pub mod Order
pub mod Select
pub mod Backtrack
pub mod Lazy
pub mod Luby
pub mod Propagate
pub mod Model
pub mod Assignment
mod Tests
