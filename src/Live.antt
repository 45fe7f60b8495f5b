-- ===== src/Live.antt =====
-- The live first-match runner: crates/waitprims-async/src/outcome.rs and first_match.rs.
pub mod Outcome
pub mod Decide
pub mod Shape
pub mod Ties
pub mod Runner
