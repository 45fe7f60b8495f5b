-- ===== src/Poll.antt =====
-- The bounded poll cycle: crates/waitprims-async/src/poll_cycle.rs.
pub mod Budget
pub mod Fairness
pub mod Visit
pub mod Assemble
pub mod Kind
pub mod Runner
