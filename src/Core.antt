-- ===== src/Core.antt =====
-- crates/waitprims-core: the wire types, the errors and the timestamps that the runners share.
pub mod Refs
pub mod Error
pub mod Print
pub mod Time
pub mod Rfc3339
pub mod Types
pub mod Messages
