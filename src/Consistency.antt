-- ===== src/Consistency.antt =====
-- How a change of one artifact reaches the others: backend/src/kosmo/application/consistency.
pub mod Artifacts
pub mod Evaluations
pub mod Handlers
pub mod Impacts
pub mod Enrich
pub mod Output
pub mod Resolve
pub mod Review
pub mod Running
pub mod Snapshot
mod Tests
