-- ===== src/Records.antt =====
-- records/: the lifecycle of records, their revision and the graph behind a reopening.
pub mod Lifecycle
pub mod Progress
pub mod Reopen
pub mod Revision
pub mod Revalidation
mod Tests
