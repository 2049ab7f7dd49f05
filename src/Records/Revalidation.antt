-- ===== src/Records/Revalidation.antt =====
-- records/revalidation.py: the records that a change affects, and whether their next use is blocked.
pub mod Models
pub mod Detect
pub mod Direct
mod Tests
