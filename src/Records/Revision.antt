-- ===== src/Records/Revision.antt =====
-- records/revision.py: revisions, their application under a grant, and the records they supersede.
pub mod Models
pub mod Operations
pub mod Supersede
pub mod Applying
pub mod Retry
pub mod Versions
pub mod Grants
pub mod Proof
pub mod Superseding
pub mod Atomic
pub mod Exact
mod Tests
