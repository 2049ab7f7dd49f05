-- ===== src/Records/Reopen.antt =====
-- records/reopen.py: the search for the records around a work, and the package that it fills.
pub mod Search
pub mod Package
pub mod Gather
pub mod Graph
pub mod Reach
pub mod Collected
pub mod Handoff
pub mod Accounts
