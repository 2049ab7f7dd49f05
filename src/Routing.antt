-- ===== src/Routing.antt =====
-- core/independence.py and core/router.py: which provider is selected for a request.
pub mod Models
pub mod Router
pub mod Selection
pub mod Separation
mod Tests
