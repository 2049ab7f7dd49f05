-- ===== src/Authorization.antt =====
-- records/authorization.py
pub mod Models
pub mod Match
pub mod Check
pub mod History
pub mod Bounds
pub mod Validity
pub mod Patterns
mod Tests
