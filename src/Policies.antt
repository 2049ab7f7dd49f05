-- ===== src/Policies.antt =====
-- The policy engine: core/policies.py.
pub mod Models
pub mod Engine
pub mod Union
pub mod Answer
pub mod Permission
pub mod Conflict
pub mod Denial
mod Tests
pub mod Validated
